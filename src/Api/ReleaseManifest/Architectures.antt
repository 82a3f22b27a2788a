-- ===== src/Api/ReleaseManifest/Architectures.antt =====
-- The architectures that a release supports.
use upgrade_controller.Prelude.{
  String, ◌++◌, ◌≡◌, ◌≢◌, ◌↔◌, ◌⊎◌, refl, none, List, [], ◌∷◌, Dict, lookup, insert, lookup-insert,
  All, inl, inr, arith, eq_iff,
}
use upgrade_controller.Errors.{ok, panic}
use upgrade_controller.Api.ReleaseManifest.{
  Arch, arch_type_x86, arch_type_arm, short, add_architectures, supported_architectures,
}

-- one of the two architectures that have a short name
abbrev pub IsKnown : Arch → Type 0
IsKnown a = (a ≡ arch_type_x86) ⊎ (a ≡ arch_type_arm)

-- The text is the name or the short name of one of the architectures.
abbrev pub IsNamed : String → List Arch → Type 0
IsNamed text [] = ⊥
IsNamed text (a ∷ rest) = ((a ≡ text) ⊎ (short a ≡ ok text)) ⊎ IsNamed text rest

known_short : (a : Arch) → IsKnown a → (s : String) × (short a ≡ ok s)
unfolding short
known_short a (inl same) = rw same ("amd64", refl)
known_short a (inr same) = rw same ("arm64", refl)

unknown_short : (a : Arch) → (¬ IsKnown a) → (text : String) × (short a ≡ panic text)
unfolding short
unknown_short a unknown =
    ("unknown arch: " ++ a, ground (arith, eq_iff a arch_type_x86, eq_iff a arch_type_arm))

IsKnown-or_not : (a : Arch) → IsKnown a ⊎ (¬ IsKnown a)
IsKnown-or_not a = ground (arith, eq_iff a arch_type_x86, eq_iff a arch_type_arm)

-- The keys behind the two insertions of one round.
round_keys :
    (supported : Dict (Unit {0})) (a s text : String)
    → (lookup text (insert s tt (insert a tt supported)) ≢ none)
      ↔ (((a ≡ text) ⊎ (s ≡ text)) ⊎ (lookup text supported ≢ none))
round_keys supported a s text =
    rw (lookup-insert s text tt (insert a tt supported), lookup-insert a text tt supported)
      (ground (arith, eq_iff s text, eq_iff a text))

-- The keys of the set behind the loop.
record Collected (archs : List Arch) (supported : Dict (Unit {0})) : Type 0 where
  set : Dict (Unit {0})
  ran : add_architectures supported archs ≡ ok set
  keys :
      (text : String)
      → (lookup text set ≢ none) ↔ (IsNamed text archs ⊎ (lookup text supported ≢ none))

same_short : (a : Arch) {s text : String} → short a ≡ ok s → (short a ≡ ok text) ↔ (s ≡ text)
same_short a {s} {text} h = (λ q. let r : ok s ≡ ok text = cc in cc, λ q. cc)

regroup :
    {A S Short B Rest M Key : Type 0}
    → (Short ↔ S)
    → (M ↔ ((A ⊎ S) ⊎ B))
    → (Key ↔ (Rest ⊎ M))
    → Key ↔ (((A ⊎ Short) ⊎ Rest) ⊎ B)
regroup {A} {S} {Short} {B} {Rest} {M} {Key} names round behind =
    (λ k. from_rest (behind.0 k), λ h. behind.1 (to_rest h))
  where
    from_round : (A ⊎ S) ⊎ B → ((A ⊎ Short) ⊎ Rest) ⊎ B
    from_round (inl (inl a)) = inl (inl (inl a))
    from_round (inl (inr s)) = inl (inl (inr (names.1 s)))
    from_round (inr b) = inr b

    from_rest : Rest ⊎ M → ((A ⊎ Short) ⊎ Rest) ⊎ B
    from_rest (inl r) = inl (inr r)
    from_rest (inr m) = from_round (round.0 m)

    to_rest : ((A ⊎ Short) ⊎ Rest) ⊎ B → Rest ⊎ M
    to_rest (inl (inl (inl a))) = inr (round.1 (inl (inl a)))
    to_rest (inl (inl (inr s))) = inr (round.1 (inl (inr (names.0 s))))
    to_rest (inl (inr r)) = inl r
    to_rest (inr b) = inr (round.1 (inr b))

collected :
    (archs : List Arch) (supported : Dict (Unit {0}))
    → All IsKnown archs
    → Collected archs supported
unfolding add_architectures
collected [] supported known = record { set = supported; ran = refl; keys = λ text. ground arith }
collected (a ∷ rest) supported (known, all_known) =
    let (s, q) = known_short a known in
    let c = collected rest (insert s tt (insert a tt supported)) all_known in
    record {
      set = c.set;
      ran = rw q c.ran;
      keys = λ text.
          let names : (short a ≡ ok text) ↔ (s ≡ text) = same_short a q in
          let round = round_keys supported a s text in
          let behind = c.keys text in regroup names round behind;
    }

stopped :
    (archs : List Arch) (supported : Dict (Unit {0}))
    → (¬ All IsKnown archs)
    → (text : String) × (add_architectures supported archs ≡ panic text)
unfolding add_architectures
stopped [] supported unknown = elim (unknown tt) [ ]
stopped (a ∷ rest) supported unknown = elim (IsKnown-or_not a) [
  | inr other ↦ let (text, q) = unknown_short a other in (text, rw q refl)
  | inl known ↦
      let (s, q) = known_short a known in
      let (text, r) =
        stopped rest (insert s tt (insert a tt supported)) (λ others. unknown (known, others)) in
      (text, rw q r)
]

without_keys : {Key Named A : Type 0} {x : A} → (Key ↔ (Named ⊎ (x ≢ x))) → Key ↔ Named
without_keys {Key} {Named} {A} {x} keys = (λ k. only (keys.0 k), λ named. keys.1 (inl named))
  where
    only : Named ⊎ (x ≢ x) → Named
    only (inl named) = named
    only (inr other) = elim (other refl) [ ]

all-IsKnown_or_not : (archs : List Arch) → All IsKnown archs ⊎ (¬ All IsKnown archs)
all-IsKnown_or_not [] = inl tt
all-IsKnown_or_not (a ∷ rest) = elim (IsKnown-or_not a) [
  | inr other ↦ inr (λ h. other h.0)
  | inl known ↦ elim (all-IsKnown_or_not rest) [
    | inl others ↦ inl (known, others)
    | inr not_others ↦ inr (λ h. not_others h.1)
  ]
]

-- SupportedArchitectures panics exactly where a release names an architecture other than x86_64 and
-- aarch64; otherwise its set has the names and the short names of the architectures of the release,
-- and no other text.
pub supported_architectures_lem :
    (archs : List Arch)
    → (All IsKnown archs
        × (set : Dict (Unit {0})) × (supported_architectures archs ≡ ok set)
        × ((text : String) → (lookup text set ≢ none) ↔ IsNamed text archs))
      ⊎ ((¬ All IsKnown archs) × (text : String) × (supported_architectures archs ≡ panic text))
unfolding supported_architectures lookup
supported_architectures_lem archs = elim (all-IsKnown_or_not archs) [
  | inr unknown ↦ let (text, q) = stopped archs [] unknown in inr (unknown, text, q)
  | inl known ↦
      let c = collected archs [] known in
      inl (known, c.set, c.ran, λ text. without_keys (c.keys text))
]
