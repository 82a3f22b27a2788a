-- ===== src/Prelude/Text.antt =====
-- What the program uses of Go's `strings`, `path/filepath` and `encoding/hex`.
-- `strings.ToLower` is modelled on ASCII letters.
pub mod Hex
use Prim.Native.Nat.{ℕ, zero, suc, ◌/◌, ◌%◌}
use Prim.Native.Char.{Char, code}
use Prim.Native.String.{String, ◌++◌}
use mathlib.Core.Bool.{Bool, true, false, ◌||◌}
use mathlib.Core.Option.{Option, none, some}
use mathlib.Core.List.{List, [], ◌∷◌}
use mathlib.Core.Path.{◌≡◌}
use mathlib.Core.Logic.{◌≢◌}
use native.Mathlib.Omega.{arith}
use text.Mathlib.Text.{◌==◌}
use text.Mathlib.TextEquality.{eq_iff}
use upgrade_controller.Prelude.Tests.{nat_eq, if◌then◌else◌}

-- the first replacement that is listed for the character
abbrev replacement : List (Char × Char) → Char → Char
replacement [] c = c
replacement ((old, new) ∷ rest) c = if nat_eq (code c) (code old) then new else replacement rest c

-- `strings.NewReplacer(…).Replace`, for replacements of one character by one
unfoldable pub replace_chars : List (Char × Char) → String → String
replace_chars table String.[] = ""
replace_chars table (String.◌∷◌ c s) = String.◌∷◌ (replacement table c) (replace_chars table s)

-- `strings.ReplaceAll(s, ".", "-")`
unfoldable pub dots_to_dashes : String → String
unfolding replace_chars
dots_to_dashes = replace_chars ((".", "-") ∷ [])

abbrev ascii_letters : List (Char × Char)
ascii_letters =
    ("A", "a")
    ∷ ("B", "b")
    ∷ ("C", "c")
    ∷ ("D", "d")
    ∷ ("E", "e")
    ∷ ("F", "f")
    ∷ ("G", "g")
    ∷ ("H", "h")
    ∷ ("I", "i")
    ∷ ("J", "j")
    ∷ ("K", "k")
    ∷ ("L", "l")
    ∷ ("M", "m")
    ∷ ("N", "n")
    ∷ ("O", "o")
    ∷ ("P", "p")
    ∷ ("Q", "q")
    ∷ ("R", "r")
    ∷ ("S", "s")
    ∷ ("T", "t")
    ∷ ("U", "u")
    ∷ ("V", "v")
    ∷ ("W", "w")
    ∷ ("X", "x")
    ∷ ("Y", "y")
    ∷ ("Z", "z")
    ∷ []

-- `strings.ToLower`
unfoldable pub to_lower : String → String
unfolding replace_chars
to_lower = replace_chars ascii_letters

-- what is left of a text behind a prefix
unfoldable pub cut_prefix : String → String → Option String
cut_prefix s String.[] = some s
cut_prefix String.[] (String.◌∷◌ d p) = none
cut_prefix (String.◌∷◌ c s) (String.◌∷◌ d p) =
    let rest = cut_prefix s p in if nat_eq (code c) (code d) then rest else none

-- `strings.TrimPrefix`
unfoldable pub trim_prefix : String → String → String
unfolding cut_prefix
trim_prefix s p = elim (cut_prefix s p) [ none ↦ s | some rest ↦ rest ]

abbrev is_some : Option String → Bool
is_some none = false
is_some (some s) = true

-- `strings.Contains`
unfoldable pub contains : String → String → Bool
unfolding cut_prefix
contains String.[] sub = is_some (cut_prefix "" sub)
contains (String.◌∷◌ c s) sub = is_some (cut_prefix (String.◌∷◌ c s) sub) || contains s sub

abbrev push : Char → List String → List String
push c [] = String.◌∷◌ c "" ∷ []
push c (part ∷ parts) = String.◌∷◌ c part ∷ parts

-- the components of a path, empty ones included
split_path : String → List String
split_path String.[] = "" ∷ []
split_path (String.◌∷◌ c s) =
    let rest = split_path s in if nat_eq (code c) b'/' then "" ∷ rest else push c rest

abbrev pop : List String → List String
pop [] = []
pop (part ∷ parts) = parts

-- The components that are left, the last one first.
clean_parts : List String → List String → List String
clean_parts kept [] = kept
clean_parts kept (part ∷ parts) =
    clean_parts
      (if part == "" || part == "." then kept else if part == ".." then pop kept else part ∷ kept)
      parts

rooted : String → List String → String
rooted path [] = path
rooted path (part ∷ kept) = rooted ("/" ++ part ++ path) kept

-- `filepath.Join(a, b)` for a rooted `a`: the two joined by a slash and cleaned
unfoldable pub join_path : String → String → String
unfolding split_path clean_parts rooted
join_path a b = elim (clean_parts [] (split_path (a ++ "/" ++ b))) [
  | [] ↦ "/"
  | part ∷ kept ↦ rooted "" (part ∷ kept)
]

pub hex_digit_of : String → ℕ → String
hex_digit_of String.[] n = ""
hex_digit_of (String.◌∷◌ c s) zero = String.◌∷◌ c ""
hex_digit_of (String.◌∷◌ c s) (suc n) = hex_digit_of s n

unfoldable pub hex_digit : ℕ → String
unfolding hex_digit_of
hex_digit n = hex_digit_of "0123456789abcdef" n

-- `hex.EncodeToString`
unfoldable pub encode_hex : List ℕ → String
unfolding hex_digit
encode_hex [] = ""
encode_hex (b ∷ bytes) = hex_digit (b / 16) ++ hex_digit (b % 16) ++ encode_hex bytes

spaced : List String → String
spaced [] = ""
spaced (s ∷ rest) = " " ++ s ++ spaced rest

-- `%s` of a slice of texts
unfoldable pub show_list : List String → String
unfolding spaced
show_list [] = "[]"
show_list (s ∷ rest) = "[" ++ s ++ spaced rest ++ "]"

pub neq_of_test : (s t : String) → (s == t) ≡ false → s ≢ t
neq_of_test s t h = ground (arith, eq_iff s t)
