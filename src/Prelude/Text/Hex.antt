-- ===== src/Prelude/Text/Hex.antt =====
-- The digits of `encoding/hex`, read back.
use Prim.Native.Char.{Char, code}
use Prim.Native.Nat.{ℕ, zero, suc, ◌+◌, ◌-◌, ◌*◌, ◌/◌, ◌%◌, ◌<◌}
use Prim.Native.String.{String, ◌++◌}
use mathlib.Core.List.{List, [], ◌∷◌}
use mathlib.Core.Path.{◌≡◌, refl, ◌∙◌}
use native.Mathlib.Omega.{arith}
use text.Mathlib.TextLemmas.{cons-append, nil-append}
use upgrade_controller.Prelude.Tests.{ltb, if◌then◌else◌}
use upgrade_controller.Prelude.Lists.{All, length}
use upgrade_controller.Prelude.Text.{hex_digit_of, hex_digit, encode_hex}

-- the value of a digit
abbrev digit_value : Char → ℕ
digit_value c = if ltb (code c) 58 then code c - 48 else code c - 87

-- the bytes of which a text is the digits
unfoldable pub decode_hex : String → List ℕ
decode_hex String.[] = []
decode_hex (String.◌∷◌ high String.[]) = []
decode_hex (String.◌∷◌ high (String.◌∷◌ low rest)) =
    (digit_value high * 16 + digit_value low) ∷ decode_hex rest

-- the number of characters
unfoldable pub text_length : String → ℕ
text_length String.[] = 0
text_length (String.◌∷◌ c s) = suc (text_length s)

-- The values of the characters count up from `n`.
abbrev AreDigits : ℕ → String → Type 0
AreDigits n String.[] = Unit
AreDigits n (String.◌∷◌ c s) = (digit_value c ≡ n) × AreDigits (suc n) s

record DigitOf (table : String) (index value : ℕ) : Type 0 where
  digit : Char
  text_lem : hex_digit_of table index ≡ String.◌∷◌ digit ""
  value_lem : digit_value digit ≡ value

digit_of :
    (table : String) (first index : ℕ)
    → AreDigits first table
    → index < text_length table
    → DigitOf table index (first + index)
unfolding text_length hex_digit_of
digit_of String.[] first index digits few = ground arith
digit_of (String.◌∷◌ c s) first zero (value, digits) few = record {
  digit = c;
  text_lem = refl;
  value_lem = value ∙ ground arith;
}
digit_of (String.◌∷◌ c s) first (suc index) (value, digits) few =
    let d = digit_of s (suc first) index digits (ground arith) in
    record { digit = d.digit; text_lem = d.text_lem; value_lem = d.value_lem ∙ ground arith }

hex_digits : AreDigits 0 "0123456789abcdef"
hex_digits = (
  refl,
  (
    refl,
    (
      refl,
      (
        refl,
        (
          refl,
          (
            refl,
            (refl, (refl, (refl, (refl, (refl, (refl, (refl, (refl, (refl, (refl, tt)))))))))),
          ),
        ),
      ),
    ),
  ),
)

hex_digit-DigitOf : (n : ℕ) → n < 16 → DigitOf "0123456789abcdef" n n
unfolding text_length
hex_digit-DigitOf n few =
    let d = digit_of "0123456789abcdef" 0 n hex_digits few in
    record { digit = d.digit; text_lem = d.text_lem; value_lem = d.value_lem ∙ ground arith }

-- Two digits of a byte, and those of the bytes behind it.
pub decode_hex-encode_hex :
    (bytes : List ℕ)
    → All (λ b. b < 256) bytes
    → (decode_hex (encode_hex bytes) ≡ bytes) × (text_length (encode_hex bytes) ≡ 2 * length bytes)
unfolding decode_hex encode_hex hex_digit text_length
decode_hex-encode_hex [] small = (refl, refl)
decode_hex-encode_hex (b ∷ bytes) (is_byte, small) =
    let high = hex_digit-DigitOf (b / 16) (ground arith) in
    let low = hex_digit-DigitOf (b % 16) (ground arith) in
    let (same, count) = decode_hex-encode_hex bytes small in
    let text : encode_hex (b ∷ bytes)
        ≡ String.◌∷◌ high.digit (String.◌∷◌ low.digit (encode_hex bytes)) =
      rw
        (
          high.text_lem,
          low.text_lem,
          cons-append high.digit "" (String.◌∷◌ low.digit "" ++ encode_hex bytes),
          cons-append low.digit "" (encode_hex bytes),
        )
        (rw (nil-append, nil-append) refl) in
    let value : digit_value high.digit * 16 + digit_value low.digit ≡ b =
      rw (high.value_lem, low.value_lem) (ground arith) in
    rw text (rw (value, same) refl, ground arith)
