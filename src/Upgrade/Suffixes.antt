-- ===== src/Upgrade/Suffixes.antt =====
-- The suffix of an upgrade against the random bytes that it is made of.
use upgrade_controller.Prelude.{
  ℕ, ◌<◌, String, ◌≡◌, refl, List, All, length, encode_hex, arith, decode_hex, text_length,
  decode_hex-encode_hex,
}
use upgrade_controller.Errors.{ok}
use upgrade_controller.Upgrade.Base.{random_byte_num, generate_suffix}

-- GenerateSuffix turns the five random bytes into ten hexadecimal digits, from which the bytes can
-- be read back: other bytes give another suffix.
pub decode_hex-generate_suffix :
    (bytes : List ℕ)
    → length bytes ≡ random_byte_num
    → All (λ b. b < 256) bytes
    → (suffix : String) × (generate_suffix (ok bytes) ≡ ok suffix)
      × (decode_hex suffix ≡ bytes)
      × (text_length suffix ≡ 10)
unfolding generate_suffix
decode_hex-generate_suffix bytes five small =
    let (same, count) = decode_hex-encode_hex bytes small in
    (encode_hex bytes, refl, same, ground arith)
