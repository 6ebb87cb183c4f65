-- ===== src/Audit/Digest/Shape.antt =====
-- What a digest looks like.
use sentin_npu.Audit.Digest.{
  hash_words, initial, blocks, padded, to_be_bytes, words_bytes, sha256, hex_digit, hex, digest,
}
use sentin_npu.Audit.Digest.Padding.{length-to_be_bytes}
use sentin_npu.Prelude.{
  ℕ, zero, suc, ◌*◌, ◌/◌, ◌%◌, ◌≤◌, ◌<◌, ◌≡◌, refl, ◌⊎◌, List, [], ◌∷◌, length, length-append, take,
  drop, All, All-append, arith, Bytes, codes,
}

-- 0 to 9 or a to f
abbrev pub IsHexDigit : ℕ → Type 0
IsHexDigit c = ((48 ≤ c) × (c ≤ 57)) ⊎ ((97 ≤ c) × (c ≤ 102))

abbrev IsByte : ℕ → Type 0
IsByte b = b < 256

to_be_bytes-IsByte : (count n : ℕ) → All IsByte (to_be_bytes count n)
unfolding to_be_bytes
to_be_bytes-IsByte zero n = tt
to_be_bytes-IsByte (suc count) n =
    All-append IsByte (to_be_bytes count (n / 256)) (n % 256 ∷ [])
      (to_be_bytes-IsByte count (n / 256)) (omega arith, tt)

words_bytes-IsByte : (values : List ℕ) → All IsByte (words_bytes values)
unfolding words_bytes
words_bytes-IsByte [] = tt
words_bytes-IsByte (v ∷ vs) =
    All-append IsByte (to_be_bytes 4 v) (words_bytes vs) (to_be_bytes-IsByte 4 v)
      (words_bytes-IsByte vs)

length-words_bytes : (values : List ℕ) → length (words_bytes values) ≡ 4 * length values
unfolding words_bytes
length-words_bytes [] = refl
length-words_bytes (v ∷ vs) = omega (
  arith,
  length-append (to_be_bytes 4 v) (words_bytes vs),
  length-to_be_bytes 4 v,
  length-words_bytes vs,
)

hex_digit-IsHexDigit : (n : ℕ) → n < 16 → IsHexDigit (hex_digit n)
hex_digit-IsHexDigit n h = ground arith

hex-IsHexDigit : (s : Bytes) → All IsByte s → All IsHexDigit (hex s)
unfolding hex
hex-IsHexDigit [] h = tt
hex-IsHexDigit (b ∷ s) (k, h) = (
  hex_digit-IsHexDigit (b / 16) (omega (arith, k)),
  (hex_digit-IsHexDigit (b % 16) (omega arith), hex-IsHexDigit s h),
)

length-hex : (s : Bytes) → length (hex s) ≡ 2 * length s
unfolding hex
length-hex [] = refl
length-hex (b ∷ s) = omega (arith, length-hex s)

sha256-IsByte : (message : Bytes) → (length (sha256 message) ≡ 32) × All IsByte (sha256 message)
unfolding sha256
sha256-IsByte message =
    let values = hash_words (blocks (length (padded message)) (padded message) initial) in
    (length-words_bytes values, words_bytes-IsByte values)

-- A digest is `sha256:` and 64 hexadecimal digits in lower case, whatever was hashed.
pub digest-IsHexDigit :
    (payload : Bytes)
    → (length (digest payload) ≡ 71)
      × (take 7 (digest payload) ≡ codes "sha256:")
      × All IsHexDigit (drop 7 (digest payload))
unfolding digest
digest-IsHexDigit payload =
    let (size, bytes) = sha256-IsByte payload in
    (omega (arith, length-hex (sha256 payload), size), refl, hex-IsHexDigit (sha256 payload) bytes)
