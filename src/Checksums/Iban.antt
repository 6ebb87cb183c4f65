-- ===== src/Checksums/Iban.antt =====
-- The incremental remainder of `iban` against the number that ISO 13616 describes.
use mathlib.Core.Option
use sentin_npu.Prelude.{
  ℕ, ◌+◌, ◌-◌, ◌*◌, ◌%◌, ◌≤◌, ◌≡◌, ◌↔◌, refl, true, [], ◌∷◌, ◌++◌, Option, none, some, arith, all,
  take, drop, length, if◌then◌else◌, Bytes, is_ascii_digit, is_ascii_uppercase,
}
use sentin_npu.Checksums.{iban_step, iban_remainder, iban}

-- The number that the characters write behind `n`, a letter as two digits; `none` when a
-- character is neither a digit nor a capital letter.
pub iban_number : Bytes → ℕ → Option ℕ
iban_number [] n = some n
iban_number (b ∷ s) n =
    let digit = iban_number s (n * 10 + (b - b'0')) in
    let letter = iban_number s (n * 100 + (b - b'A' + 10)) in
    if is_ascii_digit b then digit else if is_ascii_uppercase b then letter else none

shift_mod : (n x : ℕ) → (n % 97 * 10 + x) % 97 ≡ (n * 10 + x) % 97
shift_mod n x = omega arith

shift_mod_100 : (n x : ℕ) → (n % 97 * 100 + x) % 97 ≡ (n * 100 + x) % 97
shift_mod_100 n x = omega arith

-- Taking the remainder in every round gives the remainder of the whole number.
iban_remainder-mod :
    (s : Bytes) (n : ℕ) → iban_remainder s (n % 97) ≡ Option.map (λ m. m % 97) (iban_number s n)
unfolding iban_remainder iban_number iban_step Option.map
iban_remainder-mod [] n = refl
iban_remainder-mod (b ∷ s) n = ground (
  arith,
  shift_mod n (b - b'0'),
  shift_mod_100 n (b - b'A' + 10),
  iban_remainder-mod s (n * 10 + (b - b'0')),
  iban_remainder-mod s (n * 100 + (b - b'A' + 10)),
)

-- `iban` accepts exactly the texts of 15 to 34 characters that begin with two capital letters and
-- two digits and whose number, the first four characters moved to the end, is 1 modulo 97.
pub iban_iff :
    (s : Bytes)
    → (iban s ≡ true) ↔ (
        (15 ≤ length s)
        × (length s ≤ 34)
        × (all is_ascii_uppercase (take 2 s) ≡ true)
        × (all is_ascii_digit (take 2 (drop 2 s)) ≡ true)
        × (Option.map (λ m. m % 97) (iban_number (drop 4 s ++ take 4 s) 0) ≡ some 1))
unfolding iban
iban_iff s = (
  λ h. ground (arith, iban_remainder-mod (drop 4 s ++ take 4 s) 0),
  λ h. ground (arith, iban_remainder-mod (drop 4 s ++ take 4 s) 0),
)
