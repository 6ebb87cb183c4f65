-- ===== src/Checksums.antt =====
-- gateway/crates/sentin-detect/src/checksums.rs: the arithmetic behind a checksum finding. Digits
-- are numbers that the caller has extracted, `u8` values in the code; the sums are `u32` there, and
-- `Checksums.Bounds` is about their size.
pub mod Bounds
pub mod Substitution
pub mod Iban
use sentin_npu.Prelude.{
  ℕ, ◌+◌, ◌-◌, ◌*◌, ◌%◌, ◌<◌, Bool, true, false, ◌&&◌, ◌||◌, not, List, [], ◌∷◌, ◌++◌, reverse,
  Option, none, some, ltb, leb, ◌==◌, between, if◌then◌else◌, length, get_or, take, drop, all,
  Bytes, is_ascii_digit, is_ascii_uppercase,
}

-- `WEIGHTS.iter().zip(digits).map(|(w, d)| w * d).sum()`: the shorter list ends the sum.
unfoldable pub weighted_sum : List ℕ → List ℕ → ℕ
weighted_sum [] ds = 0
weighted_sum (w ∷ ws) [] = 0
weighted_sum (w ∷ ws) (d ∷ ds) = w * d + weighted_sum ws ds

abbrev pub pesel_weights : List ℕ
pesel_weights = 1 ∷ 3 ∷ 7 ∷ 9 ∷ 1 ∷ 3 ∷ 7 ∷ 9 ∷ 1 ∷ 3 ∷ []

abbrev pub nip_weights : List ℕ
nip_weights = 6 ∷ 5 ∷ 7 ∷ 2 ∷ 3 ∷ 4 ∷ 5 ∷ 6 ∷ 7 ∷ []

abbrev pub weights_9 : List ℕ
weights_9 = 8 ∷ 9 ∷ 2 ∷ 3 ∷ 4 ∷ 5 ∷ 6 ∷ 7 ∷ []

abbrev pub weights_14 : List ℕ
weights_14 = 2 ∷ 4 ∷ 8 ∷ 5 ∷ 0 ∷ 9 ∷ 7 ∷ 3 ∷ 6 ∷ 1 ∷ 2 ∷ 4 ∷ 8 ∷ []

unfoldable pub is_leap_year : ℕ → Bool
is_leap_year year = year % 4 == 0 && not (year % 100 == 0) || year % 400 == 0

unfoldable pub days_in_month : ℕ → ℕ → ℕ
unfolding is_leap_year
days_in_month year month =
    if month == 1
      || month == 3
      || month == 5
      || month == 7
      || month == 8
      || month == 10
      || month == 12
    then 31
    else if month == 4 || month == 6 || month == 9 || month == 11
    then 30
    else if month == 2 && is_leap_year year
    then 29
    else if month == 2
    then 28
    else 0

-- The century and the month that an encoded month stands for.
unfoldable pub century_month : ℕ → Option (ℕ × ℕ)
century_month encoded_month =
    if between 1 12 encoded_month
    then some (1900, encoded_month)
    else if between 21 32 encoded_month
    then some (2000, encoded_month - 20)
    else if between 41 52 encoded_month
    then some (2100, encoded_month - 40)
    else if between 61 72 encoded_month
    then some (2200, encoded_month - 60)
    else if between 81 92 encoded_month
    then some (1800, encoded_month - 80)
    else none

-- The closure `two`: the caller has checked that the list has eleven digits.
unfoldable pub two : List ℕ → ℕ → ℕ
two digits i = get_or digits i 0 * 10 + get_or digits (i + 1) 0

unfoldable pub pesel_date_is_valid : List ℕ → Bool
unfolding two
pesel_date_is_valid digits =
    let year_in_century = two digits 0 in
    let encoded_month = two digits 2 in
    let day = two digits 4 in
    elim (century_month encoded_month) [
      | none ↦ false
      | some (century, month) ↦
          leb 1 day && leb day (days_in_month (century + year_in_century) month)
    ]

unfoldable pub pesel : List ℕ → Bool
unfolding weighted_sum
pesel digits =
    if not (length digits == 11)
    then false
    else if not ((10 - weighted_sum pesel_weights (take 10 digits) % 10) % 10 == get_or digits 10 0)
    then false
    else pesel_date_is_valid digits

unfoldable pub nip : List ℕ → Bool
unfolding weighted_sum
nip digits =
    if not (length digits == 10)
    then false
    else let check = weighted_sum nip_weights (take 9 digits) % 11 in
      not (check == 10) && check == get_or digits 9 0

-- The weights for the length of the number.
unfoldable pub regon_weights : ℕ → Option (List ℕ)
regon_weights n = if n == 9 then some weights_9 else if n == 14 then some weights_14 else none

unfoldable pub regon : List ℕ → Bool
unfolding weighted_sum regon_weights
regon digits = elim (regon_weights (length digits)) [
  | none ↦ false
  | some weights ↦ (weighted_sum weights digits % 11) % 10 == get_or digits (length digits - 1) 0
]

-- What one digit adds to the Luhn sum; the flag says that its index from the right is odd.
unfoldable pub luhn_value : Bool → ℕ → ℕ
luhn_value false digit = digit
luhn_value true digit = let value = digit * 2 in if ltb 9 value then value - 9 else value

-- The loop over the reversed digits; the flag is `index % 2 == 1`.
unfoldable pub luhn_sum : Bool → List ℕ → ℕ
unfolding luhn_value
luhn_sum odd [] = 0
luhn_sum odd (d ∷ ds) = luhn_value odd d + luhn_sum (not odd) ds

unfoldable pub luhn : List ℕ → Bool
unfolding luhn_sum
luhn digits = if ltb (length digits) 12 then false else luhn_sum false (reverse digits) % 10 == 0

-- One round of the remainder loop: a digit shifts by ten, a letter by a hundred.
unfoldable pub iban_step : ℕ → ℕ → Option ℕ
unfolding is_ascii_digit is_ascii_uppercase
iban_step remainder byte =
    if is_ascii_digit byte
    then some ((remainder * 10 + (byte - b'0')) % 97)
    else if is_ascii_uppercase byte
    then some ((remainder * 100 + (byte - b'A' + 10)) % 97)
    else none

unfoldable pub iban_remainder : Bytes → ℕ → Option ℕ
iban_remainder [] remainder = some remainder
iban_remainder (byte ∷ rest) remainder = elim (iban_step remainder byte) [
  | none ↦ none
  | some r ↦ iban_remainder rest r
]

unfoldable pub iban : Bytes → Bool
unfolding iban_remainder
iban chars =
    if not (between 15 34 (length chars))
    then false
    else if not (all is_ascii_uppercase (take 2 chars))
        || not (all is_ascii_digit (take 2 (drop 2 chars)))
    then false
    else elim (iban_remainder (drop 4 chars ++ take 4 chars) 0) [
      | none ↦ false
      | some remainder ↦ remainder == 1
    ]
