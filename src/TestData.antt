-- ===== src/TestData.antt =====
-- gateway/crates/sentin-detect/src/testdata.rs: generators of identifiers with correct checksums.
-- A text of digits is modelled by the digits themselves; `to_string` adds b'0' to each.
pub mod RoundTrip
pub mod Pesel
use sentin_npu.Prelude.{
  ℕ, zero, suc, ◌+◌, ◌-◌, ◌*◌, ◌/◌, ◌%◌, Bool, true, false, not, List, [], ◌∷◌, ◌++◌, map, reverse,
  Option, none, some, ltb, ◌==◌, between, if◌then◌else◌, length, Bytes, is_ascii_digit,
  is_ascii_uppercase, to_ascii_uppercase,
}
use sentin_npu.Checksums.{weighted_sum, pesel_weights, nip_weights, weights_9, weights_14, luhn_sum}

-- The decimal digits of `n`; a fuel of `suc n` is enough, since each round divides by ten.
unfoldable pub decimal : ℕ → ℕ → List ℕ
decimal zero n = []
decimal (suc fuel) n =
    let front = decimal fuel (n / 10) in if ltb n 10 then n ∷ [] else front ++ n % 10 ∷ []

-- Zeros in front, up to a width.
unfoldable pub zeros : ℕ → List ℕ
zeros zero = []
zeros (suc n) = 0 ∷ zeros n

-- `format!("{:0width$}", n)`
unfoldable pub padded : ℕ → ℕ → List ℕ
unfolding decimal zeros
padded width n = let ds = decimal (suc n) n in zeros (width - length ds) ++ ds

-- What the century adds to the month.
unfoldable pub month_offset : ℕ → ℕ
month_offset year =
    if between 1800 1899 year
    then 80
    else if between 1900 1999 year
    then 0
    else if between 2000 2099 year
    then 20
    else if between 2100 2199 year
    then 40
    else 60

-- The ten digits in front of the check digit.
unfoldable pub pesel_base : ℕ → ℕ → ℕ → ℕ → List ℕ
unfolding padded month_offset
pesel_base year month day serial =
    padded 2 (year % 100)
    ++ (padded 2 (month + month_offset year) ++ (padded 2 day ++ padded 4 (serial % 10000)))

unfoldable pub pesel : ℕ → ℕ → ℕ → ℕ → List ℕ
unfolding pesel_base
pesel year month day serial =
    let digits = pesel_base year month day serial in
    digits ++ ((10 - weighted_sum pesel_weights digits % 10) % 10) ∷ []

unfoldable pub nip : List ℕ → Option (List ℕ)
nip base =
    let check = weighted_sum nip_weights base % 11 in
    if check == 10 then none else some (base ++ check ∷ [])

unfoldable pub regon9 : List ℕ → List ℕ
regon9 base = base ++ ((weighted_sum weights_9 base % 11) % 10) ∷ []

unfoldable pub regon14 : List ℕ → List ℕ
regon14 base = base ++ ((weighted_sum weights_14 base % 11) % 10) ∷ []

-- The filler loop of `card`, `rounds` digits long.
unfoldable pub filler : ℕ → ℕ → List ℕ
filler zero seed = []
filler (suc rounds) seed = let next = (seed * 3 + 1) % 10 in next ∷ filler rounds next

-- The check digit's sum doubles every other digit, the last one included.
unfoldable pub card : List ℕ → ℕ → List ℕ
unfolding filler luhn_sum
card prefix len =
    let digits = prefix ++ filler (len - 1 - length prefix) 7 in
    digits ++ ((10 - luhn_sum true (reverse digits) % 10) % 10) ∷ []

-- The closure `feed`: other bytes are passed over.
unfoldable pub feed : ℕ → ℕ → ℕ
unfolding is_ascii_digit is_ascii_uppercase
feed remainder byte =
    if is_ascii_digit byte
    then (remainder * 10 + (byte - b'0')) % 97
    else if is_ascii_uppercase byte
    then (remainder * 100 + (byte - b'A') + 10) % 97
    else remainder

unfoldable pub feed_all : Bytes → ℕ → ℕ
unfolding feed to_ascii_uppercase
feed_all [] remainder = remainder
feed_all (b ∷ s) remainder = feed_all s (feed remainder (to_ascii_uppercase b))

-- `iban`, as bytes.
unfoldable pub iban : Bytes → Bytes → Bytes
unfolding feed_all padded
iban country bban =
    let check = 98 - feed_all (bban ++ country) 0 * 100 % 97 in
    map to_ascii_uppercase country ++ (map (λ d. b'0' + d) (padded 2 check) ++ bban)
