-- ===== src/TestData/RoundTrip.antt =====
-- What the generators of testdata.rs build passes the checks of checksums.rs.
use mathlib.Core.List.{reverse-append}
use mathlib.Core.Option.{some-injective}
use sentin_npu.Prelude.{
  ℕ, zero, suc, ◌+◌, ◌-◌, ◌*◌, ◌%◌, ◌≤◌, ◌<◌, ◌≡◌, ◌↔◌, refl, ap, sym, ◌∙◌, true, false, List, [],
  ◌∷◌, ◌++◌, reverse, some, arith, length, get_or, take, length-append,
}
use sentin_npu.Checksums
use sentin_npu.Checksums.{weighted_sum, nip_weights, weights_9, weights_14, pesel_weights, luhn_sum}
use sentin_npu.TestData

weighted_sum-append :
    (ws ds rest : List ℕ)
    → length ws ≡ length ds
    → weighted_sum ws (ds ++ rest) ≡ weighted_sum ws ds
unfolding weighted_sum
weighted_sum-append [] ds rest h = refl
weighted_sum-append (w ∷ ws) [] rest h = absurd (omega arith)
weighted_sum-append (w ∷ ws) (d ∷ ds) rest h =
    omega (arith, weighted_sum-append ws ds rest (omega arith))

take-append : (ds rest : List ℕ) (n : ℕ) → n ≡ length ds → take n (ds ++ rest) ≡ ds
take-append [] rest n h = rw h
take-append (d ∷ ds) rest zero h = absurd (omega arith)
take-append (d ∷ ds) rest (suc n) h = ap (◌∷◌ d) (take-append ds rest n (omega arith))

get_or-append : (ds : List ℕ) (d n : ℕ) → n ≡ length ds → get_or (ds ++ d ∷ []) n 0 ≡ d
get_or-append [] d n h = rw h
get_or-append (x ∷ ds) d zero h = absurd (omega arith)
get_or-append (x ∷ ds) d (suc n) h = get_or-append ds d n (omega arith)

last_digit_eq : (base : List ℕ) (c d : ℕ) → base ++ c ∷ [] ≡ base ++ d ∷ [] → c ≡ d
last_digit_eq base c d h =
    sym (get_or-append base c (length base) refl)
    ∙ ap (λ ds. get_or ds (length base) 0) h
    ∙ get_or-append base d (length base) refl

last_digit-injective :
    (base : List ℕ) (c d : ℕ) → some (base ++ c ∷ []) ≡ some (base ++ d ∷ []) → c ≡ d
last_digit-injective base c d h = last_digit_eq base c d (some-injective _ _ h)

-- For nine base digits, `d` is the check digit of a valid NIP exactly when the generator appends
-- it.
pub nip_iff :
    (base : List ℕ) (d : ℕ)
    → length base ≡ 9
    → (Checksums.nip (base ++ d ∷ []) ≡ true) ↔ (TestData.nip base ≡ some (base ++ d ∷ []))
unfolding Checksums.nip TestData.nip
nip_iff base d h =
    let check = weighted_sum nip_weights base % 11 in
    (
      λ e.
          ground (
            arith,
            take-append base (d ∷ []) 9,
            get_or-append base d 9,
            length-append base (d ∷ []),
          ),
      λ e. ground (
        arith,
        take-append base (d ∷ []) 9,
        get_or-append base d 9,
        length-append base (d ∷ []),
        last_digit-injective base check d,
      ),
    )

-- For eight base digits, `d` is the check digit of a valid REGON exactly when the generator
-- appends it.
pub regon9_iff :
    (base : List ℕ) (d : ℕ)
    → length base ≡ 8
    → (Checksums.regon (base ++ d ∷ []) ≡ true) ↔ (TestData.regon9 base ≡ base ++ d ∷ [])
unfolding Checksums.regon TestData.regon9
regon9_iff base d h =
    let check = (weighted_sum weights_9 base % 11) % 10 in
    (
      λ e. ground (
        arith,
        weighted_sum-append weights_9 base (d ∷ []),
        get_or-append base d 8,
        length-append base (d ∷ []),
      ),
      λ e. ground (
        arith,
        weighted_sum-append weights_9 base (d ∷ []),
        get_or-append base d 8,
        length-append base (d ∷ []),
        last_digit_eq base check d,
      ),
    )

-- For thirteen base digits, `d` is the check digit of a valid long REGON exactly when the
-- generator appends it.
pub regon14_iff :
    (base : List ℕ) (d : ℕ)
    → length base ≡ 13
    → (Checksums.regon (base ++ d ∷ []) ≡ true) ↔ (TestData.regon14 base ≡ base ++ d ∷ [])
unfolding Checksums.regon TestData.regon14
regon14_iff base d h =
    let check = (weighted_sum weights_14 base % 11) % 10 in
    (
      λ e. ground (
        arith,
        weighted_sum-append weights_14 base (d ∷ []),
        get_or-append base d 13,
        length-append base (d ∷ []),
      ),
      λ e. ground (
        arith,
        weighted_sum-append weights_14 base (d ∷ []),
        get_or-append base d 13,
        length-append base (d ∷ []),
        last_digit_eq base check d,
      ),
    )

length-filler : (n seed : ℕ) → length (TestData.filler n seed) ≡ n
unfolding TestData.filler
length-filler zero seed = refl
length-filler (suc n) seed = ap suc (length-filler n ((seed * 3 + 1) % 10))

luhn_sum-check :
    (ds : List ℕ) (d : ℕ) → luhn_sum false (reverse (ds ++ d ∷ [])) ≡ d + luhn_sum true (reverse ds)
luhn_sum-check ds d = rw reverse-append (unfold luhn_sum in refl)

-- Any digits with the generator's check digit behind them pass the Luhn check.
luhn_check :
    (ds : List ℕ)
    → 11 ≤ length ds
    → Checksums.luhn (ds ++ ((10 - luhn_sum true (reverse ds) % 10) % 10) ∷ []) ≡ true
unfolding Checksums.luhn
luhn_check ds h =
    let c = (10 - luhn_sum true (reverse ds) % 10) % 10 in
    ground (arith, luhn_sum-check ds c, length-append ds (c ∷ []))

-- A card number generated for a length of at least 12 and a shorter prefix has that length and
-- passes the Luhn check.
pub luhn-card :
    (prefix : List ℕ) (len : ℕ)
    → 12 ≤ len
    → length prefix < len
    → (length (TestData.card prefix len) ≡ len) × (Checksums.luhn (TestData.card prefix len) ≡ true)
unfolding TestData.card
luhn-card prefix len h k =
    let tail = TestData.filler (len - 1 - length prefix) 7 in
    let ds = prefix ++ tail in
    let l = length-append prefix tail in
    let m = length-filler (len - 1 - length prefix) 7 in
    (
      omega (arith, l, m, length-append ds ((10 - luhn_sum true (reverse ds) % 10) % 10 ∷ [])),
      luhn_check ds (omega (arith, l, m)),
    )
