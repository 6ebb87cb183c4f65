-- ===== src/Checksums/Substitution.antt =====
-- What the check digits of checksums.rs catch: any single wrong digit of a PESEL, a NIP or a card
-- number.
use mathlib.Core.List.{reverse-append}
use sentin_npu.Prelude.{
  ℕ, zero, suc, ◌+◌, ◌-◌, ◌*◌, ◌%◌, ◌≤◌, ◌<◌, ◌≡◌, ◌≢◌, refl, ap, Bool, true, false, ◌||◌, not,
  List, [], ◌∷◌, ◌++◌, reverse, arith, all, length, get_or, take, ◌==◌, append_assoc, ◌∙◌, inl, inr,
  Bool-cases,
}
use sentin_npu.Checksums.{
  weighted_sum, pesel_weights, nip_weights, pesel, nip, luhn_value, luhn_sum, luhn,
}

module _ (pre post : List ℕ) where
  -- The number with `d` in the place between `pre` and `post`.
  abbrev pub put : ℕ → List ℕ
  put d = pre ++ d ∷ post

length-put : (pre post : List ℕ) (a b : ℕ) → length (put pre post a) ≡ length (put pre post b)
length-put [] post a b = refl
length-put (x ∷ pre) post a b = ap suc (length-put pre post a b)

length-put_lt : (pre post : List ℕ) (a : ℕ) → length pre < length (put pre post a)
length-put_lt [] post a = omega arith
length-put_lt (x ∷ pre) post a = omega (arith, length-put_lt pre post a)

get_or-put_self : (pre post : List ℕ) (a d : ℕ) → get_or (put pre post a) (length pre) d ≡ a
get_or-put_self [] post a d = refl
get_or-put_self (x ∷ pre) post a d = get_or-put_self pre post a d

get_or-put_ne :
    (pre post : List ℕ) (i a b d : ℕ)
    → i ≢ length pre
    → get_or (put pre post a) i d ≡ get_or (put pre post b) i d
get_or-put_ne [] post zero a b d h = absurd (h refl)
get_or-put_ne [] post (suc i) a b d h = refl
get_or-put_ne (x ∷ pre) post zero a b d h = refl
get_or-put_ne (x ∷ pre) post (suc i) a b d h = get_or-put_ne pre post i a b d (λ e. h (ap suc e))

weighted_sum-take : (ws ds : List ℕ) → weighted_sum ws (take (length ws) ds) ≡ weighted_sum ws ds
unfolding weighted_sum
weighted_sum-take [] ds = refl
weighted_sum-take (w ∷ ws) [] = refl
weighted_sum-take (w ∷ ws) (d ∷ ds) = ap (λ s. w * d + s) (weighted_sum-take ws ds)

-- The digit in the open place adds its weight's multiple.
weighted_sum-put :
    (ws pre post : List ℕ) (a : ℕ)
    → weighted_sum ws (put pre post a)
      ≡ weighted_sum ws (put pre post 0) + get_or ws (length pre) 0 * a
unfolding weighted_sum
weighted_sum-put [] pre post a = omega arith
weighted_sum-put (w ∷ ws) [] post a = omega arith
weighted_sum-put (w ∷ ws) (x ∷ pre) post a = omega (arith, weighted_sum-put ws pre post a)

-- The numbers below a bound, where a table of tests is gone through.
below : ℕ → List ℕ
below zero = []
below (suc n) = n ∷ below n

all-below : {n x : ℕ} (test : ℕ → Bool) → x < n → all test (below n) ≡ true → test x ≡ true
unfolding below
all-below {n = zero} {x = x} test inside table = absurd (omega arith)
all-below {n = suc n} {x = x} test inside table = ground (arith, all-below {n = n} {x = x} test)

-- For the weight in place `i`, two digits with the same multiple modulo `m` are one digit.
separates : ℕ → ℕ → ℕ → ℕ → Bool
separates m w a b = not ((w * a) % m == (w * b) % m) || a == b

weight_separates : ℕ → List ℕ → ℕ → Bool
weight_separates m ws i =
    all (λ a. all (λ b. separates m (get_or ws i 0) a b) (below 10)) (below 10)

weight_separates_sound :
    (m : ℕ) (ws : List ℕ) (n i a b : ℕ)
    → all (weight_separates m ws) (below n) ≡ true
    → i < n
    → a ≤ 9
    → b ≤ 9
    → a ≢ b
    → (get_or ws i 0 * a) % m ≢ (get_or ws i 0 * b) % m
unfolding weight_separates separates
weight_separates_sound m ws n i a b table hi ha hb ne e =
    let row = all-below {n = n} {x = i} (weight_separates m ws) hi table in
    let cell =
      all-below {n = 10} {x = b} _ (omega arith) (all-below {n = 10} {x = a} _ (omega arith) row) in
    ground arith

nip_table : all (weight_separates 11 nip_weights) (below 9) ≡ true
unfolding below weight_separates separates
nip_table = refl

pesel_table : all (weight_separates 10 pesel_weights) (below 10) ≡ true
unfolding below weight_separates separates
pesel_table = refl

sum_mod_11 : (S x y : ℕ) → (S + x) % 11 ≡ (S + y) % 11 → x % 11 ≡ y % 11
sum_mod_11 S x y h = omega arith

sum_mod_10 : (S x y : ℕ) → (S + x) % 10 ≡ (S + y) % 10 → x % 10 ≡ y % 10
sum_mod_10 S x y h = omega arith

-- The digit after the weighted ones has no weight.
get_or-nip_weights : (i : ℕ) → i ≡ 9 → get_or nip_weights i 0 ≡ 0
get_or-nip_weights i e = rw e

get_or-pesel_weights : (i : ℕ) → i ≡ 10 → get_or pesel_weights i 0 ≡ 0
get_or-pesel_weights i e = rw e

-- What an accepted NIP satisfies.
nip_parts :
    (ds : List ℕ)
    → nip ds ≡ true
    → (length ds ≡ 10) × (weighted_sum nip_weights ds % 11 ≡ get_or ds 9 0)
unfolding nip
nip_parts ds h = ground (arith, weighted_sum-take nip_weights ds)

module _ (pre post : List ℕ) (a b : ℕ) (ha : a ≤ 9) (hb : b ≤ 9) (ne : a ≢ b) where
  nip_clash : nip (put pre post a) ≡ true → nip (put pre post b) ≡ true → ⊥
  nip_clash h k =
      let p = nip_parts (put pre post a) h in
      let q = nip_parts (put pre post b) k in
      let u = weighted_sum-put nip_weights pre post a in
      let v = weighted_sum-put nip_weights pre post b in
      elim (Bool-cases (length pre == 9)) [
        | inl last ↦ ground (
          arith,
          get_or-nip_weights (length pre),
          get_or-put_self pre post a 0,
          get_or-put_self pre post b 0,
          p,
          q,
          u,
          v,
        )
        | inr before ↦ ground (
          arith,
          get_or-put_ne pre post 9 a b 0,
          length-put_lt pre post a,
          sum_mod_11 (weighted_sum nip_weights (put pre post 0))
              (get_or nip_weights (length pre) 0 * a) (get_or nip_weights (length pre) 0 * b),
          weight_separates_sound 11 nip_weights 9 (length pre) a b nip_table,
          p,
          q,
          u,
          v,
        )
      ]

-- A valid NIP in which one digit is replaced by another is no valid NIP.
pub nip-put :
    (pre post : List ℕ) (a b : ℕ)
    → a ≤ 9
    → b ≤ 9
    → a ≢ b
    → nip (put pre post a) ≡ true
    → nip (put pre post b) ≡ false
nip-put pre post a b ha hb ne h = elim (Bool-cases (nip (put pre post b))) [
  | inl k ↦ absurd (nip_clash pre post a b ha hb ne h k)
  | inr k ↦ k
]

-- What an accepted PESEL satisfies, its date left aside.
pesel_parts :
    (ds : List ℕ)
    → pesel ds ≡ true
    → (length ds ≡ 11) × ((10 - weighted_sum pesel_weights ds % 10) % 10 ≡ get_or ds 10 0)
unfolding pesel
pesel_parts ds h = ground (arith, weighted_sum-take pesel_weights ds)

complement_mod_10 : (x y : ℕ) → (10 - x % 10) % 10 ≡ (10 - y % 10) % 10 → x % 10 ≡ y % 10
complement_mod_10 x y h = omega arith

module _ (pre post : List ℕ) (a b : ℕ) (ha : a ≤ 9) (hb : b ≤ 9) (ne : a ≢ b) where
  pesel_clash : pesel (put pre post a) ≡ true → pesel (put pre post b) ≡ true → ⊥
  pesel_clash h k =
      let p = pesel_parts (put pre post a) h in
      let q = pesel_parts (put pre post b) k in
      let u = weighted_sum-put pesel_weights pre post a in
      let v = weighted_sum-put pesel_weights pre post b in
      let w = get_or pesel_weights (length pre) 0 in
      let rest = weighted_sum pesel_weights (put pre post 0) in
      elim (Bool-cases (length pre == 10)) [
        | inl last ↦ ground (
          arith,
          get_or-pesel_weights (length pre),
          get_or-put_self pre post a 0,
          get_or-put_self pre post b 0,
          p,
          q,
          u,
          v,
        )
        | inr before ↦ ground (
          arith,
          get_or-put_ne pre post 10 a b 0,
          length-put_lt pre post a,
          complement_mod_10 (rest + w * a) (rest + w * b),
          sum_mod_10 rest (w * a) (w * b),
          weight_separates_sound 10 pesel_weights 10 (length pre) a b pesel_table,
          p,
          q,
          u,
          v,
        )
      ]

-- A valid PESEL in which one digit is replaced by another is no valid PESEL.
pub pesel-put :
    (pre post : List ℕ) (a b : ℕ)
    → a ≤ 9
    → b ≤ 9
    → a ≢ b
    → pesel (put pre post a) ≡ true
    → pesel (put pre post b) ≡ false
pesel-put pre post a b ha hb ne h = elim (Bool-cases (pesel (put pre post b))) [
  | inl k ↦ absurd (pesel_clash pre post a b ha hb ne h k)
  | inr k ↦ k
]

-- The flag that the Luhn loop holds behind these digits.
flag_after : Bool → List ℕ → Bool
flag_after odd [] = odd
flag_after odd (d ∷ ds) = flag_after (not odd) ds

luhn_sum-put :
    (odd : Bool) (pre post : List ℕ) (a : ℕ)
    → luhn_sum odd (put pre post a)
      ≡ luhn_sum odd (put pre post 0) + luhn_value (flag_after odd pre) a
unfolding luhn_sum flag_after luhn_value
luhn_sum-put true [] post a = omega arith
luhn_sum-put false [] post a = omega arith
luhn_sum-put odd (x ∷ pre) post a = omega (arith, luhn_sum-put (not odd) pre post a)

luhn_separates : Bool → ℕ → ℕ → Bool
luhn_separates odd a b = not (luhn_value odd a % 10 == luhn_value odd b % 10) || a == b

luhn_table :
    (odd : Bool) → all (λ a. all (λ b. luhn_separates odd a b) (below 10)) (below 10) ≡ true
unfolding below luhn_separates luhn_value
luhn_table true = refl
luhn_table false = refl

luhn_value_ne :
    (odd : Bool) (a b : ℕ) → a ≤ 9 → b ≤ 9 → a ≢ b → luhn_value odd a % 10 ≢ luhn_value odd b % 10
unfolding luhn_separates
luhn_value_ne odd a b ha hb ne e =
    let row = all-below {n = 10} {x = a} _ (omega arith) (luhn_table odd) in
    let cell = all-below {n = 10} {x = b} _ (omega arith) row in ground arith

reverse-put :
    (pre post : List ℕ) (a : ℕ) → reverse (put pre post a) ≡ put (reverse post) (reverse pre) a
reverse-put pre post a =
    reverse-append pre (a ∷ post)
    ∙ ap (λ s. s ++ reverse pre) (reverse-append (a ∷ []) post)
    ∙ append_assoc (reverse post) (a ∷ []) (reverse pre)

-- A card number that passes the Luhn check fails it with one digit replaced by another.
pub luhn-put :
    (pre post : List ℕ) (a b : ℕ)
    → a ≤ 9
    → b ≤ 9
    → a ≢ b
    → luhn (put pre post a) ≡ true
    → luhn (put pre post b) ≡ false
unfolding luhn
luhn-put pre post a b ha hb ne h =
    let odd = flag_after false (reverse post) in
    let rest = luhn_sum false (put (reverse post) (reverse pre) 0) in
    ground (
      arith,
      reverse-put pre post a,
      reverse-put pre post b,
      length-put pre post a b,
      luhn_sum-put false (reverse post) (reverse pre) a,
      luhn_sum-put false (reverse post) (reverse pre) b,
      luhn_value_ne odd a b ha hb ne,
      sum_mod_10 rest (luhn_value odd a) (luhn_value odd b),
    )
