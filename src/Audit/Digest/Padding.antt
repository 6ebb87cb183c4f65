-- ===== src/Audit/Digest/Padding.antt =====
-- The padding of SHA-256: whole blocks, and no two messages become the same.
use native.Mathlib.Nat.{pow-suc}
use sentin_npu.Audit.Digest.{to_be_bytes, pad_zeros, padded}
use sentin_npu.Prelude.{
  ℕ, zero, suc, ◌+◌, ◌-◌, ◌*◌, ◌/◌, ◌%◌, ◌^◌, ◌≤◌, ◌<◌, ◌≡◌, refl, sym, ap, ◌∙◌, inl, inr, ◌⊎◌,
  false, List, [], append-nil, get_or, ◌∷◌, ◌++◌, append_assoc, ◌==◌, length, length-append, take,
  drop, arith, Bytes, Bool-cases, ==_iff,
}

pub length-to_be_bytes : (count n : ℕ) → length (to_be_bytes count n) ≡ count
unfolding to_be_bytes
length-to_be_bytes zero n = refl
length-to_be_bytes (suc count) n = omega (
  arith,
  length-append (to_be_bytes count (n / 256)) (n % 256 ∷ []),
  length-to_be_bytes count (n / 256),
)

-- The loop is done within its rounds.
length-pad_zeros :
    (fuel : ℕ) (s : Bytes) → (120 - length s % 64) % 64 ≤ fuel → length (pad_zeros fuel s) % 64 ≡ 56
unfolding pad_zeros
length-pad_zeros zero s h = omega (arith, h)
length-pad_zeros (suc fuel) s h = elim (Bool-cases (length s % 64 == 56)) [
  | inl done ↦ rw done ((==_iff (length s % 64) 56).0 done)
  | inr more ↦ rw more (
      length-pad_zeros fuel (s ++ (0 ∷ []))
        (one_less (length s) (length (s ++ (0 ∷ []))) fuel (length-append s (0 ∷ [])) more h))
]
  where
    ne : (n : ℕ) → (n % 64 == 56) ≡ false → (n % 64 < 56) ⊎ (56 < n % 64)
    ne n d = ground arith

    one_less :
        (n m fuel : ℕ)
        → m ≡ n + 1
        → (n % 64 == 56) ≡ false
        → (120 - n % 64) % 64 ≤ suc fuel
        → (120 - m % 64) % 64 ≤ fuel
    one_less n m fuel e d h = omega (arith, e, h, ne n d)

-- Zeros are put behind.
pad_zeros-append : (fuel : ℕ) (s : Bytes) → (zs : Bytes) × (pad_zeros fuel s ≡ s ++ zs)
unfolding pad_zeros
pad_zeros-append zero s = ([], sym (append-nil s))
pad_zeros-append (suc fuel) s = elim (Bool-cases (length s % 64 == 56)) [
  | inl done ↦ rw done ([], sym (append-nil s))
  | inr more ↦
      let (zs, e) = pad_zeros-append fuel (s ++ (0 ∷ [])) in
      rw more (0 ∷ zs, e ∙ append_assoc s (0 ∷ []) zs)
]

take-length {ℓ} : {A : Type ℓ} (xs ys : List A) → take (length xs) (xs ++ ys) ≡ xs
take-length [] ys = refl
take-length (x ∷ xs) ys = ap (◌∷◌ x) (take-length xs ys)

drop-length {ℓ} : {A : Type ℓ} (xs ys : List A) → drop (length xs) (xs ++ ys) ≡ ys
drop-length [] ys = refl
drop-length (x ∷ xs) ys = drop-length xs ys

parts {ℓ} :
    {A : Type ℓ} (xs ys us vs : List A)
    → xs ++ us ≡ ys ++ vs
    → length us ≡ length vs
    → (xs ≡ ys) × (us ≡ vs)
parts xs ys us vs e h =
    let same : length xs ≡ length ys =
      omega (arith, ap length e, length-append xs us, length-append ys vs, h) in
    (
      sym (take-length xs us)
          ∙ ap (take (length xs)) e
          ∙ ap (λ n. take n (ys ++ vs)) same
          ∙ take-length ys vs,
      sym (drop-length xs us)
          ∙ ap (drop (length xs)) e
          ∙ ap (λ n. drop n (ys ++ vs)) same
          ∙ drop-length ys vs,
    )

-- Two numbers that fit and have the same bytes are the same.
to_be_bytes-inj :
    (count m n : ℕ)
    → m < 256 ^ count
    → n < 256 ^ count
    → to_be_bytes count m ≡ to_be_bytes count n
    → m ≡ n
unfolding to_be_bytes
to_be_bytes-inj zero m n hm hn e = omega arith
to_be_bytes-inj (suc count) m n hm hn e =
    let (front, last) =
      parts (to_be_bytes count (m / 256)) (to_be_bytes count (n / 256)) _ _ e refl in
    let high =
      to_be_bytes-inj count (m / 256) (n / 256) (omega (arith, hm, pow-suc 256 count))
        (omega (arith, hn, pow-suc 256 count)) front in
    omega (arith, high, ap (λ s. get_or s 0 0) last)

-- Padding makes whole blocks of 64 bytes, and begins with the message.
padded-blocks :
    (message : Bytes)
    → (length (padded message) % 64 ≡ 0) × (take (length message) (padded message) ≡ message)
unfolding padded
padded-blocks message =
    let front = pad_zeros 63 (message ++ (0x80 ∷ [])) in
    let (zs, e) = pad_zeros-append 63 (message ++ (0x80 ∷ [])) in
    (
      omega (
        arith,
        length-append front (to_be_bytes 8 (length message * 8)),
        length-to_be_bytes 8 (length message * 8),
        length-pad_zeros 63 (message ++ (0x80 ∷ [])) (omega arith),
      ),
      ap (λ s. take (length message) (s ++ to_be_bytes 8 (length message * 8))) e
          ∙ ap (take (length message))
              (append_assoc (message ++ (0x80 ∷ [])) zs _ ∙ append_assoc message (0x80 ∷ []) _)
          ∙ take-length message _,
    )

-- Padding a message makes whole blocks of 64 bytes, and two messages below 2^61 bytes that are padded to
-- the same are the same.
pub padded-injective :
    (m n : Bytes)
    → length m < 2 ^ 61
    → length n < 2 ^ 61
    → padded m ≡ padded n
    → (length (padded m) % 64 ≡ 0) × (m ≡ n)
unfolding padded
padded-injective m n hm hn e =
    let (blocks, whole) = padded-blocks m in
    let (other_blocks, other) = padded-blocks n in
    let (front, last) =
      parts (pad_zeros 63 (m ++ (0x80 ∷ []))) (pad_zeros 63 (n ++ (0x80 ∷ [])))
        (to_be_bytes 8 (length m * 8)) (to_be_bytes 8 (length n * 8)) e
        (length-to_be_bytes 8 (length m * 8) ∙ sym (length-to_be_bytes 8 (length n * 8))) in
    let bits =
      to_be_bytes-inj 8 (length m * 8) (length n * 8) (omega (arith, hm)) (omega (arith, hn))
        last in
    let same : length m ≡ length n = omega (arith, bits) in
    (blocks, sym whole ∙ ap (take (length m)) e ∙ ap (λ k. take k (padded n)) same ∙ other)
