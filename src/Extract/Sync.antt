-- ===== src/Extract/Sync.antt =====
-- Lemmas on lossy decoding around ASCII bytes, for Runs.
use sentin_npu.Extract.Utf8.{
  trailing, trail, trail_of, char_at, char_or_replacement, lossy, from_utf8_lossy,
}
use sentin_npu.Prelude.{
  ℕ, zero, suc, ◌≤◌, ◌<◌, ◌≡◌, refl, ap, ◌∙◌, inl, inr, Bool, true, false, ltb, lt→ltb, ◌==◌, List,
  [], ◌∷◌, ◌++◌, Option, none, some, between, append_assoc, length, length-append, length-drop,
  take, drop, All, arith, Bytes, Bool-cases,
}

-- Ranges of continuation bytes.
abbrev IsContinuation : ℕ × ℕ → Type 0
IsContinuation r = 128 ≤ r.0

abbrev IsTrailing : Option (List (ℕ × ℕ)) → Type 0
IsTrailing none = Unit
IsTrailing (some rs) = All IsContinuation rs

usual : 128 ≤ 128
usual = omega arith

trailing-IsTrailing : (b : ℕ) → IsTrailing (trailing b)
unfolding trailing
trailing-IsTrailing b = elim (Bool-cases (ltb b 128)) [
  | inl e ↦ rw e tt
  | inr e ↦ rw e (elim (Bool-cases (between 194 223 b)) [
    | inl e ↦ rw e (usual, tt)
    | inr e ↦ rw e (elim (Bool-cases (b == 224)) [
      | inl e ↦ rw e (omega arith, (usual, tt))
      | inr e ↦ rw e (elim (Bool-cases (b == 237)) [
        | inl e ↦ rw e (usual, (usual, tt))
        | inr e ↦ rw e (elim (Bool-cases (between 225 239 b)) [
          | inl e ↦ rw e (usual, (usual, tt))
          | inr e ↦ rw e (elim (Bool-cases (b == 240)) [
            | inl e ↦ rw e (omega arith, (usual, (usual, tt)))
            | inr e ↦ rw e (elim (Bool-cases (between 241 243 b)) [
              | inl e ↦ rw e (usual, (usual, (usual, tt)))
              | inr e ↦ rw e (elim (Bool-cases (b == 244)) [
                | inl e ↦ rw e (usual, (usual, (usual, tt)))
                | inr e ↦ rw e (tt)
              ])
            ])
          ])
        ])
      ])
    ])
  ])
]

between-ascii : (lo hi b : ℕ) → 128 ≤ lo → b < 128 → between lo hi b ≡ false
between-ascii lo hi b h k = ground arith

trail-append :
    (rs : List (ℕ × ℕ)) (s : Bytes) (b : ℕ) (t : Bytes)
    → All IsContinuation rs
    → b < 128
    → trail rs (s ++ (b ∷ t)) ≡ trail rs s
unfolding trail
trail-append [] s b t h k = refl
trail-append ((lo, hi) ∷ rs) [] b t (c, h) k = rw (between-ascii lo hi b c k) refl
trail-append ((lo, hi) ∷ rs) (x ∷ s) b t (c, h) k = rw (trail-append rs s b t h k) refl

trail-le : (rs : List (ℕ × ℕ)) (s : Bytes) → (trail rs s).1 ≤ length s
unfolding trail
trail-le [] s = omega arith
trail-le (r ∷ rs) [] = omega arith
trail-le ((lo, hi) ∷ rs) (x ∷ s) = elim (Bool-cases (between lo hi x)) [
  | inl i ↦ rw i (omega (arith, trail-le rs s))
  | inr o ↦ rw o (omega arith)
]

char_at-append :
    (a : ℕ) (s : Bytes) (b : ℕ) (t : Bytes) → b < 128 → char_at a (s ++ (b ∷ t)) ≡ char_at a s
unfolding char_at
char_at-append a s b t k = by_cases (trailing a) (trailing-IsTrailing a)
  where
    by_cases : (o : Option (List (ℕ × ℕ))) → IsTrailing o → trail_of o (s ++ (b ∷ t)) ≡ trail_of o s
    by_cases none h = refl
    by_cases (some rs) h = trail-append rs s b t h k

char_at-le : (a : ℕ) (s : Bytes) → (char_at a s).1 ≤ length s
unfolding char_at
char_at-le a s = by_cases (trailing a)
  where
    by_cases : (o : Option (List (ℕ × ℕ))) → (trail_of o s).1 ≤ length s
    by_cases none = omega arith
    by_cases (some rs) = trail-le rs s

take-append {ℓ} :
    {A : Type ℓ} (n : ℕ) (xs ys : List A) → n ≤ length xs → take n (xs ++ ys) ≡ take n xs
take-append zero xs ys h = refl
take-append (suc n) [] ys h = absurd (ground arith)
take-append (suc n) (x ∷ xs) ys h = ap (◌∷◌ x) (take-append n xs ys (omega (arith, h)))

pub drop-append {ℓ} :
    {A : Type ℓ} (n : ℕ) (xs ys : List A) → n ≤ length xs → drop n (xs ++ ys) ≡ drop n xs ++ ys
drop-append zero xs ys h = refl
drop-append (suc n) [] ys h = absurd (ground arith)
drop-append (suc n) (x ∷ xs) ys h = drop-append n xs ys (omega (arith, h))

char_or_replacement-append :
    (a : ℕ) (s t : Bytes) (c : Bool × ℕ)
    → c.1 ≤ length s
    → char_or_replacement a (s ++ t) c ≡ char_or_replacement a s c
char_or_replacement-append a s t (true, n) h = ap (◌∷◌ a) (take-append n s t h)
char_or_replacement-append a s t (false, n) h = refl

-- More rounds than bytes make no difference.
lossy-length : (n : ℕ) (s : Bytes) → length s ≤ n → lossy n s ≡ lossy (length s) s
unfolding lossy
lossy-length n s h = go n (length s) s h (omega arith)
  where
    go : (n m : ℕ) (s : Bytes) → length s ≤ n → length s ≤ m → lossy n s ≡ lossy m s
    go zero zero s h k = refl
    go zero (suc m) [] h k = refl
    go zero (suc m) (b ∷ s) h k = absurd (ground arith)
    go (suc n) zero [] h k = refl
    go (suc n) zero (b ∷ s) h k = absurd (ground arith)
    go (suc n) (suc m) [] h k = refl
    go (suc n) (suc m) (b ∷ s) h k = ap (◌++◌ (char_or_replacement b s (char_at b s))) (
        go n m (drop (char_at b s).1 s) (omega (arith, length-drop (char_at b s).1 s, h))
          (omega (arith, length-drop (char_at b s).1 s, k)))

char_at-ascii : (b : ℕ) (s : Bytes) → b < 128 → char_at b s ≡ (true, 0)
unfolding char_at trailing trail
char_at-ascii b s h = rw (lt→ltb b 128 h) refl

lossy-append :
    (n : ℕ) (s : Bytes) (b : ℕ) (t : Bytes)
    → b < 128
    → length (s ++ (b ∷ t)) ≤ n
    → lossy n (s ++ (b ∷ t)) ≡ lossy n s ++ (b ∷ lossy (length t) t)
unfolding lossy
lossy-append zero [] b t k h = absurd (ground arith)
lossy-append zero (a ∷ s) b t k h = absurd (ground arith)
lossy-append (suc n) [] b t k h =
    rw (char_at-ascii b t k) (ap (◌∷◌ b) (lossy-length n t (omega (arith, h))))
lossy-append (suc n) (a ∷ s) b t k h =
    rw
      (
        char_at-append a s b t k,
        drop-append (char_at a s).1 s (b ∷ t) (char_at-le a s),
        char_or_replacement-append a s (b ∷ t) (char_at a s) (char_at-le a s),
        append_assoc (char_or_replacement a s (char_at a s)) (lossy n (drop (char_at a s).1 s))
            (b ∷ lossy (length t) t),
      )
      (ap (◌++◌ (char_or_replacement a s (char_at a s))) (
        lossy-append n (drop (char_at a s).1 s) b t k (
          omega (
            arith,
            h,
            length-append s (b ∷ t),
            length-append (drop (char_at a s).1 s) (b ∷ t),
            length-drop (char_at a s).1 s,
          ))))

-- A text is cut at an ASCII byte: what is before it and what is behind it are decoded as if they stood
-- alone, and the byte itself comes out as it is.
from_utf8_lossy-append :
    (s : Bytes) (b : ℕ) (t : Bytes)
    → b < 128
    → from_utf8_lossy (s ++ (b ∷ t)) ≡ from_utf8_lossy s ++ (b ∷ from_utf8_lossy t)
unfolding from_utf8_lossy
from_utf8_lossy-append s b t k =
    lossy-append (length (s ++ (b ∷ t))) s b t k (omega arith)
    ∙ ap (λ x. x ++ (b ∷ lossy (length t) t))
        (lossy-length (length (s ++ (b ∷ t))) s (omega (arith, length-append s (b ∷ t))))

-- An ASCII run in a text comes out whole and unchanged, whatever bytes stand on its two sides, and
-- these are decoded as if each stood alone.
pub from_utf8_lossy-run :
    (s : Bytes) (b : ℕ) (run t : Bytes)
    → b < 128
    → All (λ c. c < 128) run
    → from_utf8_lossy (s ++ ((b ∷ run) ++ t))
      ≡ from_utf8_lossy s ++ ((b ∷ run) ++ from_utf8_lossy t)
unfolding from_utf8_lossy lossy
from_utf8_lossy-run s b [] t k ks = from_utf8_lossy-append s b t k
from_utf8_lossy-run s b (c ∷ run) t k (kc, ks) =
    from_utf8_lossy-append s b ((c ∷ run) ++ t) k
    ∙ ap (λ x. from_utf8_lossy s ++ (b ∷ x)) (from_utf8_lossy-run [] c run t kc ks)
