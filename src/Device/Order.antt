-- ===== src/Device/Order.antt =====
-- The sort of the ranking: nothing is lost, and nothing stands behind what it is to precede.
use mathlib.Core.List.{Perm}
use mathlib.Core.List.Perm
use sentin_npu.Device.Select.{
  Objective, cost, latency, cost_rank, Trial, insert, sort, later, after,
}
use sentin_npu.Prelude.{
  ℕ, ◌<◌, ◌≡◌, inl, inr, Bool, true, false, List, [], ◌∷◌, Option, ltb, ◌==◌, ==_iff, ◌⊎◌,
  if◌then◌else◌, All, All-imp, arith, Bool-cases,
}

-- None of the second is to stand before the first.
abbrev pub IsBefore : Objective → Trial → List Trial → Type 0
IsBefore objective t us = All (λ u. after objective t u ≡ false) us

abbrev pub IsRanked : Objective → List Trial → Type 0
IsRanked objective [] = Unit
IsRanked objective (t ∷ ts) = IsBefore objective t ts × IsRanked objective ts

module _ {ℓ} {A : Type ℓ} (greater : A → A → Bool) where
  insert-Perm : (x : A) (xs : List A) → Perm (insert greater x xs) (x ∷ xs)
  unfolding insert
  insert-Perm x [] = Perm.refl (x ∷ [])
  insert-Perm x (y ∷ ys) = elim (Bool-cases (greater x y)) [
    | inl g ↦ rw g (Perm.trans (Perm.cons y (insert-Perm x ys)) (Perm.swap x y ys))
    | inr l ↦ rw l (Perm.refl (x ∷ y ∷ ys))
  ]

  pub sort-Perm : (xs : List A) → Perm (sort greater xs) xs
  unfolding sort
  sort-Perm [] = Perm.refl []
  sort-Perm (x ∷ xs) = Perm.trans (insert-Perm x (sort greater xs)) (Perm.cons x (sort-Perm xs))

later_trans : (a b c : Option ℕ) → later a b ≡ false → later b c ≡ false → later a c ≡ false
later_trans a b c h k = ground arith

later_total : (a b : Option ℕ) → later a b ≡ true → later b a ≡ false
later_total a b h = ground arith

-- The comparison by cost, on the ranks and times.
abbrev costlier : ℕ → ℕ → Option ℕ → Option ℕ → Bool
costlier i k x y = if i == k then later x y else ltb k i

eq-cases :
    (i k : ℕ) (x y : Option ℕ)
    → costlier i k x y ≡ false
    → (i < k) ⊎ ((i ≡ k) × (later x y ≡ false))
eq-cases i k x y h = ground arith

costlier_trans :
    (i j k : ℕ) (x y z : Option ℕ)
    → costlier i j x y ≡ false
    → costlier j k y z ≡ false
    → costlier i k x z ≡ false
costlier_trans i j k x y z h l = elim (eq-cases i j x y h) [
  | inl a ↦ elim (eq-cases j k y z l) [
    | inl b ↦ less i k x z (omega (arith, a, b))
    | inr (b, q) ↦ less i k x z (omega (arith, a, b))
  ]
  | inr (a, p) ↦ elim (eq-cases j k y z l) [
    | inl b ↦ less i k x z (omega (arith, a, b))
    | inr (b, q) ↦ same i k x z (omega (arith, a, b)) (later_trans x y z p q)
  ]
]
  where
    less : (i k : ℕ) (x y : Option ℕ) → i < k → costlier i k x y ≡ false
    less i k x y h = ground arith

    same : (i k : ℕ) (x y : Option ℕ) → i ≡ k → later x y ≡ false → costlier i k x y ≡ false
    same i k x y h l = rw ((==_iff i k).1 h) l

costlier_total : (i k : ℕ) (x y : Option ℕ) → costlier i k x y ≡ true → costlier k i y x ≡ false
costlier_total i k x y h = ground arith

after_trans :
    (o : Objective) (a b c : Trial)
    → after o a b ≡ false
    → after o b c ≡ false
    → after o a c ≡ false
after_trans latency a b c h k = later_trans a.steady_ms b.steady_ms c.steady_ms h k
after_trans cost a b c h k =
    costlier_trans (cost_rank a.class) (cost_rank b.class) (cost_rank c.class) a.steady_ms
      b.steady_ms c.steady_ms h k

after_total : (o : Objective) (a b : Trial) → after o a b ≡ true → after o b a ≡ false
after_total latency a b h = later_total a.steady_ms b.steady_ms h
after_total cost a b h =
    costlier_total (cost_rank a.class) (cost_rank b.class) a.steady_ms b.steady_ms h

IsBefore-after :
    (o : Objective) (a b : Trial) (us : List Trial)
    → after o a b ≡ false
    → IsBefore o b us
    → IsBefore o a us
IsBefore-after o a b us h k = All-imp (λ u l. after_trans o a b u h l) us k

insert-IsBefore :
    (o : Objective) (a x : Trial) (us : List Trial)
    → after o a x ≡ false
    → IsBefore o a us
    → IsBefore o a (insert (after o) x us)
unfolding insert
insert-IsBefore o a x [] h k = (h, tt)
insert-IsBefore o a x (u ∷ us) h (k, ks) = elim (Bool-cases (after o x u)) [
  | inl g ↦ rw g (k, insert-IsBefore o a x us h ks)
  | inr l ↦ rw l (h, (k, ks))
]

insert-IsRanked :
    (o : Objective) (x : Trial) (us : List Trial)
    → IsRanked o us
    → IsRanked o (insert (after o) x us)
unfolding insert
insert-IsRanked o x [] h = (tt, tt)
insert-IsRanked o x (u ∷ us) (b, h) = elim (Bool-cases (after o x u)) [
  | inl g ↦ rw g (insert-IsBefore o u x us (after_total o x u g) b, insert-IsRanked o x us h)
  | inr l ↦ rw l ((l, IsBefore-after o x u us l b), (b, h))
]

pub sort-IsRanked : (o : Objective) (us : List Trial) → IsRanked o (sort (after o) us)
unfolding sort
sort-IsRanked o [] = tt
sort-IsRanked o (u ∷ us) = insert-IsRanked o u (sort (after o) us) (sort-IsRanked o us)
