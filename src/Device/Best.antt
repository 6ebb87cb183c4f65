-- ===== src/Device/Best.antt =====
-- The choice is the best of what it may choose from.
use mathlib.Core.List.{Perm}
use mathlib.Core.List.Perm
use mathlib.Core.Path.{subst}
use sentin_npu.Device.Select.{
  Objective, Trial, is_usable, usable, slower, Piles, sorted_by, piles, after, resolved,
  first_device, rank,
}
use sentin_npu.Prelude.{
  ℕ, ◌≡◌, refl, sym, ap, ◌∙◌, inl, inr, Bool, true, false, ◌&&◌, not, List, [], ◌∷◌, map, Option,
  none, some, ltb, if◌then◌else◌, is_empty, arith, Bytes, Bool-cases, ◌≢◌,
}
use sentin_npu.Device.Order.{IsRanked, sort-Perm, sort-IsRanked}

-- Those that have a property, in order.
abbrev pub filter {ℓ} : {A : Type ℓ} → (A → Bool) → List A → List A
filter p [] = []
filter p (x ∷ xs) = if p x then x ∷ filter p xs else filter p xs

-- Measured, and not over the ceiling.
abbrev pub is_within : ℕ → Option Bytes → Option ℕ → Bool
is_within ceiling none (some ms) = not (ltb ceiling ms)
is_within ceiling _ _ = false

abbrev pub meets : ℕ → Trial → Bool
meets ceiling t = is_within ceiling t.error t.steady_ms

-- What may be chosen: the usable devices that meet the ceiling, and if there is none all usable ones.
abbrev pub eligible : ℕ → List Trial → List Trial
eligible ceiling trials =
    if is_empty (filter (meets ceiling) trials)
    then filter usable trials
    else filter (meets ceiling) trials

cons-ne {ℓ} : {A : Type ℓ} (x : A) (xs : List A) → x ∷ xs ≢ []
cons-ne x xs e = ground arith

if-eq {ℓ} : {A : Type ℓ} (b : Bool) (x y : A) → b ≡ true → (if b then x else y) ≡ x
if-eq b x y e = rw e refl

if-ne {ℓ} : {A : Type ℓ} (b : Bool) (x y : A) → b ≡ false → (if b then x else y) ≡ y
if-ne b x y e = rw e refl

-- One round of the first loop.
sorted_by-ranked :
    (ceiling : ℕ) (t : Trial) (e : Option Bytes) (ms : Option ℕ) (p : Piles)
    → (sorted_by ceiling t e ms p).ranked
      ≡ (if is_within ceiling e ms then t ∷ p.ranked else p.ranked)
sorted_by-ranked ceiling t (some e) ms p = refl
sorted_by-ranked ceiling t none none p = refl
sorted_by-ranked ceiling t none (some ms) p = elim (Bool-cases (ltb ceiling ms)) [
  | inl over ↦ rw over refl
  | inr under ↦ rw under refl
]

sorted_by-slow :
    (ceiling : ℕ) (t : Trial) (e : Option Bytes) (ms : Option ℕ) (p : Piles)
    → is_within ceiling e ms ≡ false
    → map (λ x. x.0) (sorted_by ceiling t e ms p).slow
      ≡ (if is_usable e ms then t ∷ map (λ x. x.0) p.slow else map (λ x. x.0) p.slow)
sorted_by-slow ceiling t (some e) ms p h = refl
sorted_by-slow ceiling t none none p h = refl
sorted_by-slow ceiling t none (some ms) p h = elim (Bool-cases (ltb ceiling ms)) [
  | inl over ↦ rw over refl
  | inr under ↦ absurd (ground arith)
]

piles-ranked :
    (ceiling : ℕ) (ts : List Trial) → (piles ceiling ts).ranked ≡ filter (meets ceiling) ts
unfolding piles
piles-ranked ceiling [] = refl
piles-ranked ceiling (t ∷ ts) =
    sorted_by-ranked ceiling t t.error t.steady_ms (piles ceiling ts)
    ∙ ap (λ xs. if meets ceiling t then t ∷ xs else xs) (piles-ranked ceiling ts)

-- With nothing within the ceiling, the slow ones are the usable ones.
piles-slow :
    (ceiling : ℕ) (ts : List Trial)
    → filter (meets ceiling) ts ≡ []
    → map (λ x. x.0) (piles ceiling ts).slow ≡ filter usable ts
unfolding piles
piles-slow ceiling [] h = refl
piles-slow ceiling (t ∷ ts) h = elim (Bool-cases (meets ceiling t)) [
  | inl within ↦
      absurd (cons-ne t (filter (meets ceiling) ts) (sym (if-eq (meets ceiling t) _ _ within) ∙ h))
  | inr out ↦
      sorted_by-slow ceiling t t.error t.steady_ms (piles ceiling ts) out
      ∙ ap (λ xs. if usable t then t ∷ xs else xs)
          (piles-slow ceiling ts (sym (if-ne (meets ceiling t) _ _ out) ∙ h))
]

is_empty-nil {ℓ} : {A : Type ℓ} (xs : List A) → is_empty xs ≡ true → xs ≡ []
is_empty-nil [] h = refl
is_empty-nil (x ∷ xs) h = absurd (ground arith)

is_empty-map {ℓ κ} :
    {A : Type ℓ} {B : Type κ} (f : A → B) (xs : List A) → is_empty (map f xs) ≡ is_empty xs
is_empty-map f [] = refl
is_empty-map f (x ∷ xs) = refl

resolved-ranked :
    (ceiling : ℕ) (p : Piles) → is_empty p.ranked ≡ false → (resolved ceiling p).ranked ≡ p.ranked
resolved-ranked ceiling p h = rw h refl

resolved-slow :
    (ceiling : ℕ) (p : Piles)
    → is_empty p.ranked ≡ true
    → Perm (resolved ceiling p).ranked (map (λ x. x.0) p.slow)
resolved-slow ceiling p h = elim (Bool-cases (is_empty p.slow)) [
  | inl none_ ↦ nothing p.ranked p.slow h none_
  | inr some_ ↦ rw (h, some_) (Perm.map (λ x. x.0) (sort-Perm slower p.slow))
]
  where
    nothing :
        (ranked : List Trial) (slow : List (Trial × ℕ))
        → is_empty ranked ≡ true
        → is_empty slow ≡ true
        → Perm
            (resolved ceiling
              (record { ranked = ranked; slow = slow; rejected = p.rejected })).ranked
            (map (λ x. x.0) slow)
    nothing [] [] e k = Perm.refl []
    nothing (t ∷ ts) slow e k = absurd (ground arith)
    nothing [] (t ∷ ts) e k = absurd (ground arith)

resolved-eligible :
    (ceiling : ℕ) (ts : List Trial)
    → Perm (resolved ceiling (piles ceiling ts)).ranked (eligible ceiling ts)
resolved-eligible ceiling ts = elim (Bool-cases (is_empty (filter (meets ceiling) ts))) [
  | inr some_ ↦
      let e =
        resolved-ranked ceiling (piles ceiling ts) (ap is_empty (piles-ranked ceiling ts) ∙ some_)
        ∙ piles-ranked ceiling ts in
      rw some_ (subst (Perm _) e (Perm.refl _))
  | inl none_ ↦
      let e = piles-slow ceiling ts (is_empty-nil _ none_) in
      rw none_ (
        subst (Perm _) e (
          resolved-slow ceiling (piles ceiling ts) (ap is_empty (piles-ranked ceiling ts) ∙ none_)))
]

over_ceiling_lem :
    (ceiling : ℕ) (ts : List Trial)
    → (is_empty (piles ceiling ts).ranked && not (is_empty (piles ceiling ts).slow))
      ≡ (is_empty (filter (meets ceiling) ts) && not (is_empty (filter usable ts)))
over_ceiling_lem ceiling ts = elim (Bool-cases (is_empty (filter (meets ceiling) ts))) [
  | inr some_ ↦ rw (ap is_empty (piles-ranked ceiling ts) ∙ some_, some_) refl
  | inl none_ ↦
      rw (ap is_empty (piles-ranked ceiling ts) ∙ none_, none_)
        (ap not (
          sym (is_empty-map (λ x. x.0) (piles ceiling ts).slow)
          ∙ ap is_empty (piles-slow ceiling ts (is_empty-nil _ none_))))
]

-- What `rank` puts in order is what may be chosen, each once for each time that it was measured: the
-- usable devices within the ceiling, or all usable ones when none is within it, which is what
-- `over_ceiling` tells. No device stands behind one that it is to stand before, and the device chosen
-- is the first.
pub rank-IsRanked :
    (trials : List Trial) (objective : Objective) (ceiling : ℕ)
    → Perm (rank trials objective ceiling).ranked (eligible ceiling trials)
      × IsRanked objective (rank trials objective ceiling).ranked
      × ((rank trials objective ceiling).device
          ≡ first_device (rank trials objective ceiling).ranked)
      × ((rank trials objective ceiling).over_ceiling
          ≡ (is_empty (filter (meets ceiling) trials) && not (is_empty (filter usable trials))))
unfolding rank
rank-IsRanked trials objective ceiling = (
  Perm.trans (sort-Perm (after objective) _) (resolved-eligible ceiling trials),
  sort-IsRanked objective ((resolved ceiling (piles ceiling trials)).ranked),
  refl,
  over_ceiling_lem ceiling trials,
)
