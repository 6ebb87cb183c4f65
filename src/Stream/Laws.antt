-- ===== src/Stream/Laws.antt =====
-- What the sliding window passes on: every byte, in order, cut between events.
use mathlib.Core.Option.{some-injective}
use mathlib.Core.Path.{subst}
use sentin_npu.Prelude.{
  ℕ, zero, suc, ◌+◌, ◌-◌, ◌≡◌, refl, sym, ap, ◌∙◌, ◌⊎◌, inl, inr, ltb, Bool, true, false, List, [],
  ◌∷◌, ◌++◌, map, Option, none, some, arith, take, drop, take-append-drop, append_assoc, append-nil,
  Bytes, Bool-cases, length, if◌then◌else◌,
}
use sentin_npu.Scan.Cursor.{bytes_eq, slice}
use sentin_npu.Stream.{
  Item, chunk, failed, find_down, find_last, event_end, cut_at, flush_point, released, kept,
  windowed,
}

-- The bytes passed on.
abbrev pub joined : List Item → Bytes
joined [] = []
joined (chunk c ∷ items) = c ++ joined items
joined (failed ∷ items) = joined items

joined-append : (xs ys : List Item) → joined (xs ++ ys) ≡ joined xs ++ joined ys
joined-append [] ys = refl
joined-append (chunk c ∷ xs) ys =
    ap (λ s. c ++ s) (joined-append xs ys) ∙ sym (append_assoc c (joined xs) (joined ys))
joined-append (failed ∷ xs) ys = joined-append xs ys

-- What is split off and what is kept are the whole.
released-kept : (held : Bytes) (cut : Option ℕ) → joined (released held cut) ++ kept held cut ≡ held
released-kept held none = refl
released-kept held (some cut) =
    ap (λ s. s ++ drop cut held) (append-nil (take cut held)) ∙ take-append-drop cut held

-- Of a response that ends without an error, what was held back and then every chunk is passed on
-- whole, byte for byte.
pub joined-windowed :
    (chunks : List Bytes) (pending : Bytes)
    → joined (windowed (map chunk chunks) pending) ≡ pending ++ joined (map chunk chunks)
unfolding windowed
joined-windowed [] [] = refl
joined-windowed [] (b ∷ pending) = refl
joined-windowed (c ∷ chunks) pending =
    let held = pending ++ c in
    let cut = flush_point held in
    joined-append (released held cut) (windowed (map chunk chunks) (kept held cut))
    ∙ ap (λ s. joined (released held cut) ++ s) (joined-windowed chunks (kept held cut))
    ∙ sym (append_assoc (joined (released held cut)) (kept held cut) (joined (map chunk chunks)))
    ∙ ap (λ s. s ++ joined (map chunk chunks)) (released-kept held cut)
    ∙ append_assoc pending c (joined (map chunk chunks))

-- A search step finds `i` here or further on.
picked :
    (b : Bool) (k i : ℕ) (o : Option ℕ)
    → (if b then some k else o) ≡ some i
    → ((b ≡ true) × (k ≡ i)) ⊎ (o ≡ some i)
picked true k i o e = inl (refl, some-injective k i e)
picked false k i o e = inr e

abbrev StandsAt : Bytes → Bytes → ℕ → Type 0
StandsAt h n i = bytes_eq (slice h i (i + length n)) n ≡ true

-- What `find_down` finds stands there.
find_down-StandsAt : (h n : Bytes) (k i : ℕ) → find_down h n k ≡ some i → StandsAt h n i
unfolding find_down
find_down-StandsAt h n zero i e = elim (picked _ 0 i none e) [
  | inl (here, same) ↦ subst (StandsAt h n) same here
  | inr later ↦ ground arith
]
find_down-StandsAt h n (suc k) i e = elim (picked _ (suc k) i (find_down h n k) e) [
  | inl (here, same) ↦ subst (StandsAt h n) same here
  | inr later ↦ find_down-StandsAt h n k i later
]

find_last-StandsAt : (h n : Bytes) (i : ℕ) → find_last h n ≡ some i → StandsAt h n i
unfolding find_last
find_last-StandsAt h n i e = elim (Bool-cases (ltb (length h) (length n))) [
  | inl short ↦ ground arith
  | inr long ↦ find_down-StandsAt h n (length h - length n) i (ground arith)
]

abbrev EventEndsAt : Bytes → ℕ → Type 0
EventEndsAt pending cut = bytes_eq (slice pending (cut - 2) cut) event_end ≡ true

cut_at-EventEndsAt :
    (pending : Bytes) (o : Option ℕ) (cut : ℕ)
    → ((i : ℕ) → o ≡ some i → StandsAt pending event_end i)
    → cut_at pending o ≡ some cut
    → EventEndsAt pending cut
cut_at-EventEndsAt pending none cut h e = ground arith
cut_at-EventEndsAt pending (some i) cut h e =
    let same : i + 2 ≡ cut = ground arith in
    subst (EventEndsAt pending) same
      (subst (λ j. bytes_eq (slice pending j (i + 2)) event_end ≡ true) (omega arith) (h i refl))

-- Where the buffer is cut, an event ends: the two bytes in front of the cut are newlines.
pub flush_point-event_end :
    (pending : Bytes) (cut : ℕ)
    → flush_point pending ≡ some cut
    → bytes_eq (slice pending (cut - 2) cut) event_end ≡ true
unfolding flush_point
flush_point-event_end pending cut e =
    cut_at-EventEndsAt pending (find_last pending event_end) cut
      (find_last-StandsAt pending event_end) e
