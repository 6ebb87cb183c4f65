-- ===== src/Scan/Laws/Slices.antt =====
-- Slices of a text: what one more byte adds, and the digits and letters that a slice holds.
use sentin_npu.Prelude.{
  ℕ, zero, suc, ◌+◌, ◌-◌, ◌≤◌, ◌<◌, ◌≡◌, refl, ap, sym, ◌∙◌, Bool, true, false, List, [], ◌∷◌, ◌++◌,
  Option, none, some, arith, length, get_elem?, get_or, take, drop, if◌then◌else◌, append-nil,
  length-drop, length-take, Bytes, is_ascii_digit, is_ascii_alphanumeric, to_ascii_uppercase, all,
}
use sentin_npu.Scan.Cursor.{byte_is, bytes_eq, slice}

get_elem?-drop : (n : ℕ) (xs : Bytes) (i : ℕ) → get_elem? (drop n xs) i ≡ get_elem? xs (n + i)
get_elem?-drop zero xs i = let e : zero + i ≡ i = omega arith in rw e
get_elem?-drop (suc n) [] i = refl
get_elem?-drop (suc n) (x ∷ xs) i =
    let e : suc n + i ≡ suc (n + i) = omega arith in rw e (get_elem?-drop n xs i)

take-suc :
    (n : ℕ) (xs : Bytes) (b : ℕ) → get_elem? xs n ≡ some b → take (suc n) xs ≡ take n xs ++ b ∷ []
take-suc n [] b h = cc
take-suc zero (x ∷ xs) b h = ground arith
take-suc (suc n) (x ∷ xs) b h = ap (◌∷◌ x) (take-suc n xs b h)

-- One more byte at the end of a slice.
pub slice-suc :
    (bytes : Bytes) (s e b : ℕ)
    → s ≤ e
    → get_elem? bytes e ≡ some b
    → slice bytes s (e + 1) ≡ slice bytes s e ++ b ∷ []
slice-suc bytes s e b h g =
    let i : e + 1 - s ≡ suc (e - s) = omega arith in
    let j : s + (e - s) ≡ e = omega arith in
    rw i (take-suc (e - s) (drop s bytes) b (rw (get_elem?-drop s bytes (e - s), j) g))

pub slice_empty : (bytes : Bytes) (s : ℕ) → slice bytes s s ≡ []
slice_empty bytes s = let i : s - s ≡ zero = omega arith in rw i

pub length-slice : (bytes : Bytes) (s e : ℕ) → e ≤ length bytes → length (slice bytes s e) ≡ e - s
length-slice bytes s e h = omega (arith, length-take (e - s) (drop s bytes), length-drop s bytes)

get_elem?-lt : (bytes : Bytes) (i b : ℕ) → get_elem? bytes i ≡ some b → i < length bytes
get_elem?-lt [] i b h = cc
get_elem?-lt (x ∷ xs) zero b h = omega arith
get_elem?-lt (x ∷ xs) (suc i) b h = omega (arith, get_elem?-lt xs i b h)

get_or-get_elem? : (bytes : Bytes) (i b d : ℕ) → get_elem? bytes i ≡ some b → get_or bytes i d ≡ b
get_or-get_elem? [] i b d h = cc
get_or-get_elem? (x ∷ xs) zero b d h = ground arith
get_or-get_elem? (x ∷ xs) (suc i) b d h = get_or-get_elem? xs i b d h

-- What a test on the byte at an index that comes out true says.
pub record Reads (p : ℕ → Bool) (bytes : Bytes) (i : ℕ) : Type 0 where
  pub byte : ℕ
  pub at : get_elem? bytes i ≡ some byte
  pub passes : p byte ≡ true
  pub inside : i < length bytes
  pub value : get_or bytes i 0 ≡ byte

Reads-some :
    (p : ℕ → Bool) (bytes : Bytes) (i : ℕ) (o : Option ℕ)
    → get_elem? bytes i ≡ o
    → elim o [ none ↦ false | some b ↦ p b ] ≡ true
    → Reads p bytes i
Reads-some p bytes i none e h = absurd (cc)
Reads-some p bytes i (some b) e h = record {
  byte = b;
  at = e;
  passes = h;
  inside = get_elem?-lt bytes i b e;
  value = get_or-get_elem? bytes i b 0 e;
}

pub byte_is-Reads :
    (p : ℕ → Bool) (bytes : Bytes) (i : ℕ) → byte_is p bytes i ≡ true → Reads p bytes i
byte_is-Reads p bytes i h = Reads-some p bytes i (get_elem? bytes i) refl h

-- The digit values that stand in a text.
unfoldable pub digits_in : Bytes → List ℕ
digits_in [] = []
digits_in (b ∷ s) = if is_ascii_digit b then (b - b'0') ∷ digits_in s else digits_in s

pub digits_in-append : (s t : Bytes) → digits_in (s ++ t) ≡ digits_in s ++ digits_in t
unfolding digits_in
digits_in-append [] t = refl
digits_in-append (b ∷ s) t = ground (arith, digits_in-append s t)

-- The letters and digits that stand in a text, as capitals.
unfoldable pub characters_in : Bytes → Bytes
characters_in [] = []
characters_in (b ∷ s) =
    if is_ascii_alphanumeric b then to_ascii_uppercase b ∷ characters_in s else characters_in s

pub characters_in-append :
    (s t : Bytes) → characters_in (s ++ t) ≡ characters_in s ++ characters_in t
unfolding characters_in
characters_in-append [] t = refl
characters_in-append (b ∷ s) t = ground (arith, characters_in-append s t)

digits_in_digit : (b : ℕ) → is_ascii_digit b ≡ true → digits_in (b ∷ []) ≡ (b - b'0') ∷ []
unfolding digits_in
digits_in_digit b h = rw h

digits_in_other : (b : ℕ) → is_ascii_digit b ≡ false → digits_in (b ∷ []) ≡ []
unfolding digits_in
digits_in_other b h = rw h

characters_in_character :
    (b : ℕ) → is_ascii_alphanumeric b ≡ true → characters_in (b ∷ []) ≡ to_ascii_uppercase b ∷ []
unfolding characters_in
characters_in_character b h = rw h

characters_in_other : (b : ℕ) → is_ascii_alphanumeric b ≡ false → characters_in (b ∷ []) ≡ []
unfolding characters_in
characters_in_other b h = rw h

pub all-append :
    (p : ℕ → Bool) (s t : Bytes) → all p s ≡ true → all p t ≡ true → all p (s ++ t) ≡ true
all-append p [] t h k = k
all-append p (b ∷ s) t h k = ground (arith, all-append p s t)

all-append_left : (p : ℕ → Bool) (s t : Bytes) → all p (s ++ t) ≡ true → all p s ≡ true
all-append_left p [] t h = refl
all-append_left p (b ∷ s) t h = ground (arith, all-append_left p s t)

-- What a slice holds when it grows by the byte that was read.
module _ (p : ℕ → Bool) (bytes : Bytes) (s e : ℕ) (h : s ≤ e) (r : Reads p bytes e) where
  pub digits_in-slice_digit :
      is_ascii_digit r.byte ≡ true
      → digits_in (slice bytes s (e + 1))
        ≡ digits_in (slice bytes s e) ++ (get_or bytes e 0 - b'0') ∷ []
  digits_in-slice_digit d =
      rw (slice-suc bytes s e r.byte h r.at, digits_in-append, r.value, digits_in_digit r.byte d)

  pub digits_in-slice_other :
      is_ascii_digit r.byte ≡ false
      → digits_in (slice bytes s (e + 1)) ≡ digits_in (slice bytes s e)
  digits_in-slice_other d =
      rw (slice-suc bytes s e r.byte h r.at, digits_in-append, digits_in_other r.byte d, append-nil)

  pub characters_in-slice_character :
      is_ascii_alphanumeric r.byte ≡ true
      → characters_in (slice bytes s (e + 1))
        ≡ characters_in (slice bytes s e) ++ to_ascii_uppercase (get_or bytes e 0) ∷ []
  characters_in-slice_character d = rw (
    slice-suc bytes s e r.byte h r.at,
    characters_in-append,
    r.value,
    characters_in_character r.byte d,
  )

  pub characters_in-slice_other :
      is_ascii_alphanumeric r.byte ≡ false
      → characters_in (slice bytes s (e + 1)) ≡ characters_in (slice bytes s e)
  characters_in-slice_other d = rw (
    slice-suc bytes s e r.byte h r.at,
    characters_in-append,
    characters_in_other r.byte d,
    append-nil,
  )

  pub all-slice :
      (q : ℕ → Bool)
      → q r.byte ≡ true
      → all q (slice bytes s e) ≡ true
      → all q (slice bytes s (e + 1)) ≡ true
  all-slice q d a =
      rw (slice-suc bytes s e r.byte h r.at)
        (all-append q (slice bytes s e) (r.byte ∷ []) a (ground arith))

  pub all-slice_shorter :
      (q : ℕ → Bool) → all q (slice bytes s (e + 1)) ≡ true → all q (slice bytes s e) ≡ true
  all-slice_shorter q a =
      all-append_left q (slice bytes s e) (r.byte ∷ [])
        (rw (slice-suc bytes s e r.byte h r.at) at a)

take_nil : (n : ℕ) → take {A = ℕ} n [] ≡ []
take_nil zero = refl
take_nil (suc n) = refl

take-add : (a b : ℕ) (xs : Bytes) → take (a + b) xs ≡ take a xs ++ take b (drop a xs)
take-add zero b xs = let e : zero + b ≡ b = omega arith in rw e
take-add (suc a) b [] = take_nil (suc a + b) ∙ sym (take_nil b)
take-add (suc a) b (x ∷ xs) =
    let e : suc a + b ≡ suc (a + b) = omega arith in rw e (ap (◌∷◌ x) (take-add a b xs))

pub drop-drop : (a b : ℕ) (xs : Bytes) → drop b (drop a xs) ≡ drop (a + b) xs
drop-drop zero b xs = let e : zero + b ≡ b = omega arith in rw e
drop-drop (suc a) zero [] = let e : suc a + zero ≡ suc a = omega arith in rw e
drop-drop (suc a) (suc b) [] = let e : suc a + suc b ≡ suc (a + suc b) = omega arith in rw e
drop-drop (suc a) b (x ∷ xs) =
    let e : suc a + b ≡ suc (a + b) = omega arith in rw e (drop-drop a b xs)

-- A slice cut in two.
pub slice-append :
    (bytes : Bytes) (s m e : ℕ)
    → s ≤ m
    → m ≤ e
    → slice bytes s e ≡ slice bytes s m ++ slice bytes m e
slice-append bytes s m e h k =
    let i : e - s ≡ m - s + (e - m) = omega arith in
    let j : s + (m - s) ≡ m = omega arith in
    rw (i, take-add (m - s) (e - m) (drop s bytes), drop-drop s (m - s) bytes, j)

pub bytes_eq→eq : (s t : Bytes) → bytes_eq s t ≡ true → s ≡ t
bytes_eq→eq [] [] h = refl
bytes_eq→eq [] (b ∷ t) h = absurd (cc)
bytes_eq→eq (a ∷ s) [] h = absurd (cc)
bytes_eq→eq (a ∷ s) (b ∷ t) h = ground (arith, bytes_eq→eq s t)

-- A slice as long as it was asked for ends inside the text.
pub slice_inside :
    (bytes : Bytes) (s e : ℕ) → s < e → length (slice bytes s e) ≡ e - s → e ≤ length bytes
slice_inside bytes s e h k = omega (arith, length-take (e - s) (drop s bytes), length-drop s bytes)
