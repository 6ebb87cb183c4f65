-- ===== src/Scan/Laws/Numeric.antt =====
-- `scan_numeric` returns only sound matches.
use sentin_npu.Prelude.{
  ℕ, ◌+◌, ◌≤◌, ◌<◌, ◌≡◌, refl, ◌∙◌, ◌⊎◌, inl, inr, Bool, true, false, ◌&&◌, ◌||◌, not, List, [],
  ◌∷◌, Option, none, some, arith, length, ltb, ◌==◌, is_empty, Bytes, codes, Bool-cases,
  is_ascii_digit,
}
use sentin_npu.Checksums
use sentin_npu.Core.DataKind
use sentin_npu.Core.DataKind.{DataKind, pesel, nip, regon, payment_card, phone_pl}
use sentin_npu.Core.Validation.{Validation}
use sentin_npu.Scan.Cursor.{NumericMatch, slice, bytes_eq, ends_token, byte_is}
use sentin_npu.Scan.Digits.{Run, max_digits, collect_digits}
use sentin_npu.Scan.Laws.Runs.{IsRun, collect_digits-IsRun}
use sentin_npu.Scan.Laws.Slices.{
  byte_is-Reads, digits_in, digits_in-append, slice_empty, slice-suc, slice-append, slice_inside,
  bytes_eq→eq,
}
use sentin_npu.Scan.Laws.Sound.{IsPhone, Evidence, IsMatch}
use sentin_npu.Scan.Numeric.{
  card_prefix_is_known, after_prefix, phone_run, scan_phone_with_prefix, phone_from, classify,
  matched, numeric_run, or_numeric, scan_numeric,
}

-- The evidence of a kind in digits.
abbrev DigitEvidence : DataKind → List ℕ → Type 0
DigitEvidence pesel ds = Checksums.pesel ds ≡ true
DigitEvidence nip ds = Checksums.nip ds ≡ true
DigitEvidence regon ds = Checksums.regon ds ≡ true
DigitEvidence payment_card ds = (Checksums.luhn ds ≡ true) × (card_prefix_is_known ds ≡ true)
DigitEvidence phone_pl ds = length ds ≡ 9
DigitEvidence _ ds = ⊥

abbrev Classified : List ℕ → Option (DataKind × Validation × ℕ) → Type 0
Classified ds none = Unit
Classified ds (some (k, v, c)) = (v ≡ DataKind.evidence k) × DigitEvidence k ds

classify-Classified : (ds : List ℕ) (separated : Bool) → Classified ds (classify ds separated)
unfolding classify DataKind.evidence
classify-Classified ds separated = ground arith

Evidence_of_digits :
    (k : DataKind) (ds : List ℕ) (s : Bytes) → ds ≡ digits_in s → DigitEvidence k ds → Evidence k s
Evidence_of_digits pesel ds s e h = rw (← e) h
Evidence_of_digits nip ds s e h = rw (← e) h
Evidence_of_digits regon ds s e h = rw (← e) h
Evidence_of_digits payment_card ds s e h = rw (← e) h
Evidence_of_digits phone_pl ds s e h = (ds, h, inl (rw e))
Evidence_of_digits _ ds s e h = absurd h

-- A run that holds a digit is not empty.
run_nonempty :
    (bytes : Bytes) (start : ℕ) (r : Run)
    → IsRun bytes start r
    → is_empty r.digits ≡ false
    → start < r.end
unfolding digits_in
run_nonempty bytes start r v h = elim (Bool-cases (ltb start r.end)) [
  | inl lt ↦ ground arith
  | inr ge ↦
      let e : r.end ≡ start = ground arith in
      let c : r.digits ≡ [] = v.content ∙ (rw (e, slice_empty)) in
      let clash : is_empty {A = ℕ} [] ≡ false = rw c at h in cc
]

abbrev pub IsMatch? : Bytes → ℕ → Option NumericMatch → Type 0
IsMatch? bytes start none = Unit
IsMatch? bytes start (some m) = IsMatch bytes start m

module _ (bytes : Bytes) (start : ℕ) where
  Classified-IsMatch :
      (r : Run) (o : Option (DataKind × Validation × ℕ))
      → IsRun bytes start r
      → start < r.end
      → ends_token bytes r.end ≡ true
      → Classified r.digits o
      → IsMatch? bytes start (matched start r o)
  Classified-IsMatch r none v l t c = tt
  Classified-IsMatch r (some (k, d, n)) v l t c = record {
    begins = refl;
    nonempty = l;
    inside = v.inside;
    token_end = t;
    declared = c.0;
    evidence = Evidence_of_digits k r.digits _ v.content c.1;
  }

  numeric_run-IsMatch :
      (r : Run) → IsRun bytes start r → IsMatch? bytes start (numeric_run bytes start r)
  unfolding numeric_run
  numeric_run-IsMatch r v = elim (Bool-cases (not (ends_token bytes r.end))) [
    | inl e ↦ rw e tt
    | inr e ↦ elim (Bool-cases (is_empty r.digits || ltb max_digits (length r.digits))) [
      | inl f ↦ rw (e, f) tt
      | inr f ↦
          rw (e, f)
            (Classified-IsMatch r (classify r.digits r.separated) v
              (run_nonempty bytes start r v (ground arith)) (ground arith)
              (classify-Classified r.digits r.separated))
    ]
  ]

-- A country prefix between `start` and `from`.
record IsPrefix (bytes : Bytes) (start from : ℕ) : Type 0 where
  before : start < from
  inside : from ≤ length bytes
  spells :
      (digits_in (slice bytes start from) ≡ 4 ∷ 8 ∷ [])
      ⊎ (digits_in (slice bytes start from) ≡ 0 ∷ 0 ∷ 4 ∷ 8 ∷ [])

abbrev IsPrefix? : Bytes → ℕ → Option ℕ → Type 0
IsPrefix? bytes start none = Unit
IsPrefix? bytes start (some from) = IsPrefix bytes start from

module _ (bytes : Bytes) (start : ℕ) where
  plus_prefix :
      byte_is (λ b. b == b'+') bytes start ≡ true
      → slice bytes (start + 1) (start + 3) ≡ codes "48"
      → IsPrefix bytes start (start + 3)
  unfolding digits_in is_ascii_digit
  plus_prefix h e =
      let r = byte_is-Reads (λ b. b == b'+') bytes start h in
      let plus : r.byte ≡ 43 = ground (arith, r.passes) in
      record {
        before = omega arith;
        inside = slice_inside bytes (start + 1) (start + 3) (omega arith) (rw e (omega arith));
        spells = inl (
            rw (
              slice-append bytes start (start + 1) (start + 3) (omega arith) (omega arith),
              e,
              slice-suc bytes start start r.byte (omega arith) r.at,
              slice_empty,
              plus,
            ));
      }

  zero_prefix : slice bytes start (start + 4) ≡ codes "0048" → IsPrefix bytes start (start + 4)
  unfolding digits_in is_ascii_digit
  zero_prefix e = record {
    before = omega arith;
    inside = slice_inside bytes start (start + 4) (omega arith) (rw e (omega arith));
    spells = inr (rw e);
  }

  after_prefix-IsPrefix : IsPrefix? bytes start (after_prefix bytes start)
  unfolding after_prefix
  after_prefix-IsPrefix =
      elim (Bool-cases (
        byte_is (λ b. b == b'+') bytes start
        && bytes_eq (slice bytes (start + 1) (start + 3)) (codes "48"))) [
          | inl p ↦ rw p (plus_prefix (ground arith) (bytes_eq→eq _ _ (ground arith)))
          | inr p ↦ elim (Bool-cases (bytes_eq (slice bytes start (start + 4)) (codes "0048"))) [
            | inl z ↦ rw (p, z) (zero_prefix (bytes_eq→eq _ _ z))
            | inr z ↦ rw (p, z) tt
          ]
        ]

  spelled-IsPhone :
      (from end : ℕ) (nine : List ℕ)
      → IsPrefix bytes start from
      → from ≤ end
      → nine ≡ digits_in (slice bytes from end)
      → length nine ≡ 9
      → IsPhone (digits_in (slice bytes start end))
  spelled-IsPhone from end nine p h e l =
      let cut = slice-append bytes start from end (omega arith) h in
      elim p.spells [
        | inl s ↦ (nine, l, inr (inl (rw (cut, digits_in-append, s, e))))
        | inr s ↦ (nine, l, inr (inr (rw (cut, digits_in-append, s, e))))
      ]

  phone_run-IsMatch :
      (from : ℕ) (r : Run)
      → IsPrefix bytes start from
      → IsRun bytes from r
      → IsMatch? bytes start (phone_run bytes start r)
  unfolding phone_run DataKind.evidence
  phone_run-IsMatch from r p v =
      elim (Bool-cases (length r.digits == 9 && ends_token bytes r.end)) [
        | inr f ↦ rw f tt
        | inl t ↦ rw t (record {
          begins = refl;
          nonempty = omega arith;
          inside = v.inside;
          token_end = ground arith;
          declared = refl;
          evidence = spelled-IsPhone from r.end r.digits p v.lower v.content (ground arith);
        })
      ]

  phone_from-IsMatch :
      (o : Option ℕ) → IsPrefix? bytes start o → IsMatch? bytes start (phone_from bytes start o)
  phone_from-IsMatch none p = tt
  phone_from-IsMatch (some from) p =
      phone_run-IsMatch from (collect_digits bytes from) p
        (collect_digits-IsRun bytes from p.inside)

  scan_phone-IsMatch : IsMatch? bytes start (scan_phone_with_prefix bytes start)
  unfolding scan_phone_with_prefix
  scan_phone-IsMatch = phone_from-IsMatch (after_prefix bytes start) after_prefix-IsPrefix

  or_numeric-IsMatch :
      (o : Option NumericMatch)
      → start < length bytes
      → IsMatch? bytes start o
      → IsMatch? bytes start (or_numeric bytes start o)
  or_numeric-IsMatch (some m) h v = v
  or_numeric-IsMatch none h v = elim (Bool-cases (byte_is (λ b. b == b'+') bytes start)) [
    | inl p ↦ rw p tt
    | inr p ↦ rw p (
        numeric_run-IsMatch bytes start (collect_digits bytes start)
          (collect_digits-IsRun bytes start (omega arith)))
  ]

  -- Whatever `scan_numeric` returns at a place in the text is a match there.
  pub scan_numeric-IsMatch : start < length bytes → IsMatch? bytes start (scan_numeric bytes start)
  unfolding scan_numeric
  scan_numeric-IsMatch h =
      or_numeric-IsMatch (scan_phone_with_prefix bytes start) h scan_phone-IsMatch
