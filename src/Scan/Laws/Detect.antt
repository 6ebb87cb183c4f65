-- ===== src/Scan/Laws/Detect.antt =====
-- The theorems about `detect`: it ends, and all that it reports is sound and in order.
use sentin_npu.Prelude.{
  ℕ, zero, suc, ◌+◌, ◌-◌, ◌≤◌, ◌<◌, ◌≡◌, refl, sym, ◌⊎◌, inl, inr, true, ◌||◌, List, [], ◌∷◌, ◌++◌,
  Option, none, some, arith, length, leb, ◌==◌, All, append_assoc, append-nil, ap, ◌∙◌, Bytes,
  Bool-cases, is_ascii_digit, is_ascii_alphabetic,
}
use sentin_npu.Core.DataKind
use sentin_npu.Core.DataKind.{DataKind, email, iban}
use sentin_npu.Core.Finding.{Finding, Range}
use sentin_npu.Scan.Cursor.{byte_is, starts_token, NumericMatch}
use sentin_npu.Scan.Detect.{
  finding, of_match, letters, email_finding, scan_letters, scan_number, scan_at, next_index, push,
  detect_from, finished, detect,
}
use sentin_npu.Scan.Email.{scan_email}
use sentin_npu.Scan.Iban.{scan_iban}
use sentin_npu.Scan.Laws.Email.{IsEmail?, scan_email-IsEmail}
use sentin_npu.Scan.Laws.Iban.{IsAccount?, scan_iban-IsAccount}
use sentin_npu.Scan.Laws.Numeric.{IsMatch?, scan_numeric-IsMatch}
use sentin_npu.Scan.Laws.Sound.{IsSound}
use sentin_npu.Scan.Laws.Vat.{scan_vat_eu-IsMatch}
use sentin_npu.Scan.Numeric.{scan_numeric}
use sentin_npu.Scan.Vat.{scan_vat_eu}

-- What the body of the loop finds at `index`: sound, and it ends behind `index`; all but an email
-- also begin there.
record IsFound (bytes : Bytes) (index : ℕ) (f : Finding) : Type 0 where
  sound : IsSound bytes f
  behind : index < f.span.end
  begins : (f.kind ≡ email) ⊎ (f.span.start ≡ index)

abbrev IsFound? : Bytes → ℕ → Option Finding → Type 0
IsFound? bytes index none = Unit
IsFound? bytes index (some f) = IsFound bytes index f

module _ (bytes : Bytes) (index : ℕ) where
  module _ (s : starts_token bytes index ≡ true) where
    of_match-IsFound :
        (o : Option NumericMatch)
        → IsMatch? bytes index o
        → IsFound? bytes index (elim o [ some m ↦ some (of_match m) | none ↦ none ])
    of_match-IsFound none v = tt
    of_match-IsFound (some m) v = record {
      sound = record {
        nonempty = rw v.begins v.nonempty;
        inside = v.inside;
        by_layer = refl;
        declared = v.declared;
        evidence = rw v.begins v.evidence;
        token = inr (rw v.begins s, v.token_end);
      };
      behind = v.nonempty;
      begins = inr v.begins;
    }

    letters-IsFound :
        (o : Option Range) → IsAccount? bytes index o → IsFound? bytes index (letters bytes index o)
    unfolding finding DataKind.evidence
    letters-IsFound none v =
        of_match-IsFound (scan_vat_eu bytes index) (scan_vat_eu-IsMatch bytes index)
    letters-IsFound (some r) v = record {
      sound = record {
        nonempty = rw v.begins v.nonempty;
        inside = v.inside;
        by_layer = refl;
        declared = refl;
        evidence = rw v.begins v.evidence;
        token = inr (rw v.begins s, v.token_end);
      };
      behind = v.nonempty;
      begins = inr v.begins;
    }

  email-IsFound :
      (o : Option Range) → IsEmail? bytes index o → IsFound? bytes index (email_finding o)
  unfolding finding DataKind.evidence
  email-IsFound none v = tt
  email-IsFound (some r) v = record {
    sound = record {
      nonempty = omega arith;
      inside = v.inside;
      by_layer = refl;
      declared = refl;
      evidence = v.holds;
      token = inl refl;
    };
    behind = v.behind;
    begins = inl refl;
  }

  scan_at-IsFound : index < length bytes → IsFound? bytes index (scan_at bytes index)
  unfolding scan_at scan_letters scan_number
  scan_at-IsFound h = elim (Bool-cases (byte_is (λ b. b == b'@') bytes index)) [
    | inl at ↦ rw at (email-IsFound (scan_email bytes index) (scan_email-IsEmail bytes index at))
    | inr at ↦ elim (Bool-cases (starts_token bytes index)) [
      | inr mid ↦ rw (at, mid) tt
      | inl new ↦ elim (Bool-cases (byte_is is_ascii_alphabetic bytes index)) [
        | inl letter ↦
            rw (at, new, letter)
              (letters-IsFound new (scan_iban bytes index)
                (scan_iban-IsAccount bytes index (omega arith)))
        | inr other ↦
            elim (Bool-cases
              (byte_is is_ascii_digit bytes index || byte_is (λ b. b == b'+') bytes index)) [
                | inl number ↦
                    rw (at, new, other, number)
                      (of_match-IsFound new (scan_numeric bytes index)
                        (scan_numeric-IsMatch bytes index h))
                | inr rest ↦ rw (at, new, other, rest) tt
              ]
      ]
    ]
  ]

-- The loop moves on.
next_index-lt :
    (bytes : Bytes) (index : ℕ) (o : Option Finding)
    → IsFound? bytes index o
    → index < next_index o index
next_index-lt bytes index none v = omega arith
next_index-lt bytes index (some f) v = v.behind

-- Each finding ends behind the one before it, and each but an email begins there or later; `k` is
-- where the one before ends.
abbrev pub InOrder : ℕ → List Finding → Type 0
InOrder k [] = Unit
InOrder k (f ∷ fs) =
    (k < f.span.end) × ((f.kind ≡ email) ⊎ (k ≤ f.span.start)) × InOrder f.span.end fs

InOrder-le : (k m : ℕ) (fs : List Finding) → k ≤ m → InOrder m fs → InOrder k fs
InOrder-le k m [] h o = tt
InOrder-le k m (f ∷ fs) h (a, b, c) =
    (omega arith, elim b [ inl e ↦ inl e | inr l ↦ inr (omega arith) ], c)

-- What the loop returns: the findings so far, and sound ones in order behind `index`.
record Returns (bytes : Bytes) (index : ℕ) (findings : List Finding) (o : Option (List Finding))
    : Type 0 where
  more : List Finding
  result : o ≡ some (findings ++ more)
  sound : All (IsSound bytes) more
  ordered : InOrder index more

module _ (bytes : Bytes) where
  step-Returns :
      (index : ℕ) (found : Option Finding) (findings : List Finding) (o : Option (List Finding))
      → IsFound? bytes index found
      → Returns bytes (next_index found index) (push found findings) o
      → Returns bytes index findings o
  step-Returns index none findings o v r = record {
    more = r.more;
    result = r.result;
    sound = r.sound;
    ordered = InOrder-le index (index + 1) r.more (omega arith) r.ordered;
  }
  step-Returns index (some f) findings o v r = record {
    more = f ∷ r.more;
    result = r.result ∙ ap some (append_assoc findings (f ∷ []) r.more);
    sound = (v.sound, r.sound);
    ordered = (v.behind, elim v.begins [ inl e ↦ inl e | inr e ↦ inr (omega arith) ], r.ordered);
  }

  detect_from-Returns :
      (fuel index : ℕ) (findings : List Finding)
      → length bytes - index < fuel
      → Returns bytes index findings (detect_from fuel bytes index findings)
  unfolding detect_from
  detect_from-Returns zero index findings h = absurd (omega arith)
  detect_from-Returns (suc fuel) index findings h = elim (Bool-cases (leb (length bytes) index)) [
    | inl over ↦ rw over (record {
      more = [];
      result = ap some (sym (append-nil findings));
      sound = tt;
      ordered = tt;
    })
    | inr inside ↦
        let found = scan_at bytes index in
        let v = scan_at-IsFound bytes index (ground arith) in
        let n = next_index-lt bytes index found v in
        let in_text : index < length bytes = ground arith in
        rw inside (
          step-Returns index found findings _ v
            (detect_from-Returns fuel (next_index found index) (push found findings) (omega arith)))
  ]

  -- The whole run.
  detect-Returns : Returns bytes 0 [] (detect_from (suc (length bytes)) bytes 0 [])
  detect-Returns = detect_from-Returns (suc (length bytes)) 0 [] (omega arith)

  detect-more : detect bytes ≡ detect-Returns.more
  unfolding detect
  detect-more = ap finished detect-Returns.result

  -- The main loop ends by its own test within one round per byte and one more: `detect` is what it
  -- returns, and never the value for a run cut short.
  pub detect_from-detect : detect_from (suc (length bytes)) bytes 0 [] ≡ some (detect bytes)
  detect_from-detect = rw detect-more detect-Returns.result

  -- Every finding lies inside the text and is not empty, is of the deterministic layer, claims the
  -- evidence that its kind declares, and has it: the digits or characters of its span pass the
  -- kind's own check. Any finding but an email begins and ends at a token boundary.
  pub detect-All-IsSound : All (IsSound bytes) (detect bytes)
  detect-All-IsSound = rw detect-more detect-Returns.sound

  -- The findings end one behind the other, and each but an email begins where the one before has
  -- ended, or later: only an email may reach back over what was found before it.
  pub detect-InOrder : InOrder 0 (detect bytes)
  detect-InOrder = rw detect-more detect-Returns.ordered
