-- ===== src/Config/Keys.antt =====
-- The keys of the detectors in config.rs, and what an entry or its absence means.
use sentin_npu.Prelude.{
  ◌≡◌, ◌≢◌, refl, ap, true, List, [], ◌∷◌, none, arith, Bytes, if◌then◌else◌, inl, inr, Bool-cases,
  All,
}
use sentin_npu.Core.DataKind
use sentin_npu.Core.DataKind.{DataKind}
use sentin_npu.Core.Decision.{observed}
use sentin_npu.Config.{Config, DetectorRule, detector_key, text_eq, get, mode_or_observed, mode_for}

pub text_eq_refl : (s : Bytes) → text_eq s s ≡ true
text_eq_refl [] = refl
text_eq_refl (a ∷ s) = ground (arith, text_eq_refl s)

pub text_eq→eq : (s t : Bytes) → text_eq s t ≡ true → s ≡ t
text_eq→eq [] [] h = refl
text_eq→eq [] (b ∷ t) h = absurd (cc)
text_eq→eq (a ∷ s) [] h = absurd (cc)
text_eq→eq (a ∷ s) (b ∷ t) h = ground (arith, text_eq→eq s t)

-- The test on two keys is the test on the kinds.
text_eq-detector_key :
    (a b : DataKind) → text_eq (detector_key a) (detector_key b) ≡ DataKind.eq a b
unfolding detector_key DataKind.eq
text_eq-detector_key DataKind.pesel DataKind.pesel = refl
text_eq-detector_key DataKind.pesel _ = refl
text_eq-detector_key DataKind.nip DataKind.nip = refl
text_eq-detector_key DataKind.nip _ = refl
text_eq-detector_key DataKind.vat_eu DataKind.vat_eu = refl
text_eq-detector_key DataKind.vat_eu _ = refl
text_eq-detector_key DataKind.regon DataKind.regon = refl
text_eq-detector_key DataKind.regon _ = refl
text_eq-detector_key DataKind.iban DataKind.iban = refl
text_eq-detector_key DataKind.iban _ = refl
text_eq-detector_key DataKind.payment_card DataKind.payment_card = refl
text_eq-detector_key DataKind.payment_card _ = refl
text_eq-detector_key DataKind.email DataKind.email = refl
text_eq-detector_key DataKind.email _ = refl
text_eq-detector_key DataKind.phone_pl DataKind.phone_pl = refl
text_eq-detector_key DataKind.phone_pl _ = refl
text_eq-detector_key DataKind.person DataKind.person = refl
text_eq-detector_key DataKind.person _ = refl
text_eq-detector_key DataKind.organization DataKind.organization = refl
text_eq-detector_key DataKind.organization _ = refl
text_eq-detector_key DataKind.location DataKind.location = refl
text_eq-detector_key DataKind.location _ = refl

get_missing :
    (key : Bytes) (m : List (Bytes × DetectorRule))
    → All (λ entry. entry.0 ≢ key) m
    → get key m ≡ none
unfolding get
get_missing key [] h = refl
get_missing key ((k, rule) ∷ m) (n, h) = elim (Bool-cases (text_eq k key)) [
  | inl e ↦ absurd (n (text_eq→eq k key e))
  | inr e ↦ rw e (get_missing key m h)
]

module _ (config : Config) where
  -- A rule entered under the key of one detector sets the mode of that detector and of no other.
  pub mode_for-cons :
      (a b : DataKind) (rule : DetectorRule)
      → mode_for (record config { detectors = (detector_key a, rule) ∷ config.detectors }) b
        ≡ (if DataKind.eq a b then rule.mode else mode_for config b)
  unfolding mode_for
  mode_for-cons a b rule = elim (Bool-cases (DataKind.eq a b)) [
    | inl same ↦ rw (text_eq-detector_key a b, same)
    | inr other ↦ rw (text_eq-detector_key a b, other)
  ]

  -- A detector is only observed unless some entry of the configuration has its key.
  pub mode_for-observed :
      (kind : DataKind)
      → All (λ entry. entry.0 ≢ detector_key kind) config.detectors
      → mode_for config kind ≡ observed
  unfolding mode_for
  mode_for-observed kind h =
      ap mode_or_observed (get_missing (detector_key kind) config.detectors h)
