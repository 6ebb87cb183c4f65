-- ===== src/Core/DataKind.antt =====
-- `DataKind` of gateway/crates/sentin-core/src/lib.rs.
use sentin_npu.Prelude.{ℕ, Bool, ◌==◌, List, [], ◌∷◌}
use sentin_npu.Core.Decision
use sentin_npu.Core.Decision.{Decision}
use sentin_npu.Core.Layer
use sentin_npu.Core.Layer.{Layer, deterministic, ner}
use sentin_npu.Core.Validation
use sentin_npu.Core.Validation.{Validation, checksum, pattern_only}

-- The class of sensitive data that a finding refers to.
pub data DataKind : Type 0 where
  pesel nip vat_eu regon iban payment_card email phone_pl : DataKind
  person organization location : DataKind

-- `DataKind::ALL`
abbrev pub all_kinds : List DataKind
all_kinds =
    pesel ∷ nip ∷ vat_eu ∷ regon ∷ iban ∷ payment_card ∷ email ∷ phone_pl ∷ person ∷ organization
    ∷ location ∷ []

-- Which layer finds this kind.
unfoldable pub layer : DataKind → Layer
layer person = ner
layer organization = ner
layer location = ner
layer _ = deterministic

-- The strongest evidence that a finding of this kind can carry.
unfoldable pub evidence : DataKind → Validation
evidence pesel = checksum
evidence nip = checksum
evidence regon = checksum
evidence iban = checksum
evidence payment_card = checksum
evidence _ = pattern_only

-- The strongest decision that configuring this detector can reach.
unfoldable pub max_decision : DataKind → Decision
unfolding layer evidence Layer.max_decision Validation.max_decision Decision.min
max_decision k = Decision.min (Layer.max_decision (layer k)) (Validation.max_decision (evidence k))

-- The place of a variant in the declaration, and the derived `==`.
abbrev pub index : DataKind → ℕ
index pesel = 0
index nip = 1
index vat_eu = 2
index regon = 3
index iban = 4
index payment_card = 5
index email = 6
index phone_pl = 7
index person = 8
index organization = 9
index location = 10

unfoldable pub eq : DataKind → DataKind → Bool
eq a b = index a == index b
