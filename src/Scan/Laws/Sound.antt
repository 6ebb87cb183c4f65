-- ===== src/Scan/Laws/Sound.antt =====
-- What a finding of deterministic.rs rests on: the text of its span, kind by kind.
use sentin_npu.Prelude.{
  ℕ, ◌≤◌, ◌<◌, ◌≡◌, ◌⊎◌, true, List, ◌∷◌, length, take, drop, any, ◌==◌, Bytes,
}
use sentin_npu.Checksums
use sentin_npu.Core.DataKind
use sentin_npu.Core.DataKind.{
  DataKind, pesel, nip, vat_eu, regon, iban, payment_card, email, phone_pl,
}
use sentin_npu.Core.Finding.{Finding}
use sentin_npu.Core.Layer.{deterministic}
use sentin_npu.Scan.Cursor.{NumericMatch, slice, starts_token, ends_token}
use sentin_npu.Scan.Laws.Slices.{digits_in, characters_in}
use sentin_npu.Scan.Numeric.{card_prefix_is_known}
use sentin_npu.Scan.Vat.{vat_national_part_is_valid}

-- The digits of a phone number: nine, alone or behind 48 or 0048.
abbrev pub IsPhone : List ℕ → Type 0
IsPhone ds =
    (nine : List ℕ) × (length nine ≡ 9)
    × ((ds ≡ nine) ⊎ ((ds ≡ 4 ∷ 8 ∷ nine) ⊎ (ds ≡ 0 ∷ 0 ∷ 4 ∷ 8 ∷ nine)))

-- The evidence for a kind in the text of a span: separators and a country prefix apart, the digits
-- or characters of the text pass the kind's own check.
abbrev pub Evidence : DataKind → Bytes → Type 0
Evidence pesel s = Checksums.pesel (digits_in s) ≡ true
Evidence nip s = Checksums.nip (digits_in s) ≡ true
Evidence regon s = Checksums.regon (digits_in s) ≡ true
Evidence payment_card s =
    (Checksums.luhn (digits_in s) ≡ true) × (card_prefix_is_known (digits_in s) ≡ true)
Evidence iban s = Checksums.iban (characters_in s) ≡ true
Evidence vat_eu s = vat_national_part_is_valid (take 2 s) (drop 2 s) ≡ true
Evidence email s = any (λ b. b == b'@') s ≡ true
Evidence phone_pl s = IsPhone (digits_in s)
Evidence _ s = ⊥

-- A match that begins at `start`, ends inside the text at the end of a token, claims the evidence
-- of its kind, and has it.
pub record IsMatch (bytes : Bytes) (start : ℕ) (m : NumericMatch) : Type 0 where
  pub begins : m.span.start ≡ start
  pub nonempty : start < m.span.end
  pub inside : m.span.end ≤ length bytes
  pub token_end : ends_token bytes m.span.end ≡ true
  pub declared : m.validation ≡ DataKind.evidence m.kind
  pub evidence : Evidence m.kind (slice bytes start m.span.end)

-- A finding inside the text, of the deterministic layer, that claims the evidence of its kind and
-- has it. Any but an email is a whole token.
pub record IsSound (bytes : Bytes) (f : Finding) : Type 0 where
  pub nonempty : f.span.start < f.span.end
  pub inside : f.span.end ≤ length bytes
  pub by_layer : f.layer ≡ deterministic
  pub declared : f.validation ≡ DataKind.evidence f.kind
  pub evidence : Evidence f.kind (slice bytes f.span.start f.span.end)
  pub token :
      (f.kind ≡ email)
      ⊎ ((starts_token bytes f.span.start ≡ true) × (ends_token bytes f.span.end ≡ true))
