-- ===== src/Tests/InspectTests.antt =====
-- The theorems on `inspect_request` at a request whose PESEL is blocked, and at one where it is
-- masked.
use sentin_npu.Adapters.{open_ai, is_some}
use sentin_npu.Adapters.Readable.{IsReadable, text_pointers-IsReadable}
use sentin_npu.Core.Device
use sentin_npu.Core.Device.{Outcome, returns, panics}
use sentin_npu.Core.Decision.{Decision, observed, advised, masked, blocked}
use sentin_npu.Inspect.Consistent.{AnswersDeclared, entities}
use sentin_npu.Inspect.Laws.{
  inspect_request-strongest, inspect_request-All-IsWithin, inspect_request-blocked,
  inspect_request-masked_iff,
}
use sentin_npu.Inspect.Strongest.{strongest, IsWithin, Any, IsBlocker}
use sentin_npu.Inspect.Total.{IsPlaced, AnswersPlaced, FindsAligned, inspect_request-returns}
use sentin_npu.Inspect.Types.{Inspection, FindingSummary, clean}
use sentin_npu.Json.{Pointer, key, index, ◌>>=◌}
use sentin_npu.Json.Tree.{Tree, tree_json}
use sentin_npu.Prelude.{
  ◌≡◌, ◌↔◌, refl, inr, Bool, false, ◌&&◌, leb, length, arith, Bytes, if◌then◌else◌, List, [], ◌∷◌,
  map, true, All, some, codes,
}
use sentin_npu.Tests.Samples.{plain, config_with, somebody, somewhere, body}
use sentin_npu.Prelude.{
  is_ascii_digit, is_ascii_uppercase, is_ascii_lowercase, is_ascii_alphabetic,
  is_ascii_alphanumeric, to_ascii_uppercase, to_ascii_lowercase,
}
use sentin_npu.Checksums
use sentin_npu.Scan.Cursor
use sentin_npu.Scan.Digits
use sentin_npu.Scan.Numeric
use sentin_npu.Scan.Vat
use sentin_npu.Scan.Email
use sentin_npu.Scan.Iban
use sentin_npu.Scan.Detect
use sentin_npu.Core.Decision
use sentin_npu.Core.Layer
use sentin_npu.Core.Validation
use sentin_npu.Core.DataKind
use sentin_npu.Core.Finding
use sentin_npu.Config
use sentin_npu.Mask
use sentin_npu.Adapters
use sentin_npu.Inspect.Pipeline

abbrev outcome : Decision → Outcome (Inspection Tree)
outcome mode =
    Pipeline.inspect_request tree_json plain (config_with mode) (some somebody) open_ai body

abbrev or_clean : Outcome (Inspection Tree) → Inspection Tree
or_clean panics = clean
or_clean (returns i) = i

abbrev is_returned : Outcome (Inspection Tree) → Bool
is_returned panics = false
is_returned (returns i) = true

returned : (o : Outcome (Inspection Tree)) → is_returned o ≡ true → o ≡ returns (or_clean o)
returned (returns i) e = refl
returned panics e = absurd (ground arith)

abbrev inspection : Decision → Inspection Tree
inspection mode = or_clean (outcome mode)

blocked_is_returned : is_returned (outcome blocked) ≡ true
unfolding is_ascii_digit is_ascii_uppercase is_ascii_lowercase is_ascii_alphabetic
    is_ascii_alphanumeric to_ascii_uppercase to_ascii_lowercase Checksums.weighted_sum
    Checksums.is_leap_year Checksums.days_in_month Checksums.century_month Checksums.two
    Checksums.pesel_date_is_valid Checksums.pesel Checksums.nip Checksums.regon_weights
    Checksums.regon Checksums.luhn_value Checksums.luhn_sum Checksums.luhn Checksums.iban_step
    Checksums.iban_remainder Checksums.iban Cursor.advance_while Cursor.retreat_while
    Cursor.starts_token Cursor.ends_token Digits.collect Digits.trim_separators
    Digits.collect_digits Numeric.prefix Numeric.card_prefix_is_known Numeric.after_prefix
    Numeric.phone_run Numeric.scan_phone_with_prefix Numeric.classify Numeric.numeric_run
    Numeric.scan_numeric Vat.digits Vat.alnum Vat.vat_national_part_is_valid Vat.vat_end
    Vat.vat_match Vat.scan_vat_eu Email.is_local Email.is_domain Email.last_dot Email.has_double_dot
    Email.local_start Email.domain_end Email.plausible Email.scan_email Iban.collect Iban.groups_end
    Iban.collect_groups Iban.iban_match Iban.scan_iban Detect.finding Detect.scan_letters
    Detect.scan_number Detect.scan_at Detect.detect_from Detect.detect Decision.min Decision.max
    Layer.max_decision Validation.max_decision DataKind.layer DataKind.evidence
    DataKind.max_decision DataKind.eq Finding.max_decision Finding.clamp_decision Config.is_enabled
    Config.detector_key Config.get Config.mode_for Config.starts_with Config.find_provider
    Config.provider_for Mask.placeholder Mask.insert_span Mask.sort_spans Mask.replace_range
    Mask.mask_loop Mask.mask_spans Device.is_char_boundary Adapters.from_name
    Adapters.collect_blocks Adapters.openai_pointers Adapters.anthropic_pointers
    Adapters.google_pointers Adapters.text_pointers Adapters.anthropic_source
    Adapters.walk_message_blocks Adapters.google_part Adapters.google_attachments
    Adapters.attachments Adapters.read_text Adapters.write_text Pipeline.prompt_decision
    Pipeline.attachment_decision Pipeline.prompt_loop Pipeline.detected_round Pipeline.text_round
    Pipeline.attachment_loop Pipeline.extracted_round Pipeline.attachment_round Pipeline.text_loop
    Pipeline.attachments_loop Pipeline.rewrite_body Pipeline.settled Pipeline.inspected
    Pipeline.masked_body Pipeline.inspect_request
blocked_is_returned = refl

blocked_returns : outcome blocked ≡ returns (inspection blocked)
blocked_returns = returned (outcome blocked) blocked_is_returned

masked_is_returned : is_returned (outcome masked) ≡ true
unfolding is_ascii_digit is_ascii_uppercase is_ascii_lowercase is_ascii_alphabetic
    is_ascii_alphanumeric to_ascii_uppercase to_ascii_lowercase Checksums.weighted_sum
    Checksums.is_leap_year Checksums.days_in_month Checksums.century_month Checksums.two
    Checksums.pesel_date_is_valid Checksums.pesel Checksums.nip Checksums.regon_weights
    Checksums.regon Checksums.luhn_value Checksums.luhn_sum Checksums.luhn Checksums.iban_step
    Checksums.iban_remainder Checksums.iban Cursor.advance_while Cursor.retreat_while
    Cursor.starts_token Cursor.ends_token Digits.collect Digits.trim_separators
    Digits.collect_digits Numeric.prefix Numeric.card_prefix_is_known Numeric.after_prefix
    Numeric.phone_run Numeric.scan_phone_with_prefix Numeric.classify Numeric.numeric_run
    Numeric.scan_numeric Vat.digits Vat.alnum Vat.vat_national_part_is_valid Vat.vat_end
    Vat.vat_match Vat.scan_vat_eu Email.is_local Email.is_domain Email.last_dot Email.has_double_dot
    Email.local_start Email.domain_end Email.plausible Email.scan_email Iban.collect Iban.groups_end
    Iban.collect_groups Iban.iban_match Iban.scan_iban Detect.finding Detect.scan_letters
    Detect.scan_number Detect.scan_at Detect.detect_from Detect.detect Decision.min Decision.max
    Layer.max_decision Validation.max_decision DataKind.layer DataKind.evidence
    DataKind.max_decision DataKind.eq Finding.max_decision Finding.clamp_decision Config.is_enabled
    Config.detector_key Config.get Config.mode_for Config.starts_with Config.find_provider
    Config.provider_for Mask.placeholder Mask.insert_span Mask.sort_spans Mask.replace_range
    Mask.mask_loop Mask.mask_spans Device.is_char_boundary Adapters.from_name
    Adapters.collect_blocks Adapters.openai_pointers Adapters.anthropic_pointers
    Adapters.google_pointers Adapters.text_pointers Adapters.anthropic_source
    Adapters.walk_message_blocks Adapters.google_part Adapters.google_attachments
    Adapters.attachments Adapters.read_text Adapters.write_text Pipeline.prompt_decision
    Pipeline.attachment_decision Pipeline.prompt_loop Pipeline.detected_round Pipeline.text_round
    Pipeline.attachment_loop Pipeline.extracted_round Pipeline.attachment_round Pipeline.text_loop
    Pipeline.attachments_loop Pipeline.rewrite_body Pipeline.settled Pipeline.inspected
    Pipeline.masked_body Pipeline.inspect_request
masked_is_returned = refl

masked_returns : outcome masked ≡ returns (inspection masked)
masked_returns = returned (outcome masked) masked_is_returned

somebody-AnswersDeclared : AnswersDeclared (some somebody)
unfolding is_ascii_digit is_ascii_uppercase is_ascii_lowercase is_ascii_alphabetic
    is_ascii_alphanumeric to_ascii_uppercase to_ascii_lowercase Checksums.weighted_sum
    Checksums.is_leap_year Checksums.days_in_month Checksums.century_month Checksums.two
    Checksums.pesel_date_is_valid Checksums.pesel Checksums.nip Checksums.regon_weights
    Checksums.regon Checksums.luhn_value Checksums.luhn_sum Checksums.luhn Checksums.iban_step
    Checksums.iban_remainder Checksums.iban Cursor.advance_while Cursor.retreat_while
    Cursor.starts_token Cursor.ends_token Digits.collect Digits.trim_separators
    Digits.collect_digits Numeric.prefix Numeric.card_prefix_is_known Numeric.after_prefix
    Numeric.phone_run Numeric.scan_phone_with_prefix Numeric.classify Numeric.numeric_run
    Numeric.scan_numeric Vat.digits Vat.alnum Vat.vat_national_part_is_valid Vat.vat_end
    Vat.vat_match Vat.scan_vat_eu Email.is_local Email.is_domain Email.last_dot Email.has_double_dot
    Email.local_start Email.domain_end Email.plausible Email.scan_email Iban.collect Iban.groups_end
    Iban.collect_groups Iban.iban_match Iban.scan_iban Detect.finding Detect.scan_letters
    Detect.scan_number Detect.scan_at Detect.detect_from Detect.detect Decision.min Decision.max
    Layer.max_decision Validation.max_decision DataKind.layer DataKind.evidence
    DataKind.max_decision DataKind.eq Finding.max_decision Finding.clamp_decision Config.is_enabled
    Config.detector_key Config.get Config.mode_for Config.starts_with Config.find_provider
    Config.provider_for Mask.placeholder Mask.insert_span Mask.sort_spans Mask.replace_range
    Mask.mask_loop Mask.mask_spans Device.is_char_boundary Adapters.from_name
    Adapters.collect_blocks Adapters.openai_pointers Adapters.anthropic_pointers
    Adapters.google_pointers Adapters.text_pointers Adapters.anthropic_source
    Adapters.walk_message_blocks Adapters.google_part Adapters.google_attachments
    Adapters.attachments Adapters.read_text Adapters.write_text Pipeline.prompt_decision
    Pipeline.attachment_decision Pipeline.prompt_loop Pipeline.detected_round Pipeline.text_round
    Pipeline.attachment_loop Pipeline.extracted_round Pipeline.attachment_round Pipeline.text_loop
    Pipeline.attachments_loop Pipeline.rewrite_body Pipeline.settled Pipeline.inspected
    Pipeline.masked_body Pipeline.inspect_request
somebody-AnswersDeclared p t = ((refl, refl), tt)

abbrev decisions : Inspection Tree → List Decision
decisions i = map (λ (s : FindingSummary). s.decision) i.findings

-- The person is clamped to `masked` in the prompt, and in the file the person and the address are
-- only advised on.
decisions_blocked : decisions (inspection blocked) ≡ blocked ∷ masked ∷ advised ∷ advised ∷ []
unfolding is_ascii_digit is_ascii_uppercase is_ascii_lowercase is_ascii_alphabetic
    is_ascii_alphanumeric to_ascii_uppercase to_ascii_lowercase Checksums.weighted_sum
    Checksums.is_leap_year Checksums.days_in_month Checksums.century_month Checksums.two
    Checksums.pesel_date_is_valid Checksums.pesel Checksums.nip Checksums.regon_weights
    Checksums.regon Checksums.luhn_value Checksums.luhn_sum Checksums.luhn Checksums.iban_step
    Checksums.iban_remainder Checksums.iban Cursor.advance_while Cursor.retreat_while
    Cursor.starts_token Cursor.ends_token Digits.collect Digits.trim_separators
    Digits.collect_digits Numeric.prefix Numeric.card_prefix_is_known Numeric.after_prefix
    Numeric.phone_run Numeric.scan_phone_with_prefix Numeric.classify Numeric.numeric_run
    Numeric.scan_numeric Vat.digits Vat.alnum Vat.vat_national_part_is_valid Vat.vat_end
    Vat.vat_match Vat.scan_vat_eu Email.is_local Email.is_domain Email.last_dot Email.has_double_dot
    Email.local_start Email.domain_end Email.plausible Email.scan_email Iban.collect Iban.groups_end
    Iban.collect_groups Iban.iban_match Iban.scan_iban Detect.finding Detect.scan_letters
    Detect.scan_number Detect.scan_at Detect.detect_from Detect.detect Decision.min Decision.max
    Layer.max_decision Validation.max_decision DataKind.layer DataKind.evidence
    DataKind.max_decision DataKind.eq Finding.max_decision Finding.clamp_decision Config.is_enabled
    Config.detector_key Config.get Config.mode_for Config.starts_with Config.find_provider
    Config.provider_for Mask.placeholder Mask.insert_span Mask.sort_spans Mask.replace_range
    Mask.mask_loop Mask.mask_spans Device.is_char_boundary Adapters.from_name
    Adapters.collect_blocks Adapters.openai_pointers Adapters.anthropic_pointers
    Adapters.google_pointers Adapters.text_pointers Adapters.anthropic_source
    Adapters.walk_message_blocks Adapters.google_part Adapters.google_attachments
    Adapters.attachments Adapters.read_text Adapters.write_text Pipeline.prompt_decision
    Pipeline.attachment_decision Pipeline.prompt_loop Pipeline.detected_round Pipeline.text_round
    Pipeline.attachment_loop Pipeline.extracted_round Pipeline.attachment_round Pipeline.text_loop
    Pipeline.attachments_loop Pipeline.rewrite_body Pipeline.settled Pipeline.inspected
    Pipeline.masked_body Pipeline.inspect_request
decisions_blocked = refl

decision_blocked : (inspection blocked).decision ≡ blocked
unfolding is_ascii_digit is_ascii_uppercase is_ascii_lowercase is_ascii_alphabetic
    is_ascii_alphanumeric to_ascii_uppercase to_ascii_lowercase Checksums.weighted_sum
    Checksums.is_leap_year Checksums.days_in_month Checksums.century_month Checksums.two
    Checksums.pesel_date_is_valid Checksums.pesel Checksums.nip Checksums.regon_weights
    Checksums.regon Checksums.luhn_value Checksums.luhn_sum Checksums.luhn Checksums.iban_step
    Checksums.iban_remainder Checksums.iban Cursor.advance_while Cursor.retreat_while
    Cursor.starts_token Cursor.ends_token Digits.collect Digits.trim_separators
    Digits.collect_digits Numeric.prefix Numeric.card_prefix_is_known Numeric.after_prefix
    Numeric.phone_run Numeric.scan_phone_with_prefix Numeric.classify Numeric.numeric_run
    Numeric.scan_numeric Vat.digits Vat.alnum Vat.vat_national_part_is_valid Vat.vat_end
    Vat.vat_match Vat.scan_vat_eu Email.is_local Email.is_domain Email.last_dot Email.has_double_dot
    Email.local_start Email.domain_end Email.plausible Email.scan_email Iban.collect Iban.groups_end
    Iban.collect_groups Iban.iban_match Iban.scan_iban Detect.finding Detect.scan_letters
    Detect.scan_number Detect.scan_at Detect.detect_from Detect.detect Decision.min Decision.max
    Layer.max_decision Validation.max_decision DataKind.layer DataKind.evidence
    DataKind.max_decision DataKind.eq Finding.max_decision Finding.clamp_decision Config.is_enabled
    Config.detector_key Config.get Config.mode_for Config.starts_with Config.find_provider
    Config.provider_for Mask.placeholder Mask.insert_span Mask.sort_spans Mask.replace_range
    Mask.mask_loop Mask.mask_spans Device.is_char_boundary Adapters.from_name
    Adapters.collect_blocks Adapters.openai_pointers Adapters.anthropic_pointers
    Adapters.google_pointers Adapters.text_pointers Adapters.anthropic_source
    Adapters.walk_message_blocks Adapters.google_part Adapters.google_attachments
    Adapters.attachments Adapters.read_text Adapters.write_text Pipeline.prompt_decision
    Pipeline.attachment_decision Pipeline.prompt_loop Pipeline.detected_round Pipeline.text_round
    Pipeline.attachment_loop Pipeline.extracted_round Pipeline.attachment_round Pipeline.text_loop
    Pipeline.attachments_loop Pipeline.rewrite_body Pipeline.settled Pipeline.inspected
    Pipeline.masked_body Pipeline.inspect_request
decision_blocked = refl

inspect_request-blocked_example :
    Any (IsBlocker (config_with blocked)) (inspection blocked).findings
inspect_request-blocked_example =
    inspect_request-blocked tree_json plain (config_with blocked) (some somebody)
      somebody-AnswersDeclared open_ai body (inspection blocked) blocked_returns decision_blocked

inspect_request-strongest_example :
    (inspection blocked).decision ≡ strongest (inspection blocked).findings
inspect_request-strongest_example =
    inspect_request-strongest tree_json plain (config_with blocked) (some somebody)
      somebody-AnswersDeclared open_ai body (inspection blocked) blocked_returns

inspect_request-All-IsWithin_example :
    All (IsWithin (config_with masked)) (inspection masked).findings
inspect_request-All-IsWithin_example =
    inspect_request-All-IsWithin tree_json plain (config_with masked) (some somebody)
      somebody-AnswersDeclared open_ai body (inspection masked) masked_returns

inspect_request-masked_iff_example :
    (is_some (inspection masked).masked_body ≡ true) ↔ ((inspection masked).decision ≡ masked)
inspect_request-masked_iff_example =
    inspect_request-masked_iff tree_json plain (config_with masked) (some somebody)
      somebody-AnswersDeclared open_ai body (inspection masked) masked_returns

-- The text that goes out for the masked request.
masked_text :
    (inspection masked).masked_body >>= (λ b. Adapters.read_text tree_json b (
      key (codes "messages") ∷ index 0 ∷ key (codes "content") ∷ index 0 ∷ key (codes "text") ∷ []))
    ≡ some (codes "[PERSON], PESEL [PESEL]")
unfolding is_ascii_digit is_ascii_uppercase is_ascii_lowercase is_ascii_alphabetic
    is_ascii_alphanumeric to_ascii_uppercase to_ascii_lowercase Checksums.weighted_sum
    Checksums.is_leap_year Checksums.days_in_month Checksums.century_month Checksums.two
    Checksums.pesel_date_is_valid Checksums.pesel Checksums.nip Checksums.regon_weights
    Checksums.regon Checksums.luhn_value Checksums.luhn_sum Checksums.luhn Checksums.iban_step
    Checksums.iban_remainder Checksums.iban Cursor.advance_while Cursor.retreat_while
    Cursor.starts_token Cursor.ends_token Digits.collect Digits.trim_separators
    Digits.collect_digits Numeric.prefix Numeric.card_prefix_is_known Numeric.after_prefix
    Numeric.phone_run Numeric.scan_phone_with_prefix Numeric.classify Numeric.numeric_run
    Numeric.scan_numeric Vat.digits Vat.alnum Vat.vat_national_part_is_valid Vat.vat_end
    Vat.vat_match Vat.scan_vat_eu Email.is_local Email.is_domain Email.last_dot Email.has_double_dot
    Email.local_start Email.domain_end Email.plausible Email.scan_email Iban.collect Iban.groups_end
    Iban.collect_groups Iban.iban_match Iban.scan_iban Detect.finding Detect.scan_letters
    Detect.scan_number Detect.scan_at Detect.detect_from Detect.detect Decision.min Decision.max
    Layer.max_decision Validation.max_decision DataKind.layer DataKind.evidence
    DataKind.max_decision DataKind.eq Finding.max_decision Finding.clamp_decision Config.is_enabled
    Config.detector_key Config.get Config.mode_for Config.starts_with Config.find_provider
    Config.provider_for Mask.placeholder Mask.insert_span Mask.sort_spans Mask.replace_range
    Mask.mask_loop Mask.mask_spans Device.is_char_boundary Adapters.from_name
    Adapters.collect_blocks Adapters.openai_pointers Adapters.anthropic_pointers
    Adapters.google_pointers Adapters.text_pointers Adapters.anthropic_source
    Adapters.walk_message_blocks Adapters.google_part Adapters.google_attachments
    Adapters.attachments Adapters.read_text Adapters.write_text Pipeline.prompt_decision
    Pipeline.attachment_decision Pipeline.prompt_loop Pipeline.detected_round Pipeline.text_round
    Pipeline.attachment_loop Pipeline.extracted_round Pipeline.attachment_round Pipeline.text_loop
    Pipeline.attachments_loop Pipeline.rewrite_body Pipeline.settled Pipeline.inspected
    Pipeline.masked_body Pipeline.inspect_request
masked_text = refl

first_five :
    (p : Pointer) (text : Bytes) (b : Bool)
    → (leb 5 (length text) && Device.is_char_boundary text 5) ≡ b
    → All (IsPlaced text) (entities (if b then somebody p text else inr []))
unfolding Device.is_char_boundary
first_five p text true e = (
  record {
    ordered = omega arith;
    inside = ground arith;
    aligned = record { first = refl; last = ground arith };
  },
  tt,
)
first_five p text false e = tt

pub somewhere-AnswersPlaced : AnswersPlaced (some somewhere)
somewhere-AnswersPlaced p text = first_five p text _ refl

pub body-FindsAligned :
    (schema : Adapters.Provider)
    → All
        (λ p. FindsAligned (Adapters.read_text tree_json body p))
        (Adapters.text_pointers tree_json schema body)
unfolding is_ascii_digit is_ascii_uppercase is_ascii_lowercase is_ascii_alphabetic
    is_ascii_alphanumeric to_ascii_uppercase to_ascii_lowercase Checksums.weighted_sum
    Checksums.is_leap_year Checksums.days_in_month Checksums.century_month Checksums.two
    Checksums.pesel_date_is_valid Checksums.pesel Checksums.nip Checksums.regon_weights
    Checksums.regon Checksums.luhn_value Checksums.luhn_sum Checksums.luhn Checksums.iban_step
    Checksums.iban_remainder Checksums.iban Cursor.advance_while Cursor.retreat_while
    Cursor.starts_token Cursor.ends_token Digits.collect Digits.trim_separators
    Digits.collect_digits Numeric.prefix Numeric.card_prefix_is_known Numeric.after_prefix
    Numeric.phone_run Numeric.scan_phone_with_prefix Numeric.classify Numeric.numeric_run
    Numeric.scan_numeric Vat.digits Vat.alnum Vat.vat_national_part_is_valid Vat.vat_end
    Vat.vat_match Vat.scan_vat_eu Email.is_local Email.is_domain Email.last_dot Email.has_double_dot
    Email.local_start Email.domain_end Email.plausible Email.scan_email Iban.collect Iban.groups_end
    Iban.collect_groups Iban.iban_match Iban.scan_iban Detect.finding Detect.scan_letters
    Detect.scan_number Detect.scan_at Detect.detect_from Detect.detect Decision.min Decision.max
    Layer.max_decision Validation.max_decision DataKind.layer DataKind.evidence
    DataKind.max_decision DataKind.eq Finding.max_decision Finding.clamp_decision Config.is_enabled
    Config.detector_key Config.get Config.mode_for Config.starts_with Config.find_provider
    Config.provider_for Mask.placeholder Mask.insert_span Mask.sort_spans Mask.replace_range
    Mask.mask_loop Mask.mask_spans Device.is_char_boundary Adapters.from_name
    Adapters.collect_blocks Adapters.openai_pointers Adapters.anthropic_pointers
    Adapters.google_pointers Adapters.text_pointers Adapters.anthropic_source
    Adapters.walk_message_blocks Adapters.google_part Adapters.google_attachments
    Adapters.attachments Adapters.read_text Adapters.write_text Pipeline.prompt_decision
    Pipeline.attachment_decision Pipeline.prompt_loop Pipeline.detected_round Pipeline.text_round
    Pipeline.attachment_loop Pipeline.extracted_round Pipeline.attachment_round Pipeline.text_loop
    Pipeline.attachments_loop Pipeline.rewrite_body Pipeline.settled Pipeline.inspected
    Pipeline.masked_body Pipeline.inspect_request
body-FindsAligned Adapters.open_ai = ((record { first = refl; last = refl }, tt), tt)
body-FindsAligned Adapters.anthropic = ((record { first = refl; last = refl }, tt), tt)
body-FindsAligned Adapters.google = tt

inspect_request-returns_example :
    (i : Inspection Tree) × (Pipeline.inspect_request tree_json plain
        (config_with masked)
        (some somewhere)
        open_ai
        body
      ≡ returns i)
inspect_request-returns_example =
    inspect_request-returns tree_json plain (config_with masked) (some somewhere)
      somewhere-AnswersPlaced open_ai body (body-FindsAligned open_ai)

text_pointers-IsReadable_example :
    All (IsReadable tree_json body) (Adapters.text_pointers tree_json open_ai body)
text_pointers-IsReadable_example = text_pointers-IsReadable tree_json body open_ai
