-- ===== src/Tests/MaskTests.antt =====
-- Masking on a short text: an address, the card number in it, and a telephone number behind them.
use sentin_npu.Config
use sentin_npu.Core.DataKind.{email, payment_card, phone_pl}
use sentin_npu.Core.Device
use sentin_npu.Core.Device.{returns, panics}
use sentin_npu.Mask
use sentin_npu.Mask.{Span, usize_max, sort_spans, mask_spans}
use sentin_npu.Mask.Overlap.{mask_spans_overlap}
use sentin_npu.Mask.Reference.{kept, masked_from, IsInside, mask_spans-masked_from}
use sentin_npu.Prelude.{◌≡◌, refl, [], ◌∷◌, reverse, arith, Bytes, codes, to_ascii_uppercase}

abbrev message : Bytes
message = codes "jan.4111111111111111@x.pl or 123 456 789"

abbrev address : Span
address = (record { start = 0; end = 25 }, email)

abbrev card : Span
card = (record { start = 4; end = 20 }, payment_card)

abbrev phone : Span
phone = (record { start = 29; end = 40 }, phone_pl)

-- The name and the domain of the address go out, though its finding is to be masked.
masked_address :
    mask_spans message (card ∷ address ∷ phone ∷ [])
    ≡ returns (codes "jan.[PAYMENT_CARD]@x.pl or [PHONE_PL]")
unfolding Mask.mask_spans Mask.mask_loop Mask.sort_spans Mask.insert_span Mask.replace_range
    Mask.placeholder Config.detector_key to_ascii_uppercase Device.is_char_boundary
masked_address = refl

-- A span that ends behind the text, and one that ends in the middle of a character.
outside : mask_spans (codes "jan") ((record { start = 0; end = 4 }, email) ∷ []) ≡ panics
unfolding Mask.mask_spans Mask.mask_loop Mask.sort_spans Mask.insert_span Mask.replace_range
outside = refl

inside_character :
    mask_spans (195 ∷ 179 ∷ []) ((record { start = 0; end = 1 }, email) ∷ []) ≡ panics
unfolding Mask.mask_spans Mask.mask_loop Mask.sort_spans Mask.insert_span Mask.replace_range
    Device.is_char_boundary
inside_character = refl

address-IsInside : IsInside message address
unfolding Device.is_char_boundary
address-IsInside = (omega arith, omega arith, refl, refl)

card-IsInside : IsInside message card
unfolding Device.is_char_boundary
card-IsInside = (omega arith, omega arith, refl, refl)

phone-IsInside : IsInside message phone
unfolding Device.is_char_boundary
phone-IsInside = (omega arith, omega arith, refl, refl)

mask_spans-masked_from_example :
    mask_spans message (address ∷ phone ∷ [])
    ≡ returns (masked_from message 0 (reverse (kept (sort_spans (address ∷ phone ∷ [])) usize_max)))
mask_spans-masked_from_example =
    mask_spans-masked_from message (address ∷ phone ∷ []) (address-IsInside, (phone-IsInside, tt))

mask_spans_overlap_example :
    mask_spans message (address ∷ card ∷ []) ≡ returns (masked_from message 0 (card ∷ []))
mask_spans_overlap_example =
    mask_spans_overlap message address card address-IsInside card-IsInside (omega arith)
      (omega arith) (omega arith)
