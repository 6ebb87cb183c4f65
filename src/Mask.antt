-- ===== src/Mask.antt =====
-- `mask_spans` and `placeholder` of gateway/crates/sentin-proxy/src/inspect.rs. A text is its
-- bytes. `String::replace_range` panics on a range that is not inside the text or not on character
-- boundaries, and so `mask_spans` returns an Outcome.
pub mod Reference
pub mod Overlap
use sentin_npu.Prelude.{
  ℕ, ◌-◌, ◌^◌, ◌&&◌, Bool, List, [], ◌∷◌, ◌++◌, map, ltb, leb, if◌then◌else◌, take, drop, length,
  Bytes, codes, to_ascii_uppercase,
}
use sentin_npu.Config.{detector_key}
use sentin_npu.Core.DataKind.{DataKind}
use sentin_npu.Core.Device.{Outcome, returns, panics, and_then, is_char_boundary}
use sentin_npu.Core.Finding.{Range}

abbrev pub Span : Type 0
Span = Range × DataKind

-- `usize::MAX` of a 64-bit machine.
abbrev pub usize_max : ℕ
usize_max = 2 ^ 64 - 1

-- `format!("[{}]", detector_key(kind).to_uppercase())`; the keys are ASCII.
unfoldable pub placeholder : DataKind → Bytes
unfolding detector_key to_ascii_uppercase
placeholder kind = codes "[" ++ (map to_ascii_uppercase (detector_key kind) ++ codes "]")

-- `sort_by_key(|(span, _)| Reverse(span.start))`: stable, the rightmost span first.
unfoldable pub insert_span : Span → List Span → List Span
insert_span x [] = x ∷ []
insert_span x (y ∷ ys) = if leb y.0.start x.0.start then x ∷ (y ∷ ys) else y ∷ insert_span x ys

unfoldable pub sort_spans : List Span → List Span
unfolding insert_span
sort_spans [] = []
sort_spans (x ∷ xs) = insert_span x (sort_spans xs)

-- `String::replace_range`: a range that begins behind its end, that ends behind the text or that is
-- off the boundaries of characters panics.
unfoldable pub replace_range : Bytes → Range → Bytes → Outcome Bytes
unfolding is_char_boundary
replace_range out r s =
    if (leb r.start r.end && leb r.end (length out))
      && (is_char_boundary out r.start && is_char_boundary out r.end)
    then returns (take r.start out ++ (s ++ drop r.end out))
    else panics

-- The loop over the sorted spans.
unfoldable pub mask_loop : List Span → ℕ → Bytes → Outcome Bytes
unfolding replace_range placeholder
mask_loop [] last_start out = returns out
mask_loop ((span, kind) ∷ rest) last_start out =
    let skip = mask_loop rest last_start out in
    let mask =
      and_then (replace_range out span (placeholder kind)) (λ out. mask_loop rest span.start out) in
    if ltb last_start span.end then skip else mask

unfoldable pub mask_spans : Bytes → List Span → Outcome Bytes
unfolding sort_spans mask_loop
mask_spans text spans = mask_loop (sort_spans spans) usize_max text
