-- ===== src/Core/Device.antt =====
-- `Device` of gateway/crates/sentin-core/src/lib.rs and the reading of a device name.
use sentin_npu.Trim.{trim_by, trim}
use sentin_npu.Prelude.{
  ℕ, Bool, true, false, ◌&&◌, ◌||◌, List, [], ◌∷◌, Option, none, some, ltb, between, not, ◌==◌,
  if◌then◌else◌, length, take, get_or, Bytes, codes, to_ascii_lowercase,
}

-- Inference device, as requested by configuration.
pub data Device : Type 0 where
  npu gpu cpu auto : Device

-- `eq_ignore_ascii_case`
unfoldable pub eq_ignore_ascii_case : Bytes → Bytes → Bool
unfolding to_ascii_lowercase
eq_ignore_ascii_case [] [] = true
eq_ignore_ascii_case (a ∷ s) (b ∷ t) =
    to_ascii_lowercase a == to_ascii_lowercase b && eq_ignore_ascii_case s t
eq_ignore_ascii_case _ _ = false

-- `str::is_char_boundary`: the ends, and every byte that is no continuation byte. Slicing a `str`
-- anywhere else panics.
unfoldable pub is_char_boundary : Bytes → ℕ → Bool
is_char_boundary s i = i == 0 || i == length s || not (between 128 191 (get_or s i 128))

-- What a call comes to: it returns a value, or the slice in it panics.
pub data Outcome {ℓ} (A : Type ℓ) : Type ℓ where
  returns : A → Outcome A
  panics : Outcome A

-- A panic ends the call.
abbrev pub and_then {ℓ κ} : {A : Type ℓ} {B : Type κ} → Outcome A → (A → Outcome B) → Outcome B
and_then panics f = panics
and_then (returns a) f = f a

-- The loop over the prefixes. `name[..prefix.len()]` is evaluated only when `name` is long enough.
unfoldable pub parse_prefixes : List (Bytes × Device) → Bytes → Outcome (Option Device)
unfolding eq_ignore_ascii_case is_char_boundary
parse_prefixes [] name = returns none
parse_prefixes ((prefix, device) ∷ rest) name =
    let next = parse_prefixes rest name in
    if ltb (length name) (length prefix)
    then next
    else if not (is_char_boundary name (length prefix))
    then panics
    else if eq_ignore_ascii_case (take (length prefix) name) prefix
    then returns (some device)
    else next

abbrev pub device_prefixes : List (Bytes × Device)
device_prefixes =
    (codes "NPU", npu) ∷ (codes "GPU", gpu) ∷ (codes "CPU", cpu) ∷ (codes "AUTO", auto) ∷ []

-- `Device::parse_name`
unfoldable pub parse_name : Bytes → Outcome (Option Device)
unfolding trim_by parse_prefixes
parse_name name = parse_prefixes device_prefixes (trim name)
