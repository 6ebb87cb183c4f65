-- ===== src/Device/Resolve.antt =====
-- A device that is asked for by name, gateway/crates/sentin-detect/src/ov.rs.
use sentin_npu.Config.{starts_with, text_eq}
use sentin_npu.Core.Device.{eq_ignore_ascii_case}
use sentin_npu.Prelude.{
  Bool, true, false, not, ◌&&◌, List, [], ◌∷◌, Option, none, some, if◌then◌else◌, any, Bytes, codes,
}

abbrev pub auto_order : List Bytes
auto_order = codes "NPU" ∷ codes "GPU" ∷ codes "CPU" ∷ []

abbrev pub has : List Bytes → Bytes → Bool
has available needle = any (λ d. starts_with d needle) available

-- The first of the order that is there.
unfoldable pub first_present : List Bytes → List Bytes → Option Bytes
unfolding starts_with
first_present available [] = none
first_present available (c ∷ cs) = if has available c then some c else first_present available cs

abbrev pub automatic : Option Bytes → Bytes × Bool
automatic none = (codes "CPU", true)
automatic (some c) = (c, not (text_eq c (codes "NPU")))

abbrev pub fallback : Option Bytes → Bytes × Bool
fallback none = (codes "CPU", true)
fallback (some c) = (c, true)

unfoldable pub resolve_device : Bytes → List Bytes → Bytes × Bool
unfolding eq_ignore_ascii_case first_present starts_with
resolve_device requested available =
    if eq_ignore_ascii_case requested (codes "AUTO")
    then automatic (first_present available auto_order)
    else if has available requested
    then (requested, false)
    else fallback (first_present available auto_order)

unfoldable pub others : Bytes → List Bytes → List Bytes → List Bytes
unfolding starts_with
others first available [] = []
others first available (c ∷ cs) =
    let rest = others first available cs in
    if not (text_eq c first) && has available c then c ∷ rest else rest

unfoldable pub device_candidates : Bytes → List Bytes → List Bytes × Bool
unfolding resolve_device others
device_candidates requested available =
    let (first, fell_back) = resolve_device requested available in
    (first ∷ others first available auto_order, fell_back)
