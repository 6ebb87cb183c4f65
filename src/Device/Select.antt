-- ===== src/Device/Select.antt =====
-- The ranking of devices by measurement, gateway/crates/sentin-detect/src/select.rs. A time is a finite
-- `f64` there and a natural number here, in any unit: they are only compared. The text of a rejection is
-- kept as what it is made of.
use sentin_npu.Config.{starts_with, text_eq}
use sentin_npu.Gateway.Names.{after_first}
use sentin_npu.Prelude.{
  ℕ, Bool, true, false, ◌&&◌, ◌||◌, not, List, [], ◌∷◌, ◌++◌, map, Option, none, some, ltb, ◌==◌,
  if◌then◌else◌, is_empty, Bytes, codes, to_ascii_lowercase,
}

pub data Objective : Type 0 where
  cost latency : Objective

-- `Objective::parse`
unfoldable pub parse : Bytes → Option Objective
unfolding to_ascii_lowercase
parse value =
    let lower = map to_ascii_lowercase value in
    if text_eq lower (codes "cost") || text_eq lower (codes "energy")
    then some cost
    else if text_eq lower (codes "latency") || text_eq lower (codes "speed")
    then some latency
    else none

pub record Selection : Type 0 where
  pub measure : Bool
  pub objective : Objective
  pub ceiling_ms : ℕ

abbrev pub default_selection : Selection
default_selection = record { measure = true; objective = cost; ceiling_ms = 80 }

pub data Class : Type 0 where
  npu integrated_gpu cpu discrete_gpu : Class

abbrev pub cost_rank : Class → ℕ
cost_rank npu = 0
cost_rank integrated_gpu = 1
cost_rank cpu = 2
cost_rank discrete_gpu = 3

-- `str::contains`
abbrev pub has_text : Bytes → Bytes → Bool
has_text s needle = elim (after_first needle s) [ none ↦ false | some rest ↦ true ]

-- By the full name, when the plugin does not tell the type.
abbrev pub class_by_name : Bytes → Class
class_by_name name =
    if has_text name (codes "nvidia")
      || (has_text name (codes "radeon rx") || has_text name (codes "dgpu"))
    then discrete_gpu
    else if has_text name (codes "intel")
    then integrated_gpu
    else discrete_gpu

abbrev pub lower_or_empty : Option Bytes → Bytes
lower_or_empty none = []
lower_or_empty (some s) = map to_ascii_lowercase s

abbrev pub gpu_class : Option Bytes → Option Bytes → Class
gpu_class full_name none = class_by_name (lower_or_empty full_name)
gpu_class full_name (some device_type) =
    let kind = map to_ascii_lowercase device_type in
    if has_text kind (codes "integrated")
    then integrated_gpu
    else if has_text kind (codes "discrete")
    then discrete_gpu
    else class_by_name (lower_or_empty full_name)

unfoldable pub classify : Bytes → Option Bytes → Option Bytes → Class
unfolding starts_with after_first to_ascii_lowercase
classify device full_name device_type =
    if starts_with device (codes "NPU")
    then npu
    else if starts_with device (codes "CPU")
    then cpu
    else if not (starts_with device (codes "GPU"))
    then cpu
    else gpu_class full_name device_type

pub record Trial : Type 0 where
  pub device : Bytes
  pub full_name : Option Bytes
  pub class : Class
  pub compile_ms : Option ℕ
  pub steady_ms : Option ℕ
  pub error : Option Bytes

-- `error.is_none() && steady_ms.is_some()`
abbrev pub is_usable : Option Bytes → Option ℕ → Bool
is_usable none (some ms) = true
is_usable _ _ = false

abbrev pub usable : Trial → Bool
usable t = is_usable t.error t.steady_ms

pub data Reason : Type 0 where
  refused : Bytes → Reason
  not_measured : Reason
  -- Over the ceiling, with the time and the ceiling; `none_under` when nothing is under it.
  too_slow none_under : ℕ → ℕ → Reason

pub record Rejection : Type 0 where
  pub device : Bytes
  pub reason : Reason

pub record Choice : Type 0 where
  pub device : Option Bytes
  pub ranked : List Trial
  pub rejected : List Rejection
  pub objective : Objective
  pub ceiling_ms : ℕ
  pub over_ceiling : Bool
  pub from_cache : Bool

-- The three lists that the first loop fills.
pub record Piles : Type 0 where
  pub ranked : List Trial
  pub slow : List (Trial × ℕ)
  pub rejected : List Rejection

abbrev pub sorted_by : ℕ → Trial → Option Bytes → Option ℕ → Piles → Piles
sorted_by ceiling t (some e) _ p = record p {
  rejected = record { device = t.device; reason = refused e } ∷ p.rejected;
}
sorted_by ceiling t none none p = record p {
  rejected = record { device = t.device; reason = not_measured } ∷ p.rejected;
}
sorted_by ceiling t none (some ms) p =
    if ltb ceiling ms
    then record p { slow = (t, ms) ∷ p.slow }
    else record p { ranked = t ∷ p.ranked }

unfoldable pub piles : ℕ → List Trial → Piles
piles ceiling [] = record { ranked = []; slow = []; rejected = [] }
piles ceiling (t ∷ ts) = sorted_by ceiling t t.error t.steady_ms (piles ceiling ts)

-- A stable sort: an element goes in front of the first that it is not after.
module _ {ℓ} {A : Type ℓ} (after : A → A → Bool) where
  unfoldable pub insert : A → List A → List A
  insert x [] = x ∷ []
  insert x (y ∷ ys) = let rest = insert x ys in if after x y then y ∷ rest else x ∷ y ∷ ys

  unfoldable pub sort : List A → List A
  unfolding insert
  sort [] = []
  sort (x ∷ xs) = insert x (sort xs)

-- Whether a time is greater; a missing one counts as `f64::MAX`.
abbrev pub later : Option ℕ → Option ℕ → Bool
later none none = false
later none (some b) = true
later (some a) none = false
later (some a) (some b) = ltb b a

abbrev pub slower : Trial × ℕ → Trial × ℕ → Bool
slower a b = ltb b.1 a.1

-- Whether the comparison of two trials is `Greater`.
abbrev pub after : Objective → Trial → Trial → Bool
after latency a b = later a.steady_ms b.steady_ms
after cost a b =
    if cost_rank a.class == cost_rank b.class
    then later a.steady_ms b.steady_ms
    else ltb (cost_rank b.class) (cost_rank a.class)

abbrev pub rejection : (ℕ → ℕ → Reason) → ℕ → Trial × ℕ → Rejection
rejection why ceiling (t, ms) = record { device = t.device; reason = why ms ceiling }

-- With nothing inside the ceiling the slow ones are taken, the fastest first.
abbrev pub resolved : ℕ → Piles → Piles
resolved ceiling p =
    if is_empty p.ranked && not (is_empty p.slow)
    then (let slow = sort slower p.slow in
        record p {
          ranked = map (λ x. x.0) slow;
          rejected = p.rejected ++ map (rejection none_under ceiling) slow;
        })
    else record p { rejected = p.rejected ++ map (rejection too_slow ceiling) p.slow }

abbrev pub first_device : List Trial → Option Bytes
first_device [] = none
first_device (t ∷ ts) = some t.device

unfoldable pub rank : List Trial → Objective → ℕ → Choice
unfolding piles sort
rank trials objective ceiling =
    let p = piles ceiling trials in
    let q = resolved ceiling p in
    let ranked = sort (after objective) q.ranked in
    record {
      device = first_device ranked;
      ranked = ranked;
      rejected = q.rejected;
      objective = objective;
      ceiling_ms = ceiling;
      over_ceiling = is_empty p.ranked && not (is_empty p.slow);
      from_cache = false;
    }

-- `Choice::candidates`
abbrev pub candidates : Choice → List Bytes
candidates c = map (λ (t : Trial). t.device) c.ranked
