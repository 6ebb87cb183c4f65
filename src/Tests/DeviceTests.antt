-- ===== src/Tests/DeviceTests.antt =====
-- A laptop with three devices, one of them over the ceiling, and requests by name.
use mathlib.Core.List.{Perm}
use sentin_npu.Device.Order.{IsRanked}
use sentin_npu.Device.Best.{eligible, meets, filter, rank-IsRanked}
use sentin_npu.Device.Present.{IsPresent, device_candidates-IsPresent}
use sentin_npu.Device.Resolve
use sentin_npu.Device.Resolve.{resolve_device, device_candidates}
use sentin_npu.Device.Select
use sentin_npu.Device.Select.{
  Class, npu, cpu, discrete_gpu, cost, latency, Trial, usable, first_device, rank,
}
use sentin_npu.Config
use sentin_npu.Config.{text_eq}
use sentin_npu.Core.Device
use sentin_npu.Prelude.{
  ℕ, ◌≡◌, refl, ◌&&◌, not, false, true, List, [], ◌∷◌, map, none, some, is_empty, All, Bytes, codes,
  to_ascii_lowercase,
}

abbrev trial : Bytes → Class → ℕ → Trial
trial device class ms = record {
  device = device;
  full_name = none;
  class = class;
  compile_ms = some 100;
  steady_ms = some ms;
  error = none;
}

abbrev trials : List Trial
trials =
    trial (codes "GPU") discrete_gpu 225
    ∷ trial (codes "CPU") cpu 9
    ∷ trial (codes "NPU") npu 12
    ∷ []

rank_devices :
    map (λ (t : Trial). t.device) (rank trials cost 80).ranked ≡ codes "NPU" ∷ codes "CPU" ∷ []
unfolding Select.piles Select.insert Select.sort Select.rank
rank_devices = refl

rank_fastest : (rank trials latency 80).device ≡ some (codes "CPU")
unfolding Select.piles Select.insert Select.sort Select.rank
rank_fastest = refl

rank_none_under : (rank trials latency 5).over_ceiling ≡ true
unfolding Select.piles Select.insert Select.sort Select.rank
rank_none_under = refl

rank-IsRanked_example :
    Perm (rank trials cost 80).ranked (eligible 80 trials)
    × IsRanked cost (rank trials cost 80).ranked
    × ((rank trials cost 80).device ≡ first_device (rank trials cost 80).ranked)
    × ((rank trials cost 80).over_ceiling
        ≡ (is_empty (filter (meets 80) trials) && not (is_empty (filter usable trials))))
rank-IsRanked_example = rank-IsRanked trials cost 80

abbrev available : List Bytes
available = codes "CPU" ∷ codes "GPU.0" ∷ []

-- A device asked for by its full name is tried again under its short one.
candidates_twice :
    device_candidates (codes "GPU.0") available
    ≡ (codes "GPU.0" ∷ codes "GPU" ∷ codes "CPU" ∷ [], false)
unfolding to_ascii_lowercase Config.starts_with Device.eq_ignore_ascii_case Resolve.first_present
    Resolve.resolve_device Resolve.others Resolve.device_candidates
candidates_twice = refl

device_candidates-IsPresent_example :
    All (IsPresent available) (device_candidates (codes "auto") available).0
    × ((device_candidates (codes "auto") available).1 ≡ (resolve_device (codes "auto") available).1)
    × ((rest : List Bytes) × ((device_candidates (codes "auto") available).0
          ≡ (resolve_device (codes "auto") available).0 ∷ rest)
        × All (λ c. text_eq c (resolve_device (codes "auto") available).0 ≡ false) rest)
device_candidates-IsPresent_example = device_candidates-IsPresent (codes "auto") available
