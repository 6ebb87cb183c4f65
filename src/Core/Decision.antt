-- ===== src/Core/Decision.antt =====
-- `Decision` of gateway/crates/sentin-core/src/lib.rs, with its derived order.
use sentin_npu.Prelude.{ℕ, Bool, ◌&&◌, leb, if◌then◌else◌}

-- What the pipeline decided to do about a request, from least to most restrictive.
pub data Decision : Type 0 where
  observed advised masked blocked : Decision

-- The place of a variant in the derived `Ord`.
abbrev pub rank : Decision → ℕ
rank observed = 0
rank advised = 1
rank masked = 2
rank blocked = 3

-- `Ord::min` and `Ord::max` of the derived order, and `>=`.
unfoldable pub min : Decision → Decision → Decision
min a b = if leb (rank a) (rank b) then a else b

unfoldable pub max : Decision → Decision → Decision
max a b = if leb (rank a) (rank b) then b else a

abbrev pub ge : Decision → Decision → Bool
ge a b = leb (rank b) (rank a)

abbrev pub eq : Decision → Decision → Bool
eq a b = leb (rank a) (rank b) && leb (rank b) (rank a)
