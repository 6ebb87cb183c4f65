-- ===== src/Scan/Laws/Loops.antt =====
-- The two loops of the scanners: where they stop.
use sentin_npu.Prelude.{ℕ, zero, suc, ◌+◌, ◌-◌, ◌≤◌, Bool, arith, Bytes}
use sentin_npu.Scan.Cursor.{advance_while, retreat_while}

pub advance_while_bounds :
    (p : ℕ → Bool) (bytes : Bytes) (rounds e : ℕ)
    → (e ≤ advance_while p bytes rounds e) × (advance_while p bytes rounds e ≤ e + rounds)
unfolding advance_while
advance_while_bounds p bytes zero e = omega arith
advance_while_bounds p bytes (suc rounds) e =
    ground (arith, advance_while_bounds p bytes rounds (e + 1))

pub retreat_while_bounds :
    (p : ℕ → Bool) (bytes : Bytes) (rounds e : ℕ)
    → (e - rounds ≤ retreat_while p bytes rounds e) × (retreat_while p bytes rounds e ≤ e)
unfolding retreat_while
retreat_while_bounds p bytes zero e = omega arith
retreat_while_bounds p bytes (suc rounds) e =
    ground (arith, retreat_while_bounds p bytes rounds (e - 1))
