-- ===== src/Scan/Laws/Runs.antt =====
-- What `collect_digits` returns.
use sentin_npu.Prelude.{
  ℕ, zero, suc, ◌+◌, ◌-◌, ◌≤◌, ◌<◌, ◌≡◌, refl, ◌∙◌, Bool, true, false, ◌||◌, [], ◌∷◌, ◌++◌, arith,
  all, length, length-append, get_or, leb, is_empty, Bytes, Bool-cases, inl, inr, is_ascii_digit,
  not, ◌&&◌,
}
use sentin_npu.Scan.Cursor.{byte_is, slice, retreat_while}
use sentin_npu.Scan.Digits.{Run, is_separator, collect, collect_digits, max_digits}
use sentin_npu.Scan.Laws.Slices.{
  byte_is-Reads, digits_in, digits_in-slice_digit, digits_in-slice_other, all-slice,
  all-slice_shorter, slice_empty,
}

abbrev pub is_run_byte : ℕ → Bool
is_run_byte b = is_ascii_digit b || is_separator b

-- The digits are those of the text between `start` and the end, where only digits and separators
-- stand.
pub record IsRun (bytes : Bytes) (start : ℕ) (r : Run) : Type 0 where
  pub lower : start ≤ r.end
  pub inside : r.end ≤ length bytes
  pub content : r.digits ≡ digits_in (slice bytes start r.end)
  pub short : length r.digits ≤ 20
  pub only : all is_run_byte (slice bytes start r.end) ≡ true

separator_no_digit : (b : ℕ) → is_separator b ≡ true → is_ascii_digit b ≡ false
unfolding is_ascii_digit
separator_no_digit b h = ground arith

module _ (bytes : Bytes) (start : ℕ) where
  push-IsRun :
      (r : Run)
      → IsRun bytes start r
      → length r.digits ≤ 19
      → byte_is is_ascii_digit bytes r.end ≡ true
      → IsRun bytes start
          (record r { digits = r.digits ++ (get_or bytes r.end 0 - b'0') ∷ []; end = r.end + 1 })
  push-IsRun r v s h =
      let t = byte_is-Reads is_ascii_digit bytes r.end h in
      record {
        lower = omega arith;
        inside = omega arith;
        content = rw (
          digits_in-slice_digit is_ascii_digit bytes start r.end v.lower t t.passes,
          ← v.content,
        );
        short = omega (arith, length-append r.digits ((get_or bytes r.end 0 - b'0') ∷ []));
        only =
            all-slice is_ascii_digit bytes start r.end v.lower t is_run_byte (ground arith) v.only;
      }

  skip-IsRun :
      (r : Run)
      → IsRun bytes start r
      → byte_is is_separator bytes r.end ≡ true
      → IsRun bytes start (record r { end = r.end + 1; separated = true })
  skip-IsRun r v h =
      let t = byte_is-Reads is_separator bytes r.end h in
      let n = separator_no_digit t.byte t.passes in
      record {
        lower = omega arith;
        inside = omega arith;
        content = rw (digits_in-slice_other is_separator bytes start r.end v.lower t n) v.content;
        short = v.short;
        only = all-slice is_separator bytes start r.end v.lower t is_run_byte (ground arith) v.only;
      }

  collect-IsRun :
      (rounds : ℕ) (r : Run) → IsRun bytes start r → IsRun bytes start (collect rounds bytes r)
  unfolding collect
  collect-IsRun zero r v = v
  collect-IsRun (suc rounds) r v = elim (Bool-cases (leb (length r.digits) max_digits)) [
    | inr full ↦ rw full v
    | inl room ↦ elim (Bool-cases (byte_is is_ascii_digit bytes r.end)) [
      | inl d ↦ rw (room, d) (collect-IsRun rounds _ (push-IsRun r v (ground arith) d))
      | inr d ↦
          elim (Bool-cases (
            byte_is is_separator bytes r.end
            && (byte_is is_ascii_digit bytes (r.end + 1) && not (is_empty r.digits)))) [
              | inl s ↦ rw (room, d, s) (collect-IsRun rounds _ (skip-IsRun r v (ground arith)))
              | inr s ↦ rw (room, d, s) v
            ]
    ]
  ]

  drop-IsRun :
      (r : Run)
      → IsRun bytes start r
      → start < r.end
      → byte_is is_separator bytes (r.end - 1) ≡ true
      → IsRun bytes start (record r { end = r.end - 1 })
  drop-IsRun r v l h =
      let t = byte_is-Reads is_separator bytes (r.end - 1) h in
      let n = separator_no_digit t.byte t.passes in
      let e : r.end - 1 + 1 ≡ r.end = omega arith in
      let same = digits_in-slice_other is_separator bytes start (r.end - 1) (omega arith) t n in
      let fewer =
        all-slice_shorter is_separator bytes start (r.end - 1) (omega arith) t is_run_byte in
      record {
        lower = omega arith;
        inside = omega arith;
        content = v.content ∙ (rw e at same);
        short = v.short;
        only = (rw e at fewer) v.only;
      }

  -- Taking a separator off the end takes no digit.
  retreat-IsRun :
      (rounds : ℕ) (r : Run)
      → rounds ≤ r.end - start
      → IsRun bytes start r
      → IsRun bytes start (record r { end = retreat_while is_separator bytes rounds r.end })
  unfolding retreat_while
  retreat-IsRun zero r h v = v
  retreat-IsRun (suc rounds) r h v = elim (Bool-cases (byte_is is_separator bytes (r.end - 1))) [
    | inl s ↦ rw s (
        retreat-IsRun rounds (record r { end = r.end - 1 }) (omega arith)
          (drop-IsRun r v (omega arith) s))
    | inr s ↦ rw s v
  ]

  start-IsRun :
      start ≤ length bytes
      → IsRun bytes start (record { digits = []; end = start; separated = false })
  start-IsRun h = record {
    lower = omega arith;
    inside = h;
    content = rw slice_empty (unfold digits_in in refl);
    short = omega arith;
    only = rw slice_empty;
  }

  pub collect_digits-IsRun : start ≤ length bytes → IsRun bytes start (collect_digits bytes start)
  unfolding collect_digits
  collect_digits-IsRun h =
      let r =
        collect (length bytes - start) bytes
          (record { digits = []; end = start; separated = false }) in
      retreat-IsRun (r.end - start) r (omega arith)
        (collect-IsRun (length bytes - start) _ (start-IsRun h))
