-- ===== src/Scan/Digits.antt =====
-- `collect_digits` of deterministic.rs.
use sentin_npu.Prelude.{
  ℕ, zero, suc, ◌+◌, ◌-◌, Bool, true, false, ◌||◌, ◌&&◌, not, List, [], ◌∷◌, ◌++◌, leb, ◌==◌,
  if◌then◌else◌, length, get_or, is_empty, Bytes, is_ascii_digit,
}
use sentin_npu.Scan.Cursor.{byte_is, retreat_while}

abbrev pub max_digits : ℕ
max_digits = 19

abbrev pub is_separator : ℕ → Bool
is_separator b = b == b' ' || b == b'-'

-- The digit values, the end offset, and whether any separator was seen.
pub record Run : Type 0 where
  pub digits : List ℕ
  pub end : ℕ
  pub separated : Bool

-- The loop; `rounds` is what is left of the text.
unfoldable pub collect : ℕ → Bytes → Run → Run
collect zero bytes r = r
collect (suc rounds) bytes r =
    let digit =
      collect rounds bytes
        (record r { digits = r.digits ++ (get_or bytes r.end 0 - b'0') ∷ []; end = r.end + 1 }) in
    let separator = collect rounds bytes (record r { end = r.end + 1; separated = true }) in
    if not (leb (length r.digits) max_digits)
    then r
    else if byte_is is_ascii_digit bytes r.end
    then digit
    else if byte_is is_separator bytes r.end
        && (byte_is is_ascii_digit bytes (r.end + 1) && not (is_empty r.digits))
    then separator
    else r

-- A trailing separator is not part of the match.
unfoldable pub trim_separators : Bytes → ℕ → Run → Run
trim_separators bytes start r = record r {
  end = retreat_while is_separator bytes (r.end - start) r.end;
}

unfoldable pub collect_digits : Bytes → ℕ → Run
unfolding collect trim_separators retreat_while
collect_digits bytes start =
    trim_separators bytes start (
      collect (length bytes - start) bytes (record { digits = []; end = start; separated = false }))
