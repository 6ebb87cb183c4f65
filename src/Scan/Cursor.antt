-- ===== src/Scan/Cursor.antt =====
-- Reading bytes at an index, the token boundaries, and the two shapes of the scanners' loops. The
-- code guards each `bytes[i]` by a test on the length; `byte_is` is the guard and the read at once.
use sentin_npu.Prelude.{
  ℕ, zero, suc, ◌+◌, ◌-◌, Bool, true, false, ◌||◌, ◌&&◌, not, [], ◌∷◌, none, some, leb, ◌==◌,
  if◌then◌else◌, length, get_elem?, take, drop, Bytes, is_ascii_alphanumeric,
}
use sentin_npu.Core.DataKind.{DataKind}
use sentin_npu.Core.Finding.{Range}
use sentin_npu.Core.Validation.{Validation}

-- `i < bytes.len() && p(bytes[i])`, that is `bytes.get(i).is_some_and(p)`
abbrev pub byte_is : (ℕ → Bool) → Bytes → ℕ → Bool
byte_is p bytes i = elim (get_elem? bytes i) [ none ↦ false | some b ↦ p b ]

-- `&bytes[start..end]`
abbrev pub slice : Bytes → ℕ → ℕ → Bytes
slice bytes start end = take (end - start) (drop start bytes)

abbrev pub bytes_eq : Bytes → Bytes → Bool
bytes_eq [] [] = true
bytes_eq (a ∷ s) (b ∷ t) = a == b && bytes_eq s t
bytes_eq _ _ = false

-- `while end < bytes.len() && p(bytes[end]) { end += 1; }`, at most `rounds` times: with as many
-- rounds as bytes are left the test on the length is the one that stops it.
unfoldable pub advance_while : (ℕ → Bool) → Bytes → ℕ → ℕ → ℕ
advance_while p bytes zero end = end
advance_while p bytes (suc rounds) end =
    let next = advance_while p bytes rounds (end + 1) in if byte_is p bytes end then next else end

-- `while end > start && p(bytes[end - 1]) { end -= 1; }` with `rounds` for `end - start`
unfoldable pub retreat_while : (ℕ → Bool) → Bytes → ℕ → ℕ → ℕ
retreat_while p bytes zero end = end
retreat_while p bytes (suc rounds) end =
    let next = retreat_while p bytes rounds (end - 1) in
    if byte_is p bytes (end - 1) then next else end

unfoldable pub starts_token : Bytes → ℕ → Bool
starts_token bytes index = index == 0 || not (byte_is is_ascii_alphanumeric bytes (index - 1))

unfoldable pub ends_token : Bytes → ℕ → Bool
ends_token bytes end = leb (length bytes) end || not (byte_is is_ascii_alphanumeric bytes end)

-- `NumericMatch`: a span, what it is, on which evidence, and the confidence in hundredths.
pub record NumericMatch : Type 0 where
  pub span : Range
  pub kind : DataKind
  pub validation : Validation
  pub confidence : ℕ

abbrev pub range : ℕ → ℕ → Range
range s e = record { start = s; end = e }
