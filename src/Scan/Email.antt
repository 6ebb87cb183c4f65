-- ===== src/Scan/Email.antt =====
-- `scan_email` of deterministic.rs.
use sentin_npu.Prelude.{
  ℕ, ◌+◌, ◌-◌, Bool, false, ◌||◌, ◌&&◌, not, [], ◌∷◌, Option, none, some, ltb, leb, ◌==◌,
  if◌then◌else◌, length, drop, all, Bytes, is_ascii_alphabetic, is_ascii_alphanumeric,
}
use sentin_npu.Core.Finding.{Range}
use sentin_npu.Scan.Cursor.{byte_is, slice, advance_while, retreat_while, range}

unfoldable pub is_local : ℕ → Bool
is_local b =
    is_ascii_alphanumeric b || (b == b'.' || (b == b'_' || (b == b'%' || (b == b'+' || b == b'-'))))

unfoldable pub is_domain : ℕ → Bool
is_domain b = is_ascii_alphanumeric b || (b == b'.' || b == b'-')

abbrev pub is_punctuation : ℕ → Bool
is_punctuation b = b == b'.' || (b == b'-' || b == b'+')

-- `iter().rposition(|b| *b == b'.')`
unfoldable pub last_dot : Bytes → Option ℕ
last_dot [] = none
last_dot (b ∷ s) = elim (last_dot s) [
  | some i ↦ some (i + 1)
  | none ↦ if b == b'.' then some 0 else none
]

-- `windows(2).any(|w| w == b"..")`
unfoldable pub has_double_dot : Bytes → Bool
has_double_dot [] = false
has_double_dot (a ∷ []) = false
has_double_dot (a ∷ (b ∷ s)) = a == b'.' && b == b'.' || has_double_dot (b ∷ s)

unfoldable pub local_start : Bytes → ℕ → ℕ
unfolding is_local retreat_while advance_while
local_start bytes at =
    let start = retreat_while is_local bytes at at in
    advance_while is_punctuation bytes (at - start) start

unfoldable pub domain_end : Bytes → ℕ → ℕ
unfolding is_domain retreat_while advance_while
domain_end bytes at =
    let end = advance_while is_domain bytes (length bytes - (at + 1)) (at + 1) in
    retreat_while (λ b. b == b'.') bytes (end - (at + 1)) end

-- The test on what stands behind the last dot and on the whole domain.
unfoldable pub plausible : Bytes → ℕ → Bool
unfolding has_double_dot
plausible domain dot =
    let tld = drop (dot + 1) domain in
    leb 2 (length tld)
    && (all is_ascii_alphabetic tld
        && (not (byte_is (λ b. b == b'.') domain 0) && not (has_double_dot domain)))

-- The end of `scan_email`, from the last dot of the domain on.
abbrev pub email_at : ℕ → ℕ → ℕ → Bytes → Option ℕ → Option Range
email_at at start end domain none = none
email_at at start end domain (some dot) =
    if ltb start at && plausible domain dot then some (range start end) else none

unfoldable pub scan_email : Bytes → ℕ → Option Range
scan_email bytes at =
    let end = domain_end bytes at in
    let domain = slice bytes (at + 1) end in
    email_at at (local_start bytes at) end domain (last_dot domain)
