-- ===== src/Scan/Iban.antt =====
-- `scan_iban` of deterministic.rs.
use sentin_npu.Prelude.{
  ℕ, zero, suc, ◌+◌, ◌-◌, Bool, true, false, ◌||◌, ◌&&◌, not, [], ◌∷◌, ◌++◌, Option, none, some,
  ltb, ◌==◌, if◌then◌else◌, length, get_or, Bytes, is_ascii_digit, is_ascii_uppercase,
  is_ascii_alphanumeric, to_ascii_uppercase,
}
use sentin_npu.Checksums
use sentin_npu.Core.Finding.{Range}
use sentin_npu.Scan.Cursor.{byte_is, ends_token, range}

abbrev pub max_iban : ℕ
max_iban = 34

pub record Groups : Type 0 where
  pub compact : Bytes
  pub end : ℕ
  pub group_len : ℕ
  pub grouped : Bool

-- The loop; `rounds` is what is left of the text.
unfoldable pub collect : ℕ → Bytes → Groups → Groups
collect zero bytes g = g
collect (suc rounds) bytes g =
    let char = collect rounds bytes (record g {
      compact = g.compact ++ to_ascii_uppercase (get_or bytes g.end 0) ∷ [];
      end = g.end + 1;
      group_len = g.group_len + 1;
    }) in
    let space =
      collect rounds bytes (record g { end = g.end + 1; group_len = 0; grouped = true }) in
    if not (ltb (length g.compact) max_iban)
    then g
    else if byte_is is_ascii_alphanumeric bytes g.end
    then char
    else if byte_is (λ b. b == b' ') bytes g.end
        && (g.group_len == 4 && byte_is is_ascii_alphanumeric bytes (g.end + 1))
    then space
    else g

-- Where the match ends: a trailing space is left out.
unfoldable pub groups_end : Groups → ℕ
groups_end g = if g.grouped && g.group_len == 0 then g.end - 1 else g.end

unfoldable pub collect_groups : Bytes → ℕ → Groups
unfolding collect
collect_groups bytes start =
    collect (length bytes - start) bytes
      (record { compact = []; end = start; group_len = 0; grouped = false })

unfoldable pub iban_match : Bytes → ℕ → Groups → Option Range
unfolding groups_end
iban_match bytes start g =
    if ends_token bytes (groups_end g) && Checksums.iban g.compact
    then some (range start (groups_end g))
    else none

unfoldable pub scan_iban : Bytes → ℕ → Option Range
unfolding collect_groups iban_match
scan_iban bytes start =
    if not (byte_is is_ascii_uppercase bytes start)
      || not (byte_is is_ascii_uppercase bytes (start + 1))
    then none
    else if not (byte_is is_ascii_digit bytes (start + 2))
        || not (byte_is is_ascii_digit bytes (start + 3))
    then none
    else iban_match bytes start (collect_groups bytes start)
