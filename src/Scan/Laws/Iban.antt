-- ===== src/Scan/Laws/Iban.antt =====
-- What `scan_iban` returns.
use sentin_npu.Prelude.{
  ℕ, zero, suc, ◌+◌, ◌-◌, ◌≤◌, ◌<◌, ◌≡◌, refl, ◌∙◌, true, false, ◌||◌, ◌&&◌, not, [], ◌∷◌, ◌++◌,
  Option, none, some, arith, length, get_or, ltb, ◌==◌, Bytes, Bool-cases, inl, inr, is_ascii_digit,
  is_ascii_uppercase, is_ascii_alphanumeric, to_ascii_uppercase,
}
use sentin_npu.Checksums
use sentin_npu.Core.Finding.{Range}
use sentin_npu.Scan.Cursor.{byte_is, slice, ends_token}
use sentin_npu.Scan.Iban.{
  Groups, max_iban, collect, groups_end, collect_groups, iban_match, scan_iban,
}
use sentin_npu.Scan.Laws.Slices.{
  byte_is-Reads, characters_in, characters_in-slice_character, characters_in-slice_other,
  slice_empty,
}

-- The characters are those of the text so far, and an open group stands behind a space.
record IsGroups (bytes : Bytes) (start : ℕ) (g : Groups) : Type 0 where
  lower : start ≤ g.end
  inside : g.end ≤ length bytes
  content : g.compact ≡ characters_in (slice bytes start g.end)
  open_group :
      g.grouped ≡ true
      → g.group_len ≡ 0
      → (start < g.end) × (byte_is (λ b. b == b' ') bytes (g.end - 1) ≡ true)

space_no_character : (b : ℕ) → (b == b' ') ≡ true → is_ascii_alphanumeric b ≡ false
unfolding is_ascii_alphanumeric
space_no_character b h = let e : b ≡ 32 = ground arith in rw e

module _ (bytes : Bytes) (start : ℕ) where
  char-IsGroups :
      (g : Groups)
      → IsGroups bytes start g
      → byte_is is_ascii_alphanumeric bytes g.end ≡ true
      → IsGroups bytes start (record g {
        compact = g.compact ++ to_ascii_uppercase (get_or bytes g.end 0) ∷ [];
        end = g.end + 1;
        group_len = g.group_len + 1;
      })
  char-IsGroups g v h =
      let t = byte_is-Reads is_ascii_alphanumeric bytes g.end h in
      record {
        lower = omega arith;
        inside = omega arith;
        content = rw (
          characters_in-slice_character is_ascii_alphanumeric bytes start g.end v.lower t t.passes,
          ← v.content,
        );
        open_group = λ a b. absurd (omega arith);
      }

  space-IsGroups :
      (g : Groups)
      → IsGroups bytes start g
      → byte_is (λ b. b == b' ') bytes g.end ≡ true
      → IsGroups bytes start (record g { end = g.end + 1; group_len = 0; grouped = true })
  space-IsGroups g v h =
      let t = byte_is-Reads (λ b. b == b' ') bytes g.end h in
      let n = space_no_character t.byte t.passes in
      let e : g.end + 1 - 1 ≡ g.end = omega arith in
      record {
        lower = omega arith;
        inside = omega arith;
        content =
            rw (characters_in-slice_other (λ b. b == b' ') bytes start g.end v.lower t n) v.content;
        open_group = λ a b. (omega arith, rw e h);
      }

  collect-IsGroups :
      (rounds : ℕ) (g : Groups)
      → IsGroups bytes start g
      → IsGroups bytes start (collect rounds bytes g)
  unfolding collect
  collect-IsGroups zero g v = v
  collect-IsGroups (suc rounds) g v = elim (Bool-cases (ltb (length g.compact) max_iban)) [
    | inr full ↦ rw full v
    | inl room ↦ elim (Bool-cases (byte_is is_ascii_alphanumeric bytes g.end)) [
      | inl c ↦ rw (room, c) (collect-IsGroups rounds _ (char-IsGroups g v c))
      | inr c ↦
          elim (Bool-cases (
            byte_is (λ b. b == b' ') bytes g.end
            && (g.group_len == 4 && byte_is is_ascii_alphanumeric bytes (g.end + 1)))) [
              | inl s ↦
                  rw (room, c, s) (collect-IsGroups rounds _ (space-IsGroups g v (ground arith)))
              | inr s ↦ rw (room, c, s) v
            ]
    ]
  ]

  -- The characters up to where the match ends.
  groups_end_lem :
      (g : Groups)
      → IsGroups bytes start g
      → (start ≤ groups_end g)
        × (groups_end g ≤ length bytes)
        × (g.compact ≡ characters_in (slice bytes start (groups_end g)))
  unfolding groups_end
  groups_end_lem g v = elim (Bool-cases (g.grouped && g.group_len == 0)) [
    | inr closed ↦ rw closed (v.lower, v.inside, v.content)
    | inl trailing ↦
        let (l, s) = v.open_group (ground arith) (ground arith) in
        let t = byte_is-Reads (λ b. b == b' ') bytes (g.end - 1) s in
        let n = space_no_character t.byte t.passes in
        let e : g.end - 1 + 1 ≡ g.end = omega arith in
        let same =
          characters_in-slice_other (λ b. b == b' ') bytes start (g.end - 1) (omega arith) t n in
        rw trailing (omega arith, omega arith, v.content ∙ (rw e at same))
  ]

-- What an IBAN match is: its characters pass the check of the account number, and it ends a token.
pub record IsAccount (bytes : Bytes) (start : ℕ) (r : Range) : Type 0 where
  pub begins : r.start ≡ start
  pub nonempty : start < r.end
  pub inside : r.end ≤ length bytes
  pub token_end : ends_token bytes r.end ≡ true
  pub evidence : Checksums.iban (characters_in (slice bytes start r.end)) ≡ true

abbrev pub IsAccount? : Bytes → ℕ → Option Range → Type 0
IsAccount? bytes start none = Unit
IsAccount? bytes start (some r) = IsAccount bytes start r

iban_nil : Checksums.iban [] ≡ false
unfolding Checksums.iban
iban_nil = refl

module _ (bytes : Bytes) (start : ℕ) where
  account_nonempty :
      (e : ℕ) → start ≤ e → Checksums.iban (characters_in (slice bytes start e)) ≡ true → start < e
  unfolding characters_in
  account_nonempty e l h = elim (Bool-cases (ltb start e)) [
    | inl lt ↦ ground arith
    | inr ge ↦
        let same : e ≡ start = ground arith in
        let clash : Checksums.iban [] ≡ true = rw (same, slice_empty) at h in absurd (cc (iban_nil))
  ]

  iban_match-IsAccount :
      (g : Groups) → IsGroups bytes start g → IsAccount? bytes start (iban_match bytes start g)
  unfolding iban_match
  iban_match-IsAccount g v =
      elim (Bool-cases (ends_token bytes (groups_end g) && Checksums.iban g.compact)) [
        | inr f ↦ rw f tt
        | inl t ↦
            let (l, i, c) = groups_end_lem bytes start g v in
            let ok : Checksums.iban g.compact ≡ true = ground arith in
            let good = rw c at ok in
            rw t (record {
              begins = refl;
              nonempty = account_nonempty (groups_end g) l good;
              inside = i;
              token_end = ground arith;
              evidence = good;
            })
      ]

  start-IsGroups :
      start ≤ length bytes
      → IsGroups bytes start (record { compact = []; end = start; group_len = 0; grouped = false })
  start-IsGroups h = record {
    lower = omega arith;
    inside = h;
    content = rw slice_empty (unfold characters_in in refl);
    open_group = λ a b. absurd (cc);
  }

  -- Whatever `scan_iban` returns is an account number.
  pub scan_iban-IsAccount : start ≤ length bytes → IsAccount? bytes start (scan_iban bytes start)
  unfolding scan_iban collect_groups
  scan_iban-IsAccount h =
      let groups =
        collect (length bytes - start) bytes
          (record { compact = []; end = start; group_len = 0; grouped = false }) in
      let found =
        iban_match-IsAccount groups
          (collect-IsGroups bytes start (length bytes - start) _ (start-IsGroups h)) in
      elim (Bool-cases (
        not (byte_is is_ascii_uppercase bytes start)
        || not (byte_is is_ascii_uppercase bytes (start + 1)))) [
          | inl a ↦ rw a tt
          | inr a ↦
              elim (Bool-cases (
                not (byte_is is_ascii_digit bytes (start + 2))
                || not (byte_is is_ascii_digit bytes (start + 3)))) [
                  | inl b ↦ rw (a, b) tt
                  | inr b ↦ rw (a, b) found
                ]
        ]
