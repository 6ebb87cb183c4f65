-- ===== src/Scan/Laws/Email.antt =====
-- Where an email address that `scan_email` returns begins and ends.
use sentin_npu.Prelude.{
  ℕ, ◌+◌, ◌-◌, ◌≤◌, ◌<◌, ◌≡◌, Bool, true, ◌&&◌, [], ◌∷◌, ◌++◌, Option, none, some, arith, length,
  any, ltb, ◌==◌, Bytes, Bool-cases, inl, inr,
}
use sentin_npu.Core.Finding.{Range}
use sentin_npu.Scan.Cursor.{byte_is, slice, advance_while}
use sentin_npu.Scan.Email.{is_domain, local_start, domain_end, plausible, email_at, scan_email}
use sentin_npu.Scan.Laws.Loops.{advance_while_bounds, retreat_while_bounds}
use sentin_npu.Scan.Laws.Slices.{byte_is-Reads, slice-append, slice-suc, slice_empty}

domain_end_bounds :
    (bytes : Bytes) (at : ℕ)
    → at < length bytes
    → (at < domain_end bytes at) × (domain_end bytes at ≤ length bytes)
unfolding domain_end
domain_end_bounds bytes at h =
    let e = advance_while is_domain bytes (length bytes - (at + 1)) (at + 1) in
    let a = advance_while_bounds is_domain bytes (length bytes - (at + 1)) (at + 1) in
    let r = retreat_while_bounds (λ b. b == b'.') bytes (e - (at + 1)) e in
    (omega arith, omega arith)

any-append : (p : ℕ → Bool) (s t : Bytes) → any p t ≡ true → any p (s ++ t) ≡ true
any-append p [] t h = h
any-append p (b ∷ s) t h = ground (arith, any-append p s t h)

-- The address holds an `@` at `at`.
pub record IsEmail (bytes : Bytes) (at : ℕ) (r : Range) : Type 0 where
  pub before : r.start < at
  pub behind : at < r.end
  pub inside : r.end ≤ length bytes
  pub holds : any (λ b. b == b'@') (slice bytes r.start r.end) ≡ true

abbrev pub IsEmail? : Bytes → ℕ → Option Range → Type 0
IsEmail? bytes at none = Unit
IsEmail? bytes at (some r) = IsEmail bytes at r

holds_at :
    (bytes : Bytes) (s at e : ℕ)
    → byte_is (λ b. b == b'@') bytes at ≡ true
    → s ≤ at
    → at < e
    → any (λ b. b == b'@') (slice bytes s e) ≡ true
holds_at bytes s at e h lo hi =
    let r = byte_is-Reads (λ b. b == b'@') bytes at h in
    rw
      (
        slice-append bytes s at e lo (omega arith),
        slice-append bytes at (at + 1) e (omega arith) (omega arith),
        slice-suc bytes at at r.byte (omega arith) r.at,
        slice_empty,
      )
      (any-append (λ b. b == b'@') (slice bytes s at) _ (ground (arith, r.passes)))

module _ (bytes : Bytes) (at : ℕ) (h : byte_is (λ b. b == b'@') bytes at ≡ true) where
  email_at-IsEmail :
      (start end : ℕ) (domain : Bytes) (dot : Option ℕ)
      → at < end
      → end ≤ length bytes
      → IsEmail? bytes at (email_at at start end domain dot)
  email_at-IsEmail start end domain none lo hi = tt
  email_at-IsEmail start end domain (some dot) lo hi =
      elim (Bool-cases (ltb start at && plausible domain dot)) [
        | inr f ↦ rw f tt
        | inl t ↦ rw t (record {
          before = ground arith;
          behind = lo;
          inside = hi;
          holds = holds_at bytes start at end h (ground arith) lo;
        })
      ]

  -- What `scan_email` returns at an `@` is an address around it.
  pub scan_email-IsEmail : IsEmail? bytes at (scan_email bytes at)
  unfolding scan_email
  scan_email-IsEmail =
      let r = byte_is-Reads (λ b. b == b'@') bytes at h in
      let b = domain_end_bounds bytes at r.inside in
      email_at-IsEmail (local_start bytes at) (domain_end bytes at) _ _ b.0 b.1
