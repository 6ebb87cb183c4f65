-- ===== src/Scan/Laws/Vat.antt =====
-- `scan_vat_eu` returns only sound matches.
use sentin_npu.Prelude.{
  ℕ, zero, suc, ◌+◌, ◌-◌, ◌≤◌, ◌≡◌, refl, true, ◌&&◌, [], ◌∷◌, ◌++◌, map, arith, length, leb, ◌==◌,
  take, drop, all, Bytes, codes, Bool-cases, inl, inr, is_ascii_digit, is_ascii_uppercase,
}
use sentin_npu.Checksums
use sentin_npu.Core.DataKind
use sentin_npu.Scan.Cursor.{slice, bytes_eq, ends_token}
use sentin_npu.Scan.Laws.Numeric.{IsMatch?}
use sentin_npu.Scan.Laws.Slices.{digits_in, length-slice, slice-append, bytes_eq→eq}
use sentin_npu.Scan.Vat.{vat_national_part_is_valid, vat_end, vat_match, scan_vat_eu}

vat_end_bounds :
    (rounds : ℕ) (bytes : Bytes) (from e : ℕ)
    → (e ≤ vat_end rounds bytes from e) × (vat_end rounds bytes from e ≤ e + rounds)
unfolding vat_end
vat_end_bounds zero bytes from e = omega arith
vat_end_bounds (suc rounds) bytes from e = ground (arith, vat_end_bounds rounds bytes from (e + 1))

digits_in-all : (s : Bytes) → all is_ascii_digit s ≡ true → digits_in s ≡ map (λ b. b - b'0') s
unfolding digits_in
digits_in-all [] h = refl
digits_in-all (b ∷ s) h = ground (arith, digits_in-all s)

digits_in_poland : (s : Bytes) → digits_in (codes "PL" ++ s) ≡ digits_in s
unfolding digits_in is_ascii_digit
digits_in_poland s = refl

split_two : (c p : Bytes) → length c ≡ 2 → (take 2 (c ++ p) ≡ c) × (drop 2 (c ++ p) ≡ p)
split_two [] p h = absurd (omega arith)
split_two (a ∷ []) p h = absurd (omega arith)
split_two (a ∷ (b ∷ [])) p h = (refl, refl)
split_two (a ∷ (b ∷ (c ∷ s))) p h = absurd (omega arith)

module _ (bytes : Bytes) (start end : ℕ) (lo : start + 2 ≤ end) (hi : end ≤ length bytes)
    (t : ends_token bytes end ≡ true) where
  abbrev country : Bytes
  country = slice bytes start (start + 2)

  abbrev part : Bytes
  part = slice bytes (start + 2) end

  poland-IsMatch :
      country ≡ codes "PL"
      → all is_ascii_digit part ≡ true
      → Checksums.nip (map (λ b. b - b'0') part) ≡ true
      → Checksums.nip (digits_in (slice bytes start end)) ≡ true
  poland-IsMatch c d n =
      rw
        (
          slice-append bytes start (start + 2) end (omega arith) lo,
          c,
          digits_in_poland,
          digits_in-all part d,
        )
        n

  other-IsMatch :
      vat_national_part_is_valid country part ≡ true
      → vat_national_part_is_valid (take 2 (slice bytes start end)) (drop 2 (slice bytes start end))
        ≡ true
  other-IsMatch h =
      let l : length country ≡ 2 =
        omega (arith, length-slice bytes start (start + 2) (omega arith)) in
      let two = split_two country part l in
      rw (slice-append bytes start (start + 2) end (omega arith) lo, two.0, two.1) h

  vat_match-IsMatch : IsMatch? bytes start (vat_match country part start end)
  unfolding vat_match DataKind.evidence
  vat_match-IsMatch = elim (Bool-cases (bytes_eq country (codes "PL"))) [
    | inl p ↦
        elim (Bool-cases (
          length part == 10
          && (all is_ascii_digit part && Checksums.nip (map (λ b. b - b'0') part)))) [
            | inl n ↦
                rw (p, n)
                  (record {
                    begins = refl;
                    nonempty = omega arith;
                    inside = hi;
                    token_end = t;
                    declared = refl;
                    evidence = poland-IsMatch (bytes_eq→eq _ _ p) (ground arith) (ground arith);
                  })
            | inr n ↦ rw (p, n) tt
          ]
    | inr p ↦ elim (Bool-cases (vat_national_part_is_valid country part)) [
      | inl v ↦
          rw (p, v)
            (record {
              begins = refl;
              nonempty = omega arith;
              inside = hi;
              token_end = t;
              declared = refl;
              evidence = other-IsMatch v;
            })
      | inr v ↦ rw (p, v) tt
    ]
  ]

-- Whatever `scan_vat_eu` returns is a match.
pub scan_vat_eu-IsMatch :
    (bytes : Bytes) (start : ℕ) → IsMatch? bytes start (scan_vat_eu bytes start)
unfolding scan_vat_eu
scan_vat_eu-IsMatch bytes start = elim (Bool-cases (leb (start + 2) (length bytes))) [
  | inr short ↦ rw short tt
  | inl long ↦ elim (Bool-cases (all is_ascii_uppercase (slice bytes start (start + 2)))) [
    | inr lower ↦ rw (long, lower) tt
    | inl upper ↦
        let end = vat_end (length bytes - (start + 2)) bytes (start + 2) (start + 2) in
        let b = vat_end_bounds (length bytes - (start + 2)) bytes (start + 2) (start + 2) in
        elim (Bool-cases (ends_token bytes end)) [
          | inr more ↦ rw (long, upper, more) tt
          | inl stop ↦
              rw (long, upper, stop) (vat_match-IsMatch bytes start end b.0 (ground arith) stop)
        ]
  ]
]
