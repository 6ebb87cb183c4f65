-- ===== src/Core/Naming.antt =====
-- Where `Device::parse_name` returns and where its slice panics.
use mathlib.Core.List.{reverse_aux}
use sentin_npu.Core.Device.{
  Device, panics, is_char_boundary, parse_prefixes, device_prefixes, parse_name,
  eq_ignore_ascii_case,
}
use sentin_npu.Config.{starts_with}
use sentin_npu.Trim.{white_spaces, trim_by, trim}
use sentin_npu.Prelude.{
  ℕ, zero, suc, ◌≤◌, ◌<◌, ◌≡◌, ◌≢◌, true, false, ltb, between, List, [], ◌∷◌, All, arith, length,
  get_or, reverse, Bytes, Bool-cases, Option-cases, inl, inr, take, drop, find,
}

abbrev pub IsAscii : ℕ → Type 0
IsAscii b = b < 128

All-reverse_aux :
    (s acc : Bytes) → All IsAscii s → All IsAscii acc → All IsAscii (reverse_aux s acc)
All-reverse_aux [] acc h k = k
All-reverse_aux (b ∷ s) acc (hb, h) k = All-reverse_aux s (b ∷ acc) h (hb, k)

All-reverse : (s : Bytes) → All IsAscii s → All IsAscii (reverse s)
All-reverse s h = All-reverse_aux s [] h tt

All-drop : (n : ℕ) (s : Bytes) → All IsAscii s → All IsAscii (drop n s)
All-drop zero s h = h
All-drop (suc n) [] h = tt
All-drop (suc n) (b ∷ s) (hb, h) = All-drop n s h

All-trim_by :
    (spaces : List Bytes) (fuel : ℕ) (s : Bytes)
    → All IsAscii s
    → All IsAscii (trim_by spaces fuel s)
unfolding trim_by
All-trim_by spaces zero s h = h
All-trim_by spaces (suc fuel) s h = elim (Option-cases (find (starts_with s) spaces)) [
  | inl no_space ↦ rw (trim_by, no_space) h
  | inr (w, space) ↦ rw (trim_by, space) (All-trim_by spaces fuel _ (All-drop (length w) s h))
]

All-trim : (s : Bytes) → All IsAscii s → All IsAscii (trim s)
All-trim s h =
    All-reverse _ (All-trim_by _ _ _ (All-reverse _ (All-trim_by white_spaces (length s) s h)))

get_or-lt : (s : Bytes) (i : ℕ) → All IsAscii s → i < length s → get_or s i 128 < 128
get_or-lt [] i h l = omega arith
get_or-lt (b ∷ s) zero (hb, h) l = hb
get_or-lt (b ∷ s) (suc i) (hb, h) l = get_or-lt s i h (omega arith)

is_char_boundary-ascii :
    (s : Bytes) (i : ℕ) → All IsAscii s → i ≤ length s → is_char_boundary s i ≡ true
unfolding is_char_boundary
is_char_boundary-ascii s i h l = ground (arith, get_or-lt s i h)

parse_prefixes-returns :
    (ps : List (Bytes × Device)) (s : Bytes) → All IsAscii s → parse_prefixes ps s ≢ panics
unfolding parse_prefixes
parse_prefixes-returns [] s h = ground arith
parse_prefixes-returns ((prefix, device) ∷ ps) s h =
    let next = parse_prefixes-returns ps s h in
    elim (Bool-cases (ltb (length s) (length prefix))) [
      | inl short ↦ rw short next
      | inr long ↦
          let whole = is_char_boundary-ascii s (length prefix) h (ground arith) in
          elim (Bool-cases (eq_ignore_ascii_case (take (length prefix) s) prefix)) [
            | inl same ↦ rw (long, whole, same) (ground arith)
            | inr other ↦ rw (long, whole, other) next
          ]
    ]

-- For an ASCII name, `parse_name` returns.
pub parse_name-ascii : (name : Bytes) → All IsAscii name → parse_name name ≢ panics
unfolding parse_name
parse_name-ascii name h = parse_prefixes-returns device_prefixes (trim name) (All-trim name h)

first_prefix :
    (s : Bytes) → between 128 191 (get_or s 3 0) ≡ true → parse_prefixes device_prefixes s ≡ panics
unfolding parse_prefixes is_char_boundary
first_prefix [] h = ground arith
first_prefix (a ∷ []) h = ground arith
first_prefix (a ∷ b ∷ []) h = ground arith
first_prefix (a ∷ b ∷ c ∷ []) h = ground arith
first_prefix (a ∷ b ∷ c ∷ d ∷ s) h =
    let mid : is_char_boundary (a ∷ b ∷ c ∷ d ∷ s) 3 ≡ false = ground arith in ground arith

-- For a name whose trimmed text has a UTF-8 continuation byte as its fourth, `parse_name` panics.
pub parse_name-panics :
    (name : Bytes) → between 128 191 (get_or (trim name) 3 0) ≡ true → parse_name name ≡ panics
unfolding parse_name
parse_name-panics name h = first_prefix (trim name) h
