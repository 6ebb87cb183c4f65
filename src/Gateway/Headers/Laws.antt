-- ===== src/Gateway/Headers/Laws.antt =====
-- What reaches the upstream of each header, and that no secret is loggable.
use sentin_npu.Config.{text_eq}
use sentin_npu.Config.Keys.{text_eq→eq, text_eq_refl}
use sentin_npu.Gateway.Headers.{
  HeaderMap, contains, secret_headers, lower, pairs, insert, is_dropped, forward_loop,
  forwardable_headers, loggable, loggable_header_names,
}
use sentin_npu.Prelude.{
  ◌≡◌, ◌≢◌, refl, sym, ap, ◌∙◌, inl, inr, true, false, List, [], ◌∷◌, map, if◌then◌else◌, arith,
  Bytes, Bool-cases, codes, to_ascii_lowercase,
}

-- The values that a map has for a name.
abbrev pub lookup : HeaderMap → Bytes → List Bytes
lookup [] name = []
lookup ((n, vs) ∷ hs) name = if text_eq n name then vs else lookup hs name

-- What a name has after the pairs have been gone through, if it had `before`.
abbrev pub last_value : List (Bytes × Bytes) → Bytes → List Bytes → List Bytes
last_value [] name before = before
last_value ((n, v) ∷ rest) name before =
    last_value rest name (if text_eq n name then v ∷ [] else before)

text_eq-false : (a b c : Bytes) → text_eq a b ≡ true → text_eq a c ≡ false → text_eq b c ≡ false
text_eq-false a b c same other = rw⁻¹ (text_eq→eq a b same) other

lookup-insert_same : (n v : Bytes) (hs : HeaderMap) → lookup (insert n v hs) n ≡ v ∷ []
unfolding insert
lookup-insert_same n v [] = rw (text_eq_refl n) refl
lookup-insert_same n v ((m, vs) ∷ hs) = elim (Bool-cases (text_eq m n)) [
  | inl same ↦ rw (same, same) refl
  | inr other ↦ rw (other, other) (lookup-insert_same n v hs)
]

lookup-insert_other :
    (n v k : Bytes) (hs : HeaderMap) → text_eq n k ≡ false → lookup (insert n v hs) k ≡ lookup hs k
unfolding insert
lookup-insert_other n v k [] h = rw h refl
lookup-insert_other n v k ((m, vs) ∷ hs) h = elim (Bool-cases (text_eq m n)) [
  | inl same ↦
      let away : text_eq m k ≡ false = ap (λ x. text_eq x k) (text_eq→eq m n same) ∙ h in
      rw (same, away) refl
  | inr other ↦ rw other (elim (Bool-cases (text_eq m k)) [
    | inl found ↦ rw found refl
    | inr past ↦ rw past (lookup-insert_other n v k hs h)
  ])
]

lookup-insert :
    (n v k : Bytes) (hs : HeaderMap)
    → lookup (insert n v hs) k ≡ (if text_eq n k then v ∷ [] else lookup hs k)
lookup-insert n v k hs = elim (Bool-cases (text_eq n k)) [
  | inl same ↦
      rw same (ap (lookup (insert n v hs)) (sym (text_eq→eq n k same)) ∙ lookup-insert_same n v hs)
  | inr other ↦ rw other (lookup-insert_other n v k hs other)
]

-- A dropped name keeps what it had; any other has its last value.
lookup-forward_loop :
    (ps : List (Bytes × Bytes)) (out : HeaderMap) (k : Bytes)
    → lookup (forward_loop ps out) k
      ≡ (if is_dropped k then lookup out k else last_value ps k (lookup out k))
unfolding forward_loop
lookup-forward_loop [] out k = elim (Bool-cases (is_dropped k)) [
  | inl d ↦ rw d refl
  | inr d ↦ rw d refl
]
lookup-forward_loop ((n, v) ∷ ps) out k = elim (Bool-cases (is_dropped n)) [
  | inl d ↦
      rw (d, lookup-forward_loop ps out k)
        (elim (Bool-cases (text_eq n k)) [
          | inl same ↦ rw (sym (ap is_dropped (text_eq→eq n k same)) ∙ d) refl
          | inr other ↦ rw other refl
        ])
  | inr d ↦
      rw (d, lookup-forward_loop ps (insert n v out) k, lookup-insert n v k out)
        (elim (Bool-cases (text_eq n k)) [
          | inl same ↦ rw (sym (ap is_dropped (text_eq→eq n k same)) ∙ d) refl
          | inr other ↦ rw other refl
        ])
]

-- Upstream gets of each name the last value that the request has for it, and nothing of a name that
-- is dropped: the hop-by-hop headers, `host` and `content-length`.
pub lookup-forwardable_headers :
    (headers : HeaderMap) (k : Bytes)
    → lookup (forwardable_headers headers) k
      ≡ (if is_dropped k then [] else last_value (pairs headers) k [])
unfolding forwardable_headers
lookup-forwardable_headers headers k = lookup-forward_loop (pairs headers) [] k

-- Two values of one name: upstream gets the second only.
pub forwardable_headers-twice :
    (k a b : Bytes)
    → is_dropped k ≡ false
    → forwardable_headers ((k, a ∷ b ∷ []) ∷ []) ≡ (k, b ∷ []) ∷ []
unfolding forwardable_headers forward_loop pairs insert
forwardable_headers-twice k a b h = rw (h, text_eq_refl k) refl

true-ne : true ≢ false
true-ne e = ground arith

-- A secret header is none of the dropped ones.
secret-kept : (k : Bytes) → contains secret_headers k ≡ true → is_dropped k ≡ false
unfolding to_ascii_lowercase
secret-kept k h = elim (Bool-cases (text_eq (codes "authorization") k)) [
  | inl e ↦ rw⁻¹ (text_eq→eq (codes "authorization") k e) refl
  | inr n1 ↦ elim (Bool-cases (text_eq (codes "x-api-key") k)) [
    | inl e ↦ rw⁻¹ (text_eq→eq (codes "x-api-key") k e) refl
    | inr n2 ↦ elim (Bool-cases (text_eq (codes "x-goog-api-key") k)) [
      | inl e ↦ rw⁻¹ (text_eq→eq (codes "x-goog-api-key") k e) refl
      | inr n3 ↦ absurd (true-ne (sym h ∙ rw (n1, n2, n3) refl))
    ]
  ]
]

loggable-contains :
    (names : List Bytes) (k : Bytes)
    → contains secret_headers k ≡ true
    → contains (loggable names) k ≡ false
unfolding loggable
loggable-contains [] k h = refl
loggable-contains (n ∷ names) k h = elim (Bool-cases (contains secret_headers n)) [
  | inl secret ↦ rw secret (loggable-contains names k h)
  | inr open_ ↦ rw open_ (elim (Bool-cases (text_eq n k)) [
    | inl same ↦
        absurd (true-ne (sym h ∙ sym (ap (contains secret_headers) (text_eq→eq n k same)) ∙ open_))
    | inr other ↦ rw other (loggable-contains names k h)
  ])
]

-- A header whose value is a secret goes upstream as the request has it last, and its name is not
-- among those that may be logged.
pub secret_headers-contains :
    (headers : HeaderMap) (k : Bytes)
    → contains secret_headers k ≡ true
    → (lookup (forwardable_headers headers) k ≡ last_value (pairs headers) k [])
      × (contains (loggable_header_names headers) k ≡ false)
unfolding loggable_header_names
secret_headers-contains headers k h = (
  rw (lookup-forwardable_headers headers k, secret-kept k h) refl,
  loggable-contains (map (λ x. lower x.0) headers) k h,
)
