-- ===== src/Audit/Cef/Reading.antt =====
-- What a reader of CEF gets back from a rendered event.
use sentin_npu.Audit.Cef.{
  replace, escape_header, escape_value, extensions, join, vendor, product, signature, number,
  render,
}
use sentin_npu.Audit.Event.{
  Event, EventKind, pii_detected, decision_made, inspection_timeout, device_fallback,
  attachment_skipped, gateway_start, gateway_stop, base_severity,
}
use sentin_npu.Json.{◌>>=◌}
use sentin_npu.TestData.{decimal}
use sentin_npu.Prelude.{
  ℕ, zero, suc, ◌≡◌, refl, inl, inr, Bool, true, false, List, [], ◌∷◌, ◌++◌, Option, none, some,
  arith, ◌==◌, if◌then◌else◌, Bytes, codes, Bool-cases,
}

abbrev prefixed : ℕ → Option (Bytes × Bytes) → Option (Bytes × Bytes)
prefixed b none = none
prefixed b (some (f, s)) = some (b ∷ f, s)

-- How a header is read: a field ends at the first `|` that no `\` escapes; the flag says that the
-- byte before was one.
abbrev pub read_field : Bool → Bytes → Option (Bytes × Bytes)
read_field escaped [] = none
read_field true (b ∷ s) = prefixed b (read_field false s)
read_field false (b ∷ s) =
    if b == b'\\'
    then read_field true s
    else if b == b'|'
    then some ([], s)
    else prefixed b (read_field false s)

-- An escaped field is read back, up to the `|` behind it.
read_field-escape_header :
    (v rest : Bytes) → read_field false (escape_header v ++ (b'|' ∷ rest)) ≡ some (v, rest)
unfolding escape_header replace
read_field-escape_header [] rest = refl
read_field-escape_header (b ∷ v) rest = elim (Bool-cases (b == b'\\')) [
  | inl back ↦ rw (back, read_field-escape_header v rest) (ground arith)
  | inr plain ↦ elim (Bool-cases (b == b'|')) [
    | inl bar ↦ rw (plain, bar, read_field-escape_header v rest) (ground arith)
    | inr other ↦ rw (plain, other, plain, other, read_field-escape_header v rest) refl
  ]
]

abbrev pub read_fields : ℕ → Bytes → Option (List Bytes × Bytes)
read_fields zero s = some ([], s)
read_fields (suc n) s =
    read_field false s >>= λ r. (read_fields n r.1 >>= λ q. some (r.0 ∷ q.0, q.1))

read_fields-some :
    (n : ℕ) (s f rest : Bytes)
    → read_field false s ≡ some (f, rest)
    → read_fields (suc n) s ≡ (read_fields n rest >>= λ q. some (f ∷ q.0, q.1))
read_fields-some n s f rest e = rw e refl

read_field-number :
    (k : EventKind) (rest : Bytes)
    → read_field false (number (base_severity k) ++ (b'|' ∷ rest))
      ≡ some (number (base_severity k), rest)
unfolding base_severity decimal
read_field-number pii_detected rest = refl
read_field-number decision_made rest = refl
read_field-number inspection_timeout rest = refl
read_field-number device_fallback rest = refl
read_field-number attachment_skipped rest = refl
read_field-number gateway_start rest = refl
read_field-number gateway_stop rest = refl

-- The header of a rendered event is read back field by field, whatever the version text holds: the
-- format, the vendor, the product, its version, the signature twice and the severity; the extensions
-- follow.
pub read_fields-render :
    (event : Event) (version : Bytes)
    → read_fields 7 (render event version)
      ≡ some (
        codes "CEF:0"
            ∷ vendor
            ∷ product
            ∷ version
            ∷ signature event.event
            ∷ signature event.event
            ∷ number (base_severity event.event)
            ∷ [],
        join (extensions event),
      )
unfolding render
read_fields-render event version =
    rw
      (
        read_field-escape_header vendor,
        read_field-escape_header product,
        read_field-escape_header version,
        read_field-escape_header (signature event.event),
        read_field-escape_header (signature event.event),
        read_field-number event.event,
      )
      refl

-- How an extension value is read: `\n` is a newline, and `\` before any other byte is that byte.
abbrev pub unescape_value : Bool → Bytes → Bytes
unescape_value escaped [] = []
unescape_value true (b ∷ s) = (if b == b'n' then 10 else b) ∷ unescape_value false s
unescape_value false (b ∷ s) =
    if b == b'\\' then unescape_value true s else b ∷ unescape_value false s

-- A value without its carriage returns.
abbrev pub without_returns : Bytes → Bytes
without_returns [] = []
without_returns (b ∷ s) = if b == 13 then without_returns s else b ∷ without_returns s

-- An escaped value is read back, its carriage returns left out.
pub unescape_value-escape_value :
    (v : Bytes) → unescape_value false (escape_value v) ≡ without_returns v
unfolding escape_value replace
unescape_value-escape_value [] = refl
unescape_value-escape_value (b ∷ v) = elim (Bool-cases (b == b'\\')) [
  | inl back ↦ rw (back, unescape_value-escape_value v) (ground arith)
  | inr c1 ↦ elim (Bool-cases (b == b'=')) [
    | inl eq ↦ rw (c1, eq, unescape_value-escape_value v) (ground arith)
    | inr c2 ↦ elim (Bool-cases (b == 10)) [
      | inl line ↦ rw (c1, c2, line, unescape_value-escape_value v) (ground arith)
      | inr c3 ↦ elim (Bool-cases (b == 13)) [
        | inl return ↦ rw (c1, c2, c3, return) (unescape_value-escape_value v)
        | inr c4 ↦ rw (c1, c2, c3, c4, c1, unescape_value-escape_value v) refl
      ]
    ]
  ]
]
