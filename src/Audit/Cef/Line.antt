-- ===== src/Audit/Cef/Line.antt =====
-- A rendered event is one line.
use sentin_npu.Audit.Cef.{
  replace, escape_header, escape_value, push, push_labelled, extension, extensions, join, field,
  vendor, product, signature, number, render,
}
use sentin_npu.Audit.Event.{Event, EventKind, base_severity}
use sentin_npu.TestData.{decimal}
use sentin_npu.Prelude.{
  ℕ, ◌≢◌, inl, inr, List, [], ◌∷◌, ◌++◌, Option, none, some, All, arith, ◌==◌, Bytes, codes,
  Bool-cases, All-append,
}

-- A text on one line.
abbrev pub IsInline : Bytes → Type 0
IsInline s = All (λ b. b ≢ 10) s

IsInline-append : (s t : Bytes) → IsInline s → IsInline t → IsInline (s ++ t)
IsInline-append s t hs ht = All-append (λ b. b ≢ 10) s t hs ht

replace-IsInline : (c : ℕ) (new s : Bytes) → IsInline new → IsInline s → IsInline (replace c new s)
unfolding replace
replace-IsInline c new [] hn h = tt
replace-IsInline c new (b ∷ s) hn (hb, h) = elim (Bool-cases (b == c)) [
  | inl here ↦ rw here (IsInline-append new (replace c new s) hn (replace-IsInline c new s hn h))
  | inr other ↦ rw other (hb, replace-IsInline c new s hn h)
]

replace_newline-IsInline : (new s : Bytes) → IsInline new → IsInline (replace 10 new s)
unfolding replace
replace_newline-IsInline new [] hn = tt
replace_newline-IsInline new (b ∷ s) hn = elim (Bool-cases (b == 10)) [
  | inl here ↦
      rw here (IsInline-append new (replace 10 new s) hn (replace_newline-IsInline new s hn))
  | inr other ↦ rw other ((λ e. ground arith), replace_newline-IsInline new s hn)
]

escape_header-IsInline : (v : Bytes) → IsInline v → IsInline (escape_header v)
unfolding escape_header
escape_header-IsInline v h =
    replace-IsInline b'|' (b'\\' ∷ b'|' ∷ []) _ (ground arith)
      (replace-IsInline b'\\' (b'\\' ∷ b'\\' ∷ []) v (ground arith) h)

-- No value of an extension, whatever it holds, leaves a newline in the line.
escape_value-IsInline : (v : Bytes) → IsInline (escape_value v)
unfolding escape_value
escape_value-IsInline v =
    let s = replace b'=' (b'\\' ∷ b'=' ∷ []) (replace b'\\' (b'\\' ∷ b'\\' ∷ []) v) in
    let t = replace 10 (b'\\' ∷ b'n' ∷ []) s in
    replace-IsInline 13 [] t tt (replace_newline-IsInline (b'\\' ∷ b'n' ∷ []) s (ground arith))

field-IsInline : (v rest : Bytes) → IsInline v → IsInline rest → IsInline (field v rest)
field-IsInline v rest hv hr =
    IsInline-append (escape_header v) (b'|' ∷ rest) (escape_header-IsInline v hv)
      ((λ e. ground arith), hr)

abbrev pub HasInlineKey : Bytes × Bytes → Type 0
HasInlineKey x = IsInline x.0

extension-IsInline : (x : Bytes × Bytes) → HasInlineKey x → IsInline (extension x)
extension-IsInline (k, v) h =
    IsInline-append k (b'=' ∷ escape_value v) h ((λ e. ground arith), escape_value-IsInline v)

join-IsInline : (xs : List (Bytes × Bytes)) → All HasInlineKey xs → IsInline (join xs)
join-IsInline [] h = tt
join-IsInline (x ∷ []) (hx, h) = extension-IsInline x hx
join-IsInline (x ∷ y ∷ xs) (hx, h) =
    IsInline-append (extension x) (b' ' ∷ join (y ∷ xs)) (extension-IsInline x hx)
      ((λ e. ground arith), join-IsInline (y ∷ xs) h)

push-HasInlineKey :
    {A : Type 0} (k : Bytes) (text : A → Bytes) (o : Option A) (rest : List (Bytes × Bytes))
    → IsInline k
    → All HasInlineKey rest
    → All HasInlineKey (push k text o ++ rest)
push-HasInlineKey k text none rest h r = r
push-HasInlineKey k text (some v) rest h r = (h, r)

push_labelled-HasInlineKey :
    {A : Type 0} (l n k : Bytes) (text : A → Bytes) (o : Option A) (rest : List (Bytes × Bytes))
    → IsInline l
    → IsInline k
    → All HasInlineKey rest
    → All HasInlineKey (push_labelled l n k text o ++ rest)
push_labelled-HasInlineKey l n k text none rest g h r = r
push_labelled-HasInlineKey l n k text (some v) rest g h r = (g, (h, r))

extensions-HasInlineKey : (e : Event) → All HasInlineKey e.detail → All HasInlineKey (extensions e)
unfolding extensions
extensions-HasInlineKey e h = (
  ground arith,
  push_labelled-HasInlineKey _ _ _ _ e.detector _ (ground arith) (ground arith) (
      push_labelled-HasInlineKey _ _ _ _ e.data_type _ (ground arith) (ground arith) (
        push-HasInlineKey _ _ e.target_host _ (ground arith) (
          push-HasInlineKey _ _ e.decision _ (ground arith) (
            push-HasInlineKey _ _ e.content_sha256 _ (ground arith) (
              push_labelled-HasInlineKey _ _ _ _ e.model_id _ (ground arith) (ground arith) (
                push_labelled-HasInlineKey _ _ _ _ e.device _ (ground arith) (ground arith) (
                  push-HasInlineKey _ _ e.client_addr _ (ground arith) (
                    push_labelled-HasInlineKey _ _ _ _ e.upstream_model _ (ground arith)
                      (ground arith)
                      (push_labelled-HasInlineKey _ _ _ _ e.provider _ (ground arith) (ground arith)
                        (push-HasInlineKey _ _ e.source _ (ground arith) (
                          push-HasInlineKey _ _ e.attachment_kind _ (ground arith) (
                            push-HasInlineKey _ _ e.attachment_sha256 _ (ground arith) (
                              push-HasInlineKey _ _ e.attachment_bytes _ (ground arith)
                                h))))))))))))),
)

signature-IsInline : (k : EventKind) → IsInline (signature k)
signature-IsInline k = ground arith

number-IsInline : (k : EventKind) → IsInline (number (base_severity k))
unfolding base_severity decimal
number-IsInline k = ground arith

-- A rendered event is one line, whatever its fields and the values of its details hold, if neither
-- the product's version nor a detail's key has a newline.
pub render-IsInline :
    (event : Event) (version : Bytes)
    → IsInline version
    → All HasInlineKey event.detail
    → IsInline (render event version)
unfolding render
render-IsInline event version hv hd = IsInline-append (codes "CEF:0|") _ (ground arith) (
    field-IsInline vendor _ (ground arith) (
      field-IsInline product _ (ground arith) (
        field-IsInline version _ hv (
          field-IsInline (signature event.event) _ (signature-IsInline event.event) (
            field-IsInline (signature event.event) _ (signature-IsInline event.event) (
              IsInline-append (number (base_severity event.event)) _ (number-IsInline event.event) (
                (λ e. ground arith),
                join-IsInline (extensions event) (extensions-HasInlineKey event hd),
              )))))))
