-- ===== src/Adapters/Readable.antt =====
-- Every pointer that `text_pointers` returns addresses a text of the body.
use mathlib.Core.Path.{subst}
use sentin_npu.Adapters.{
  Provider, anthropic, open_ai, google, is_some, to_list, enumerate, text_at, list_at,
  block_pointers, collect_blocks, message_pointers, openai_pointers, anthropic_pointers,
  content_pointers, google_pointers, text_pointers, read_text,
}
use sentin_npu.Json.{Json, key, index, Pointer, ◌>>=◌}
use sentin_npu.Prelude.{
  ℕ, suc, ◌+◌, ◌≡◌, refl, ◌∙◌, ap, inl, inr, true, List, [], ◌∷◌, ◌++◌, Option, none, some, All,
  All-append, arith, get_elem?, Bytes, codes, append_assoc, Bool-cases, Option-cases,
}

-- What holds of each round's output holds of the whole.
All-enumerate :
    {A B : Type 0} (P : B → Type 0) (f : ℕ → A → List B) (i : ℕ) (xs : List A)
    → ((j : ℕ) (x : A) → get_elem? xs j ≡ some x → All P (f (i + j) x))
    → All P (enumerate i f xs)
All-enumerate P f i [] h = tt
All-enumerate P f i (x ∷ xs) h =
    All-append P (f i x) (enumerate (i + 1) f xs)
      (subst (λ n. All P (f n x)) (omega arith) (h 0 x refl))
      (All-enumerate P f (i + 1) xs
        (λ j y e. subst (λ n. All P (f n y)) (omega arith) (h (suc j) y e)))

All-enumerate_0 :
    {A B : Type 0} (P : B → Type 0) (f : ℕ → A → List B) (xs : List A)
    → ((j : ℕ) (x : A) → get_elem? xs j ≡ some x → All P (f j x))
    → All P (enumerate 0 f xs)
All-enumerate_0 P f xs h =
    All-enumerate P f 0 xs (λ j x e. subst (λ n. All P (f n x)) (omega arith) (h j x e))

-- A test that finds something finds it there.
is_some-some : {A : Type 0} (o : Option A) → is_some o ≡ true → (a : A) × (o ≡ some a)
is_some-some none e = ground arith
is_some-some (some a) e = (a, refl)

-- What a successful chain went through.
chain :
    {A B : Type 0} (o : Option A) (f : A → Option B) (b : B)
    → (o >>= f) ≡ some b
    → (a : A) × (o ≡ some a) × (f a ≡ some b)
chain none f b e = ground arith
chain (some a) f b e = (a, refl, e)

module _ (J : Json) where
  open J use {Value, get, as_str, as_array, pointer, pointer_nil, pointer_key, pointer_index}

  abbrev pub IsReadable : Value → Pointer → Type 0
  IsReadable body p = is_some (read_text J body p) ≡ true

  -- The pointer `base` leads to `v`, and on from there.
  abbrev LeadsTo : Value → Pointer → Value → Type 0
  LeadsTo body base v = (p : Pointer) → pointer body (base ++ p) ≡ pointer v p

  module _ (body : Value) where
    leads_here : LeadsTo body [] body
    leads_here p = refl

    leads_key :
        (base : Pointer) (v w : Value) (k : Bytes)
        → LeadsTo body base v
        → get v k ≡ some w
        → LeadsTo body (base ++ key k ∷ []) w
    leads_key base v w k h e p =
        ap (pointer body) (append_assoc base (key k ∷ []) p) ∙ h (key k ∷ p) ∙ pointer_key v w k p e

    leads_index :
        (base : Pointer) (v w : Value) (vs : List Value) (i : ℕ)
        → LeadsTo body base v
        → as_array v ≡ some vs
        → get_elem? vs i ≡ some w
        → LeadsTo body (base ++ index i ∷ []) w
    leads_index base v w vs i h a e p =
        ap (pointer body) (append_assoc base (index i ∷ []) p)
        ∙ h (index i ∷ p)
        ∙ pointer_index v w vs i p a e

    -- A pointer that leads to a text reads as one.
    leads-IsReadable :
        (base : Pointer) (v : Value) (k s : Bytes)
        → LeadsTo body base v
        → text_at J v k ≡ some s
        → IsReadable body (base ++ key k ∷ [])
    unfolding read_text
    leads-IsReadable base v k s h e =
        let (w, ew, es) = chain (get v k) as_str s e in
        let r : pointer body (base ++ key k ∷ []) ≡ some w =
          h (key k ∷ []) ∙ pointer_key v w k [] ew ∙ pointer_nil w in
        rw (r, es) refl

    block-IsReadable :
        (base : Pointer) (v block : Value) (vs : List Value) (i : ℕ)
        → LeadsTo body base v
        → as_array v ≡ some vs
        → get_elem? vs i ≡ some block
        → All (IsReadable body) (block_pointers J base i block)
    block-IsReadable base v block vs i h a e =
        elim (Bool-cases (is_some (text_at J block (codes "text")))) [
          | inl has ↦
              let (s, es) = is_some-some (text_at J block (codes "text")) has in
              let r =
                leads-IsReadable (base ++ index i ∷ []) block (codes "text") s
                  (leads_index base v block vs i h a e) es in
              rw has (
                subst (IsReadable body) (append_assoc base (index i ∷ []) (key (codes "text") ∷ []))
                    r,
                tt,
              )
          | inr lacks ↦ rw lacks tt
        ]

    blocks-IsReadable :
        (base : Pointer) (v : Value) (vs : List Value)
        → LeadsTo body base v
        → as_array v ≡ some vs
        → All (IsReadable body) (enumerate 0 (block_pointers J base) vs)
    blocks-IsReadable base v vs h a =
        All-enumerate_0 (IsReadable body) (block_pointers J base) vs
          (λ j block e. block-IsReadable base v block vs j h a e)

    -- The list under `k` of a value that `base` leads to, if there is one.
    list_at-IsReadable :
        (base : Pointer) (v : Value) (k : Bytes) (f : ℕ → Value → List Pointer)
        → LeadsTo body base v
        → ((w x : Value) (vs : List Value) (i : ℕ)
            → LeadsTo body (base ++ key k ∷ []) w
            → as_array w ≡ some vs
            → get_elem? vs i ≡ some x
            → All (IsReadable body) (f i x))
        → All (IsReadable body) (enumerate 0 f (to_list (list_at J v k)))
    list_at-IsReadable base v k f h each = elim (Option-cases (list_at J v k)) [
      | inl none_there ↦ rw none_there tt
      | inr (vs, e) ↦
          let (w, ew, ev) = chain (get v k) as_array vs e in
          rw e (
            All-enumerate_0 (IsReadable body) f vs
              (λ i x ex. each w x vs i (leads_key base v w k h ew) ev ex))
    ]

    collect_blocks-IsReadable :
        (value : Option Value) (base : Pointer)
        → ((v : Value) → value ≡ some v → LeadsTo body base v)
        → All (IsReadable body) (collect_blocks J value base)
    unfolding collect_blocks
    collect_blocks-IsReadable none base h = tt
    collect_blocks-IsReadable (some v) base h = elim (Option-cases (as_array v)) [
      | inl no_list ↦ rw no_list tt
      | inr (vs, e) ↦ rw e (blocks-IsReadable base v vs (h v refl) e)
    ]

    message-IsReadable :
        (w message : Value) (vs : List Value) (i : ℕ)
        → LeadsTo body (key (codes "messages") ∷ []) w
        → as_array w ≡ some vs
        → get_elem? vs i ≡ some message
        → All (IsReadable body) (message_pointers J i message)
    message-IsReadable w message vs i h a e =
        let base : Pointer = key (codes "messages") ∷ index i ∷ [] in
        let at : LeadsTo body base message =
          leads_index (key (codes "messages") ∷ []) w message vs i h a e in
        elim (Bool-cases (is_some (text_at J message (codes "content")))) [
          | inl has ↦
              let (s, es) = is_some-some (text_at J message (codes "content")) has in
              rw has (leads-IsReadable base message (codes "content") s at es, tt)
          | inr lacks ↦ rw lacks (
              collect_blocks-IsReadable (get message (codes "content"))
                (key (codes "messages") ∷ index i ∷ key (codes "content") ∷ [])
                (λ v ev. leads_key base message v (codes "content") at ev))
        ]

    openai_pointers-IsReadable : All (IsReadable body) (openai_pointers J body)
    unfolding openai_pointers
    openai_pointers-IsReadable =
        list_at-IsReadable [] body (codes "messages") (message_pointers J) leads_here
          message-IsReadable

    anthropic_pointers-IsReadable : All (IsReadable body) (anthropic_pointers J body)
    unfolding anthropic_pointers
    anthropic_pointers-IsReadable =
        let rest =
          All-append (IsReadable body)
            (collect_blocks J (get body (codes "system")) (key (codes "system") ∷ []))
            (enumerate 0 (message_pointers J) (to_list (list_at J body (codes "messages"))))
            (collect_blocks-IsReadable (get body (codes "system")) (key (codes "system") ∷ [])
              (λ v e. leads_key [] body v (codes "system") leads_here e))
            (list_at-IsReadable [] body (codes "messages") (message_pointers J) leads_here
              message-IsReadable) in
        elim (Bool-cases (is_some (text_at J body (codes "system")))) [
          | inl has ↦
              let (s, es) = is_some-some (text_at J body (codes "system")) has in
              rw has (leads-IsReadable [] body (codes "system") s leads_here es, rest)
          | inr lacks ↦ rw lacks rest
        ]

    content-IsReadable :
        (w content : Value) (vs : List Value) (i : ℕ)
        → LeadsTo body (key (codes "contents") ∷ []) w
        → as_array w ≡ some vs
        → get_elem? vs i ≡ some content
        → All (IsReadable body) (content_pointers J i content)
    content-IsReadable w content vs i h a e =
        list_at-IsReadable (key (codes "contents") ∷ index i ∷ []) content (codes "parts")
          (block_pointers J (key (codes "contents") ∷ index i ∷ key (codes "parts") ∷ []))
          (leads_index (key (codes "contents") ∷ []) w content vs i h a e)
          (λ v block bs j hv av eb.
            block-IsReadable (key (codes "contents") ∷ index i ∷ key (codes "parts") ∷ []) v block
              bs j hv av eb)

    instruction-IsReadable :
        (o : Option Value)
        → get body (codes "systemInstruction") ≡ o
        → All (IsReadable body) (
            enumerate 0
              (block_pointers J (key (codes "systemInstruction") ∷ key (codes "parts") ∷ []))
              (to_list (o >>= λ s. list_at J s (codes "parts"))))
    instruction-IsReadable none e = tt
    instruction-IsReadable (some s) e =
        list_at-IsReadable (key (codes "systemInstruction") ∷ []) s (codes "parts") _
          (leads_key [] body s (codes "systemInstruction") leads_here e)
          (λ v block bs j hv av eb.
            block-IsReadable (key (codes "systemInstruction") ∷ key (codes "parts") ∷ []) v block bs
              j hv av eb)

    google_pointers-IsReadable : All (IsReadable body) (google_pointers J body)
    unfolding google_pointers
    google_pointers-IsReadable =
        All-append (IsReadable body) _ _
          (instruction-IsReadable (get body (codes "systemInstruction")) refl)
          (list_at-IsReadable [] body (codes "contents") (content_pointers J) leads_here
            content-IsReadable)

    -- Every pointer that `text_pointers` returns for a body, whatever the provider, addresses a text
    -- in it.
    pub text_pointers-IsReadable :
        (provider : Provider) → All (IsReadable body) (text_pointers J provider body)
    unfolding text_pointers
    text_pointers-IsReadable anthropic = anthropic_pointers-IsReadable
    text_pointers-IsReadable open_ai = openai_pointers-IsReadable
    text_pointers-IsReadable google = google_pointers-IsReadable
