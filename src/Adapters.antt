-- ===== src/Adapters.antt =====
-- gateway/crates/sentin-proxy/src/adapters.rs: where each provider's request schema keeps its
-- texts and its attachments.
pub mod Readable
use sentin_npu.Config.{starts_with, text_eq}
use sentin_npu.Json.{Json, key, index, Pointer, ◌>>=◌}
use sentin_npu.Prelude.{
  ℕ, ◌+◌, Bool, true, false, List, [], ◌∷◌, ◌++◌, Option, none, some, if◌then◌else◌, Bytes, codes,
}

-- Which provider schema a request body follows.
pub data Provider : Type 0 where
  anthropic open_ai google : Provider

unfoldable pub from_name : Bytes → Option Provider
from_name name =
    if text_eq name (codes "anthropic")
    then some anthropic
    else if text_eq name (codes "openai")
    then some open_ai
    else if text_eq name (codes "google")
    then some google
    else none

abbrev pub is_some {ℓ} : {A : Type ℓ} → Option A → Bool
is_some none = false
is_some (some a) = true

abbrev pub or_else {ℓ} : {A : Type ℓ} → Option A → Option A → Option A
or_else none b = b
or_else (some a) b = some a

abbrev pub to_list {ℓ} : {A : Type ℓ} → Option (List A) → List A
to_list none = []
to_list (some xs) = xs

-- `for (i, x) in xs.iter().enumerate()`, each round pushing what `f` gives.
abbrev pub enumerate {ℓ κ} : {A : Type ℓ} {B : Type κ} → ℕ → (ℕ → A → List B) → List A → List B
enumerate i f [] = []
enumerate i f (x ∷ xs) = f i x ++ enumerate (i + 1) f xs

-- One attachment: where its bytes are, and the media type that the caller declared.
pub record Attachment : Type 0 where
  pub pointer : Pointer
  pub declared_type : Option Bytes

module _ (J : Json) where
  open J use {Value, get, as_str, as_array}

  -- `value.get(name).and_then(Value::as_str)`
  abbrev pub text_at : Value → Bytes → Option Bytes
  text_at v name = get v name >>= as_str

  abbrev pub list_at : Value → Bytes → Option (List Value)
  list_at v name = get v name >>= as_array

  -- The `text` fields of typed content blocks.
  abbrev pub block_pointers : Pointer → ℕ → Value → List Pointer
  block_pointers base i block =
      if is_some (text_at block (codes "text"))
      then (base ++ index i ∷ key (codes "text") ∷ []) ∷ []
      else []

  unfoldable pub collect_blocks : Option Value → Pointer → List Pointer
  collect_blocks value base = enumerate 0 (block_pointers base) (to_list (value >>= as_array))

  -- The content of one message, a text or a list of blocks.
  abbrev pub message_pointers : ℕ → Value → List Pointer
  message_pointers i message =
      let base = key (codes "messages") ∷ index i ∷ key (codes "content") ∷ [] in
      if is_some (text_at message (codes "content"))
      then base ∷ []
      else collect_blocks (get message (codes "content")) base

  -- `openai`
  unfoldable pub openai_pointers : Value → List Pointer
  unfolding collect_blocks
  openai_pointers body = enumerate 0 message_pointers (to_list (list_at body (codes "messages")))

  -- `anthropic`: a system prompt, then the messages.
  unfoldable pub anthropic_pointers : Value → List Pointer
  unfolding collect_blocks
  anthropic_pointers body =
      (if is_some (text_at body (codes "system")) then (key (codes "system") ∷ []) ∷ [] else [])
      ++ (collect_blocks (get body (codes "system")) (key (codes "system") ∷ [])
          ++ enumerate 0 message_pointers (to_list (list_at body (codes "messages"))))

  -- `google`: the parts of the system instruction, then those of the contents.
  abbrev pub content_pointers : ℕ → Value → List Pointer
  content_pointers i content =
      enumerate 0 (block_pointers (key (codes "contents") ∷ index i ∷ key (codes "parts") ∷ []))
        (to_list (list_at content (codes "parts")))

  unfoldable pub google_pointers : Value → List Pointer
  google_pointers body =
      enumerate 0 (block_pointers (key (codes "systemInstruction") ∷ key (codes "parts") ∷ []))
        (to_list (get body (codes "systemInstruction") >>= λ s. list_at s (codes "parts")))
      ++ enumerate 0 content_pointers (to_list (list_at body (codes "contents")))

  unfoldable pub text_pointers : Provider → Value → List Pointer
  unfolding anthropic_pointers openai_pointers google_pointers
  text_pointers anthropic body = anthropic_pointers body
  text_pointers open_ai body = openai_pointers body
  text_pointers google body = google_pointers body

  -- `Some(Attachment { … })` as a list of at most one.
  abbrev pub attach : Pointer → Option Bytes → List Attachment
  attach p t = record { pointer = p; declared_type = t } ∷ []

  -- The closure for Anthropic: a block whose source is base64.
  unfoldable pub anthropic_source : Pointer → Value → List Attachment
  anthropic_source base source = elim (text_at source (codes "type")) [
    | none ↦ []
    | some t ↦
        if text_eq t (codes "base64")
        then if is_some (text_at source (codes "data"))
          then attach (base ++ key (codes "source") ∷ key (codes "data") ∷ [])
              (text_at source (codes "media_type"))
          else []
        else []
  ]

  abbrev pub anthropic_block : Pointer → Value → List Attachment
  anthropic_block base block = elim (get block (codes "source")) [
    | none ↦ []
    | some source ↦ anthropic_source base source
  ]

  -- The closure for the OpenAI dialect: a file, else an image that is a data URI.
  abbrev pub openai_block : Pointer → Value → List Attachment
  openai_block base block =
      if is_some (get block (codes "file") >>= λ f. text_at f (codes "file_data"))
      then attach (base ++ key (codes "file") ∷ key (codes "file_data") ∷ []) none
      else elim (get block (codes "image_url") >>= λ u. text_at u (codes "url")) [
        | none ↦ []
        | some url ↦
            if starts_with url (codes "data:")
            then attach (base ++ key (codes "image_url") ∷ key (codes "url") ∷ []) none
            else []
      ]

  -- `walk_message_blocks` over the field `messages`.
  abbrev pub walk_message : (Pointer → Value → List Attachment) → ℕ → Value → List Attachment
  walk_message pick i message =
      enumerate 0
        (λ j block.
          pick (key (codes "messages") ∷ index i ∷ key (codes "content") ∷ index j ∷ []) block)
        (to_list (list_at message (codes "content")))

  unfoldable pub walk_message_blocks : (Pointer → Value → List Attachment) → Value → List Attachment
  walk_message_blocks pick body =
      enumerate 0 (walk_message pick) (to_list (list_at body (codes "messages")))

  -- Google: `inline_data` or `inlineData` of a part.
  unfoldable pub google_part : ℕ → ℕ → Value → List Attachment
  google_part i j part =
      elim (or_else (get part (codes "inline_data")) (get part (codes "inlineData"))) [
        | none ↦ []
        | some inline ↦
            let name =
              if is_some (get part (codes "inline_data"))
              then codes "inline_data"
              else codes "inlineData" in
            if is_some (text_at inline (codes "data"))
            then attach
                (key (codes "contents")
                  ∷ index i
                  ∷ key (codes "parts")
                  ∷ index j
                  ∷ key name
                  ∷ key (codes "data")
                  ∷ [])
                (or_else (get inline (codes "mime_type")) (get inline (codes "mimeType"))
                  >>= as_str)
            else []
      ]

  unfoldable pub google_attachments : Value → List Attachment
  unfolding google_part
  google_attachments body =
      enumerate 0
        (λ i content. enumerate 0 (google_part i) (to_list (list_at content (codes "parts"))))
        (to_list (list_at body (codes "contents")))

  -- Every attachment in the body, in document order.
  unfoldable pub attachments : Provider → Value → List Attachment
  unfolding anthropic_source walk_message_blocks google_attachments
  attachments anthropic body = walk_message_blocks anthropic_block body
  attachments open_ai body = walk_message_blocks openai_block body
  attachments google body = google_attachments body

  -- Read the string at a pointer, if it is a string.
  unfoldable pub read_text : Value → Pointer → Option Bytes
  read_text body p = J.pointer body p >>= as_str

  -- Replace the string at a pointer; the flag says whether there was one.
  unfoldable pub write_text : Value → Pointer → Bytes → Value × Bool
  unfolding read_text
  write_text body p replacement =
      if is_some (read_text body p) then (J.assign body p replacement, true) else (body, false)
