-- ===== src/Json.antt =====
-- What the gateway relies on of `serde_json::Value`, a type of another package: reading members and
-- elements, resolving a JSON pointer, and replacing the text at one. A pointer is the list of its
-- segments; the keys that the gateway writes hold neither `/` nor `~`, so its texts split so.
pub mod Tree
use sentin_npu.Prelude.{ℕ, List, [], ◌∷◌, Option, none, some, ◌≡◌, get_elem?, Bytes}

pub data Segment : Type 0 where
  key : Bytes → Segment
  index : ℕ → Segment

abbrev pub Pointer : Type 0
Pointer = List Segment

infixl 5 ◌>>=◌
abbrev pub ◌>>=◌ {ℓ κ} : {A : Type ℓ} {B : Type κ} → Option A → (A → Option B) → Option B
none >>= f = none
some a >>= f = f a

pub record Json : Type 1 where
  pub Value : Type 0
  -- `Value::get` with a text, `as_str`, `as_array`
  pub get : Value → Bytes → Option Value
  pub as_str : Value → Option Bytes
  pub as_array : Value → Option (List Value)
  -- `Value::pointer`, and the assignment `*slot = Value::String(text)` through `pointer_mut`
  pub pointer : Value → Pointer → Option Value
  pub assign : Value → Pointer → Bytes → Value
  -- A pointer is resolved one segment after the other.
  pub pointer_nil : (v : Value) → pointer v [] ≡ some v
  pub pointer_key :
      (v w : Value) (k : Bytes) (p : Pointer)
      → get v k ≡ some w
      → pointer v (key k ∷ p) ≡ pointer w p
  pub pointer_index :
      (v w : Value) (vs : List Value) (i : ℕ) (p : Pointer)
      → as_array v ≡ some vs
      → get_elem? vs i ≡ some w
      → pointer v (index i ∷ p) ≡ pointer w p
  -- What is assigned over a text is read back.
  pub pointer_assign :
      (v w : Value) (p : Pointer) (old new : Bytes)
      → pointer v p ≡ some w
      → as_str w ≡ some old
      → (pointer (assign v p new) p >>= as_str) ≡ some new
