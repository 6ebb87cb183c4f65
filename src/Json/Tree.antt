-- ===== src/Json/Tree.antt =====
-- A JSON value as a tree of texts, lists and members: an instance of the interface, on which the
-- examples run.
use mathlib.Core.Option.{some-injective}
use sentin_npu.Config.{text_eq}
use sentin_npu.Json.{Json, key, index, Pointer, ◌>>=◌}
use sentin_npu.Prelude.{
  ℕ, zero, suc, ◌≡◌, refl, List, [], ◌∷◌, Option, none, some, get_elem?, if◌then◌else◌, Bytes,
  arith, Bool-cases, inl, inr,
}

mutual
  pub data Tree : Type 0 where
    text : Bytes → Tree
    array : Trees → Tree
    object : Members → Tree

  pub data Trees : Type 0 where
    no_items : Trees
    item : Tree → Trees → Trees

  pub data Members : Type 0 where
    no_members : Members
    with_member : Bytes → Tree → Members → Members

abbrev pub to_items : Trees → List Tree
to_items no_items = []
to_items (item v vs) = v ∷ to_items vs

abbrev pub find : Members → Bytes → Option Tree
find no_members k = none
find (with_member n v ms) k = if text_eq n k then some v else find ms k

abbrev pub get : Tree → Bytes → Option Tree
get (object ms) k = find ms k
get _ k = none

abbrev pub as_str : Tree → Option Bytes
as_str (text s) = some s
as_str _ = none

abbrev pub as_array : Tree → Option (List Tree)
as_array (array vs) = some (to_items vs)
as_array _ = none

abbrev pub items_of : Tree → List Tree
items_of (array vs) = to_items vs
items_of _ = []

abbrev pub pointer : Tree → Pointer → Option Tree
pointer v [] = some v
pointer v (key k ∷ p) = get v k >>= λ w. pointer w p
pointer v (index i ∷ p) = get_elem? (items_of v) i >>= λ w. pointer w p

abbrev pub update : (Tree → Tree) → Members → Bytes → Members
update f no_members k = no_members
update f (with_member n v ms) k =
    if text_eq n k then with_member n (f v) ms else with_member n v (update f ms k)

abbrev pub update_at : (Tree → Tree) → Trees → ℕ → Trees
update_at f no_items i = no_items
update_at f (item v vs) zero = item (f v) vs
update_at f (item v vs) (suc i) = item v (update_at f vs i)

abbrev pub at_key : (Tree → Tree) → Tree → Bytes → Tree
at_key f (object ms) k = object (update f ms k)
at_key f v k = v

abbrev pub at_index : (Tree → Tree) → Tree → ℕ → Tree
at_index f (array vs) i = array (update_at f vs i)
at_index f v i = v

abbrev pub assign : Tree → Pointer → Bytes → Tree
assign v [] new = text new
assign v (key k ∷ p) new = at_key (λ w. assign w p new) v k
assign v (index i ∷ p) new = at_index (λ w. assign w p new) v i

find-update :
    (f : Tree → Tree) (ms : Members) (k : Bytes) (w : Tree)
    → find ms k ≡ some w
    → find (update f ms k) k ≡ some (f w)
find-update f no_members k w e = ground arith
find-update f (with_member n v ms) k w e = elim (Bool-cases (text_eq n k)) [
  | inl same ↦ ground arith
  | inr other ↦ ground (arith, find-update f ms k w)
]

get-at_key :
    (f : Tree → Tree) (v w : Tree) (k : Bytes)
    → get v k ≡ some w
    → get (at_key f v k) k ≡ some (f w)
get-at_key f (object ms) w k e = find-update f ms k w e
get-at_key f (text s) w k e = ground arith
get-at_key f (array vs) w k e = ground arith

get_elem?-update_at :
    (f : Tree → Tree) (vs : Trees) (i : ℕ) (w : Tree)
    → get_elem? (to_items vs) i ≡ some w
    → get_elem? (to_items (update_at f vs i)) i ≡ some (f w)
get_elem?-update_at f no_items i w e = ground arith
get_elem?-update_at f (item v vs) zero w e = ground arith
get_elem?-update_at f (item v vs) (suc i) w e = get_elem?-update_at f vs i w e

items-at_index :
    (f : Tree → Tree) (v w : Tree) (i : ℕ)
    → get_elem? (items_of v) i ≡ some w
    → get_elem? (items_of (at_index f v i)) i ≡ some (f w)
items-at_index f (array vs) w i e = get_elem?-update_at f vs i w e
items-at_index f (text s) w i e = ground arith
items-at_index f (object ms) w i e = ground arith

-- What a successful chain went through.
>>=-some :
    {A B : Type 0} (o : Option A) (f : A → Option B) (b : B)
    → (o >>= f) ≡ some b
    → (a : A) × (o ≡ some a) × (f a ≡ some b)
>>=-some none f b e = ground arith
>>=-some (some a) f b e = (a, refl, e)

-- What is assigned over a text is read back.
pub pointer-assign :
    (v w : Tree) (p : Pointer) (old new : Bytes)
    → pointer v p ≡ some w
    → as_str w ≡ some old
    → (pointer (assign v p new) p >>= as_str) ≡ some new
pointer-assign v w [] old new e h = refl
pointer-assign v w (key k ∷ p) old new e h =
    let (x, ex, ew) = >>=-some (get v k) (λ x. pointer x p) w e in
    rw (get-at_key (λ x. assign x p new) v x k ex) (pointer-assign x w p old new ew h)
pointer-assign v w (index i ∷ p) old new e h =
    let (x, ex, ew) = >>=-some (get_elem? (items_of v) i) (λ x. pointer x p) w e in
    rw (items-at_index (λ x. assign x p new) v x i ex) (pointer-assign x w p old new ew h)

pub pointer-index :
    (v w : Tree) (vs : List Tree) (i : ℕ) (p : Pointer)
    → as_array v ≡ some vs
    → get_elem? vs i ≡ some w
    → pointer v (index i ∷ p) ≡ pointer w p
pointer-index (array xs) w vs i p e h = ground (arith, some-injective _ _ e)
pointer-index (text s) w vs i p e h = ground arith
pointer-index (object ms) w vs i p e h = ground arith

abbrev pub tree_json : Json
tree_json = record {
  Value = Tree;
  get = get;
  as_str = as_str;
  as_array = as_array;
  pointer = pointer;
  assign = assign;
  pointer_nil = λ v. refl;
  pointer_key = λ v w k p e. rw e refl;
  pointer_index = pointer-index;
  pointer_assign = pointer-assign;
}
