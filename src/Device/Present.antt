-- ===== src/Device/Present.antt =====
-- The devices that are tried for a request are there.
use sentin_npu.Config.{text_eq}
use sentin_npu.Core.Device.{eq_ignore_ascii_case}
use sentin_npu.Device.Resolve.{
  auto_order, has, first_present, automatic, fallback, resolve_device, others, device_candidates,
}
use sentin_npu.Prelude.{
  ◌≡◌, refl, ◌⊎◌, inl, inr, true, false, not, ◌&&◌, List, [], ◌∷◌, Option, none, some, All, All-imp,
  arith, Bytes, Bool-cases, codes, &&-eq-true,
}

-- A device of that name is available, or the name is the last resort when none of the order is.
abbrev pub IsPresent : List Bytes → Bytes → Type 0
IsPresent available c =
    (has available c ≡ true) ⊎ ((c ≡ codes "CPU") × (first_present available auto_order ≡ none))

abbrev IsFound : List Bytes → Option Bytes → Type 0
IsFound available none = Unit
IsFound available (some c) = has available c ≡ true

first_present-IsFound :
    (available order : List Bytes) → IsFound available (first_present available order)
unfolding first_present
first_present-IsFound available [] = tt
first_present-IsFound available (c ∷ cs) = elim (Bool-cases (has available c)) [
  | inl there ↦ rw there there
  | inr away ↦ rw away (first_present-IsFound available cs)
]

resolve_device-IsPresent :
    (requested : Bytes) (available : List Bytes)
    → IsPresent available (resolve_device requested available).0
unfolding resolve_device
resolve_device-IsPresent requested available =
    elim (Bool-cases (eq_ignore_ascii_case requested (codes "AUTO"))) [
      | inl auto_ ↦ rw auto_ (
          by_auto (first_present available auto_order) refl
            (first_present-IsFound available auto_order))
      | inr named ↦ rw named (elim (Bool-cases (has available requested)) [
        | inl there ↦ rw there (inl there)
        | inr away ↦ rw away (
            by_fallback (first_present available auto_order) refl
              (first_present-IsFound available auto_order))
      ])
    ]
  where
    by_auto :
        (o : Option Bytes)
        → first_present available auto_order ≡ o
        → IsFound available o
        → IsPresent available (automatic o).0
    by_auto none e h = inr (refl, e)
    by_auto (some c) e h = inl h

    by_fallback :
        (o : Option Bytes)
        → first_present available auto_order ≡ o
        → IsFound available o
        → IsPresent available (fallback o).0
    by_fallback none e h = inr (refl, e)
    by_fallback (some c) e h = inl h

-- A device of the order that is there and is not the first.
abbrev IsOther : Bytes → List Bytes → Bytes → Type 0
IsOther first available c = (text_eq c first ≡ false) × (has available c ≡ true)

others-IsOther :
    (first : Bytes) (available order : List Bytes)
    → All (IsOther first available) (others first available order)
unfolding others
others-IsOther first available [] = tt
others-IsOther first available (c ∷ cs) =
    elim (Bool-cases (not (text_eq c first) && has available c)) [
      | inl both ↦
          let (new, there) = &&-eq-true (not (text_eq c first)) (has available c) both in
          rw both ((ground arith, there), others-IsOther first available cs)
      | inr skip ↦ rw skip (others-IsOther first available cs)
    ]

-- Every device that `device_candidates` lists is there, or it is the CPU, listed because none of the
-- order is there; and those behind the first have other names than it.
pub device_candidates-IsPresent :
    (requested : Bytes) (available : List Bytes)
    → All (IsPresent available) (device_candidates requested available).0
      × ((device_candidates requested available).1 ≡ (resolve_device requested available).1)
      × ((rest : List Bytes) × ((device_candidates requested available).0
            ≡ (resolve_device requested available).0 ∷ rest)
          × All (λ c. text_eq c (resolve_device requested available).0 ≡ false) rest)
unfolding device_candidates
device_candidates-IsPresent requested available =
    let first = (resolve_device requested available).0 in
    let rest = others-IsOther first available auto_order in
    (
      (
        resolve_device-IsPresent requested available,
        All-imp (λ c h. inl h.1) (others first available auto_order) rest,
      ),
      refl,
      (
        others first available auto_order,
        refl,
        All-imp (λ c h. h.0) (others first available auto_order) rest,
      ),
    )
