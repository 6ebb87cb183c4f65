-- ===== src/Gateway/Names.antt =====
-- How lib.rs names the destination of a request: host, model asked for, and inspecting model.
use sentin_npu.Config.{starts_with}
use sentin_npu.Adapters.{text_at}
use sentin_npu.Json.{Json, ◌>>=◌}
use sentin_npu.Prelude.{
  ℕ, Bool, ◌||◌, List, [], ◌∷◌, reverse, Option, none, some, ◌==◌, if◌then◌else◌, is_empty, drop,
  length, Bytes, codes,
}

-- `str::split_once(needle)`, its second part.
unfoldable pub after_first : Bytes → Bytes → Option Bytes
unfolding starts_with
after_first needle [] = if is_empty needle then some [] else none
after_first needle (b ∷ s) =
    if starts_with (b ∷ s) needle then some (drop (length needle) (b ∷ s)) else after_first needle s

-- `str::split(needle).next()`, which is the whole text when the needle is not in it.
unfoldable pub before_first : Bytes → Bytes → Bytes
unfolding starts_with
before_first needle [] = []
before_first needle (b ∷ s) = if starts_with (b ∷ s) needle then [] else b ∷ before_first needle s

abbrev pub or_whole : Bytes → Option Bytes → Bytes
or_whole s none = s
or_whole s (some rest) = rest

unfoldable pub upstream_host : Bytes → Bytes
unfolding after_first before_first
upstream_host upstream =
    before_first (codes "/") (or_whole upstream (after_first (codes "://") upstream))

-- `trim_start_matches` and `trim_end_matches` of one character.
unfoldable pub trim_start_matches : ℕ → Bytes → Bytes
trim_start_matches c [] = []
trim_start_matches c (b ∷ s) = if b == c then trim_start_matches c s else b ∷ s

unfoldable pub trim_end_matches : ℕ → Bytes → Bytes
unfolding trim_start_matches
trim_end_matches c s = reverse (trim_start_matches c (reverse s))

abbrev pub nonempty : Bytes → Option Bytes
nonempty s = if is_empty s then none else some s

-- Google: what stands between the first `/models/` and the next, up to the colon.
unfoldable pub path_model : Bytes → Option Bytes
unfolding after_first before_first trim_end_matches
path_model path = after_first (codes "/models/") path >>= λ after. nonempty (
    trim_end_matches b'/'
      (trim_start_matches b'/' (before_first (codes ":") (before_first (codes "/models/") after))))

abbrev pub or_path_model : Bytes → Option Bytes → Option Bytes
or_path_model path none = path_model path
or_path_model path (some model) = if is_empty model then path_model path else some model

module _ (J : Json) where
  unfoldable pub upstream_model : J.Value → Bytes → Option Bytes
  upstream_model body path = or_path_model path (text_at J body (codes "model"))

abbrev pub is_path_separator : ℕ → Bool
is_path_separator b = b == b'/' || b == b'\\'

-- `rsplit(['/', '\\'])`, on the reversed text: the component at hand, then the others.
unfoldable pub components : Bytes → Bytes → List Bytes
components part [] = part ∷ []
components part (b ∷ s) =
    if is_path_separator b then part ∷ components [] s else components (b ∷ part) s

abbrev pub first_nonempty : List Bytes → Option Bytes
first_nonempty [] = none
first_nonempty (p ∷ ps) = if is_empty p then first_nonempty ps else some p

unfoldable pub model_id : Bytes → Option Bytes
unfolding components
model_id model_dir = first_nonempty (components [] (reverse model_dir))
