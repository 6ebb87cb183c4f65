-- ===== src/Trim.antt =====
-- `str::trim_start`, `str::trim_end` and `str::trim` where sentin-core, sentin-ui and sentin-extract
-- call them: a text is its UTF-8 bytes, and what is trimmed is the white space of Unicode.
use sentin_npu.Config.{starts_with}
use sentin_npu.Prelude.{
  ℕ, zero, suc, List, [], ◌∷◌, map, reverse, none, some, find, length, drop, Bytes,
}

-- The encodings of the characters with the property `White_Space`.
abbrev pub white_spaces : List Bytes
white_spaces =
    (9 ∷ [])
    ∷ (10 ∷ [])
    ∷ (11 ∷ [])
    ∷ (12 ∷ [])
    ∷ (13 ∷ [])
    ∷ (32 ∷ [])
    ∷ (194 ∷ 133 ∷ [])
    ∷ (194 ∷ 160 ∷ [])
    ∷ (225 ∷ 154 ∷ 128 ∷ [])
    ∷ (226 ∷ 128 ∷ 128 ∷ [])
    ∷ (226 ∷ 128 ∷ 129 ∷ [])
    ∷ (226 ∷ 128 ∷ 130 ∷ [])
    ∷ (226 ∷ 128 ∷ 131 ∷ [])
    ∷ (226 ∷ 128 ∷ 132 ∷ [])
    ∷ (226 ∷ 128 ∷ 133 ∷ [])
    ∷ (226 ∷ 128 ∷ 134 ∷ [])
    ∷ (226 ∷ 128 ∷ 135 ∷ [])
    ∷ (226 ∷ 128 ∷ 136 ∷ [])
    ∷ (226 ∷ 128 ∷ 137 ∷ [])
    ∷ (226 ∷ 128 ∷ 138 ∷ [])
    ∷ (226 ∷ 128 ∷ 168 ∷ [])
    ∷ (226 ∷ 128 ∷ 169 ∷ [])
    ∷ (226 ∷ 128 ∷ 175 ∷ [])
    ∷ (226 ∷ 129 ∷ 159 ∷ [])
    ∷ (227 ∷ 128 ∷ 128 ∷ [])
    ∷ []

-- White space in front, given by its encodings, is left out.
unfoldable pub trim_by : List Bytes → ℕ → Bytes → Bytes
unfolding starts_with
trim_by spaces zero s = s
trim_by spaces (suc fuel) s = elim (find (starts_with s) spaces) [
  | none ↦ s
  | some w ↦ trim_by spaces fuel (drop (length w) s)
]

abbrev pub trim_start : Bytes → Bytes
trim_start s = trim_by white_spaces (length s) s

abbrev pub trim_end : Bytes → Bytes
trim_end s = reverse (trim_by (map reverse white_spaces) (length s) (reverse s))

abbrev pub trim : Bytes → Bytes
trim s = trim_end (trim_start s)
