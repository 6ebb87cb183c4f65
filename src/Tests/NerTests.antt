-- ===== src/Tests/NerTests.antt =====
-- Labels read from scores, and two words that are one name.
use sentin_npu.Core.DataKind
use sentin_npu.Core.DataKind.{person}
use sentin_npu.Core.Device
use sentin_npu.Core.Device.{returns, panics}
use sentin_npu.Core.Finding.{Finding}
use sentin_npu.Ner.Decode
use sentin_npu.Ner.Decode.{decode, entity, make_finding}
use sentin_npu.Ner.Laws.{IsEntity, decode-All-IsEntity}
use sentin_npu.Prelude.{
  ℕ, ◌≡◌, refl, Bool, List, [], ◌∷◌, Option, none, some, All, ltb, arith, Bytes, codes,
}

abbrev labels : List Bytes
labels = codes "O" ∷ codes "B-PER" ∷ codes "I-PER" ∷ []

abbrev greater : ℕ → ℕ → Bool
greater a b = ltb b a

abbrev message : Bytes
message = codes "Anna Kowalska mieszka"

-- [CLS], Anna, Kow, ##alska, mieszka
abbrev word_ids : List (Option ℕ)
word_ids = none ∷ some 0 ∷ some 1 ∷ some 1 ∷ some 2 ∷ []

abbrev offsets : List (ℕ × ℕ)
offsets = (0, 0) ∷ (0, 4) ∷ (5, 8) ∷ (8, 13) ∷ (14, 21) ∷ []

abbrev logits : List ℕ
logits = 9 ∷ 0 ∷ 0 ∷ 1 ∷ 9 ∷ 2 ∷ 1 ∷ 2 ∷ 9 ∷ 9 ∷ 2 ∷ 1 ∷ 9 ∷ 0 ∷ 0 ∷ []

-- The second word's label is that of its first token, and its extent that of both.
one_name :
    decode ℕ greater labels logits 3 word_ids offsets message ≡ returns (entity 0 13 person ∷ [])
unfolding DataKind.eq Decode.split_once Decode.last_max Decode.argmax Decode.scores_at
    Decode.label_of Decode.read_words Decode.of_kind Decode.prefix_and_entity Decode.merge_words
    Decode.decode Decode.make_finding Device.is_char_boundary
one_name = refl

-- An offset in the middle of a character fails the assertion.
off_boundary : make_finding (195 ∷ 179 ∷ []) 0 1 person ≡ panics
unfolding Decode.make_finding Device.is_char_boundary
off_boundary = refl

decode-All-IsEntity_example :
    (fs : List Finding) × (decode ℕ greater labels logits 3 word_ids offsets message ≡ returns fs)
    × All (IsEntity message) fs
unfolding Device.is_char_boundary
decode-All-IsEntity_example =
    decode-All-IsEntity ℕ greater labels logits 3 word_ids offsets message (omega arith)
      (omega arith)
      ((refl, refl), ((refl, refl), ((refl, refl), ((refl, refl), ((refl, refl), tt)))))
