-- ===== src/Extract/Runs.antt =====
-- What `decode_text` keeps of a text whose encoding is not known.
use sentin_npu.Config.{starts_with}
use sentin_npu.Extract.Document.{utf16_bom, without_mark, decode_marked, decode_text}
use sentin_npu.Extract.Sync.{drop-append, from_utf8_lossy-run}
use sentin_npu.Extract.Utf8.{from_utf8_lossy}
use sentin_npu.Prelude.{
  ℕ, ◌≤◌, ◌<◌, ◌≡◌, refl, sym, ap, ◌∙◌, inl, inr, true, ◌&&◌, ◌==◌, [], ◌∷◌, ◌++◌, none, length,
  All, arith, Bytes, Bool-cases,
}

-- An ASCII byte is not part of a mark.
starts_with-append :
    (s : Bytes) (b : ℕ) (r mark : Bytes)
    → b < 128
    → All (λ c. 128 ≤ c) mark
    → starts_with (s ++ (b ∷ r)) mark ≡ starts_with s mark
unfolding starts_with
starts_with-append s b r [] k h = refl
starts_with-append [] b r (c ∷ mark) k (hc, h) = ground arith
starts_with-append (a ∷ s) b r (c ∷ mark) k (hc, h) =
    ap (λ rest. a == c && rest) (starts_with-append s b r mark k h)

starts_with-le : (s mark : Bytes) → starts_with s mark ≡ true → length mark ≤ length s
unfolding starts_with
starts_with-le s [] h = omega arith
starts_with-le [] (c ∷ mark) h = absurd (ground arith)
starts_with-le (a ∷ s) (c ∷ mark) h =
    let rest : starts_with s mark ≡ true = ground arith in omega (arith, starts_with-le s mark rest)

utf16_bom-append :
    (s : Bytes) (b : ℕ) (r : Bytes) → b < 128 → utf16_bom (s ++ (b ∷ r)) ≡ utf16_bom s
utf16_bom-append s b r k = rw (
  starts_with-append s b r (255 ∷ 254 ∷ []) k (ground arith),
  starts_with-append s b r (254 ∷ 255 ∷ []) k (ground arith),
)

without_mark-append :
    (s : Bytes) (b : ℕ) (r : Bytes)
    → b < 128
    → without_mark (s ++ (b ∷ r)) ≡ without_mark s ++ (b ∷ r)
without_mark-append s b r k =
    let same = starts_with-append s b r (239 ∷ 187 ∷ 191 ∷ []) k (ground arith) in
    elim (Bool-cases (starts_with s (239 ∷ 187 ∷ 191 ∷ []))) [
      | inl marked ↦
          rw (same, marked)
            (drop-append 3 s (b ∷ r) (starts_with-le s (239 ∷ 187 ∷ 191 ∷ []) marked))
      | inr plain ↦ rw (same, plain) refl
    ]

-- For a file without a UTF-16 byte order mark, whatever its encoding: a run of ASCII bytes in it
-- stands whole and unchanged in the decoded text, behind what the bytes in front of it decode to by
-- themselves, and the bytes behind it have no influence on either.
pub decode_text-run :
    (s : Bytes) (b : ℕ) (run t : Bytes)
    → b < 128
    → All (λ c. c < 128) run
    → utf16_bom s ≡ none
    → decode_text (s ++ ((b ∷ run) ++ t)) ≡ decode_text s ++ ((b ∷ run) ++ from_utf8_lossy t)
unfolding decode_text
decode_text-run s b run t k ks unmarked =
    ap (λ o. decode_marked o (s ++ ((b ∷ run) ++ t))) (utf16_bom-append s b (run ++ t) k ∙ unmarked)
    ∙ ap from_utf8_lossy (without_mark-append s b (run ++ t) k)
    ∙ from_utf8_lossy-run (without_mark s) b run t k ks
    ∙ ap (λ o. decode_marked o s ++ ((b ∷ run) ++ from_utf8_lossy t)) (sym unmarked)
