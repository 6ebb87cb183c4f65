-- ===== src/Stream.antt =====
-- gateway/crates/sentin-proxy/src/stream.rs: how a streamed response is held back and let go. The
-- upstream is the list of what it yields; logging is left out. `flush_point` reads the text lossily,
-- which changes no ASCII byte.
pub mod Laws
use sentin_npu.Prelude.{
  ℕ, zero, suc, ◌+◌, ◌-◌, ◌||◌, Bool, List, [], ◌∷◌, ◌++◌, Option, none, some, ltb, ◌==◌,
  if◌then◌else◌, is_empty, length, take, drop, any, Bytes,
}
use sentin_npu.Scan.Cursor.{bytes_eq, slice}

-- What the upstream yields, and what is passed on: some bytes, or an error.
pub data Item : Type 0 where
  chunk : Bytes → Item
  failed : Item

-- `(0..=k).rev().find(…)`
unfoldable pub find_down : Bytes → Bytes → ℕ → Option ℕ
find_down haystack needle zero =
    if bytes_eq (slice haystack 0 (0 + length needle)) needle then some 0 else none
find_down haystack needle (suc k) =
    let next = find_down haystack needle k in
    if bytes_eq (slice haystack (suc k) (suc k + length needle)) needle then some (suc k) else next

unfoldable pub find_last : Bytes → Bytes → Option ℕ
unfolding find_down
find_last haystack needle =
    if ltb (length haystack) (length needle)
    then none
    else find_down haystack needle (length haystack - length needle)

abbrev pub event_end : Bytes
event_end = 10 ∷ 10 ∷ []

abbrev pub ends_sentence : ℕ → Bool
ends_sentence b = b == b'.' || b == b'!' || b == b'?'

-- The cut behind an event boundary, if a sentence ends in front of it.
abbrev pub cut_at : Bytes → Option ℕ → Option ℕ
cut_at pending none = none
cut_at pending (some i) =
    if any ends_sentence (take (i + 2) pending)
    then if ltb 0 (i + 2) then some (i + 2) else none
    else none

unfoldable pub flush_point : Bytes → Option ℕ
unfolding find_last
flush_point pending = cut_at pending (find_last pending event_end)

-- What is split off, if there is a cut, and what is kept.
abbrev pub released : Bytes → Option ℕ → List Item
released pending none = []
released pending (some cut) = chunk (take cut pending) ∷ []

abbrev pub kept : Bytes → Option ℕ → Bytes
kept pending none = pending
kept pending (some cut) = drop cut pending

-- `windowed`: the stream passed on, with what is held back so far.
unfoldable pub windowed : List Item → Bytes → List Item
unfolding flush_point
windowed [] pending = if is_empty pending then [] else chunk pending ∷ []
windowed (failed ∷ items) pending = failed ∷ []
windowed (chunk c ∷ items) pending =
    let held = pending ++ c in
    let cut = flush_point held in released held cut ++ windowed items (kept held cut)
