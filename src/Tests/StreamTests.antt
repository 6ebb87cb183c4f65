-- ===== src/Tests/StreamTests.antt =====
-- A response in three chunks through the sliding window.
use sentin_npu.Prelude.{◌≡◌, refl, List, [], ◌∷◌, ◌++◌, map, some, Bytes, codes}
use sentin_npu.Stream
use sentin_npu.Stream.{Item, chunk, event_end, flush_point, windowed}
use sentin_npu.Stream.Laws.{joined, joined-windowed}

abbrev chunks : List Bytes
chunks = codes "data: Hi" ∷ (codes " there." ++ event_end ++ codes "data") ∷ codes ": x" ∷ []

window :
    windowed (map chunk chunks) []
    ≡ chunk (codes "data: Hi there." ++ event_end) ∷ chunk (codes "data: x") ∷ []
unfolding Stream.windowed Stream.flush_point Stream.find_last Stream.find_down
window = refl

joined-windowed_example : joined (windowed (map chunk chunks) []) ≡ [] ++ joined (map chunk chunks)
joined-windowed_example = joined-windowed chunks []

abbrev pending : Bytes
pending = codes "data: Hi." ++ event_end ++ codes "da"

cut_pending : flush_point pending ≡ some 11
unfolding Stream.flush_point Stream.find_last Stream.find_down
cut_pending = refl
