-- ===== src/Extract/Utf8.antt =====
-- What `decode_text` of gateway/crates/sentin-extract/src/lib.rs uses of Rust's strings: UTF-8 read
-- from bytes that may be invalid, and UTF-16 turned into UTF-8. What is malformed becomes U+FFFD, once
-- for each longest part that could begin a character.
use sentin_npu.Prelude.{
  ℕ, zero, suc, ◌+◌, ◌-◌, ◌*◌, ◌/◌, ◌%◌, Bool, true, false, ◌&&◌, List, [], ◌∷◌, ◌++◌, Option, none,
  some, ltb, between, ◌==◌, if◌then◌else◌, length, take, drop, Bytes,
}

-- U+FFFD
abbrev pub replacement : Bytes
replacement = 239 ∷ 191 ∷ 189 ∷ []

-- The ranges in which the bytes behind a first byte must be; `none` when it begins no character.
unfoldable pub trailing : ℕ → Option (List (ℕ × ℕ))
trailing b =
    if ltb b 128
    then some []
    else if between 194 223 b
    then some ((128, 191) ∷ [])
    else if b == 224
    then some ((160, 191) ∷ (128, 191) ∷ [])
    else if b == 237
    then some ((128, 159) ∷ (128, 191) ∷ [])
    else if between 225 239 b
    then some ((128, 191) ∷ (128, 191) ∷ [])
    else if b == 240
    then some ((144, 191) ∷ (128, 191) ∷ (128, 191) ∷ [])
    else if between 241 243 b
    then some ((128, 191) ∷ (128, 191) ∷ (128, 191) ∷ [])
    else if b == 244
    then some ((128, 143) ∷ (128, 191) ∷ (128, 191) ∷ [])
    else none

-- How many bytes are in their ranges, and whether there is one for each.
abbrev pub counted : Bool × ℕ → Bool × ℕ
counted (whole, n) = (whole, suc n)

unfoldable pub trail : List (ℕ × ℕ) → Bytes → Bool × ℕ
trail [] s = (true, 0)
trail (r ∷ rs) [] = (false, 0)
trail ((lo, hi) ∷ rs) (b ∷ s) = if between lo hi b then counted (trail rs s) else (false, 0)

abbrev pub trail_of : Option (List (ℕ × ℕ)) → Bytes → Bool × ℕ
trail_of none s = (false, 0)
trail_of (some ranges) s = trail ranges s

-- Whether the first byte and what is behind it make a character, and how many bytes go with the first.
unfoldable pub char_at : ℕ → Bytes → Bool × ℕ
unfolding trailing trail
char_at b s = trail_of (trailing b) s

abbrev pub char_or_replacement : ℕ → Bytes → Bool × ℕ → Bytes
char_or_replacement b s (true, n) = b ∷ take n s
char_or_replacement b s (false, n) = replacement

-- `String::from_utf8_lossy`, a round for each character or malformed part.
unfoldable pub lossy : ℕ → Bytes → Bytes
unfolding char_at
lossy zero s = []
lossy (suc fuel) [] = []
lossy (suc fuel) (b ∷ s) =
    let c = char_at b s in char_or_replacement b s c ++ lossy fuel (drop c.1 s)

unfoldable pub from_utf8_lossy : Bytes → Bytes
unfolding lossy
from_utf8_lossy s = lossy (length s) s

-- `str::from_utf8(…).is_ok()`
unfoldable pub valid : ℕ → Bytes → Bool
unfolding char_at
valid zero s = true
valid (suc fuel) [] = true
valid (suc fuel) (b ∷ s) = let c = char_at b s in c.0 && valid fuel (drop c.1 s)

unfoldable pub is_utf8 : Bytes → Bool
unfolding valid
is_utf8 s = valid (length s) s

-- The UTF-8 encoding of a code point.
unfoldable pub encode : ℕ → Bytes
encode c =
    if ltb c 128
    then c ∷ []
    else if ltb c 2048
    then (192 + c / 64) ∷ (128 + c % 64) ∷ []
    else if ltb c 65536
    then (224 + c / 4096) ∷ (128 + c / 64 % 64) ∷ (128 + c % 64) ∷ []
    else (240 + c / 262144) ∷ (128 + c / 4096 % 64) ∷ (128 + c / 64 % 64) ∷ (128 + c % 64) ∷ []

abbrev pub is_high : ℕ → Bool
is_high = between 55296 56319

abbrev pub is_low : ℕ → Bool
is_low = between 56320 57343

-- A unit that follows no high surrogate: what it adds, and the high surrogate that is then pending.
abbrev pub fresh : ℕ → Bytes × Option ℕ
fresh u =
    if is_high u then ([], some u) else if is_low u then (replacement, none) else (encode u, none)

abbrev pub unit_step : Option ℕ → ℕ → Bytes × Option ℕ
unit_step none u = fresh u
unit_step (some high) u =
    if is_low u
    then (encode (65536 + (high - 55296) * 1024 + (u - 56320)), none)
    else let next = fresh u in (replacement ++ next.0, next.1)

unfoldable pub units_lossy : Option ℕ → List ℕ → Bytes
unfolding encode
units_lossy none [] = []
units_lossy (some high) [] = replacement
units_lossy pending (u ∷ us) = let next = unit_step pending u in next.0 ++ units_lossy next.1 us

-- `String::from_utf16_lossy`
unfoldable pub from_utf16_lossy : List ℕ → Bytes
unfolding units_lossy
from_utf16_lossy = units_lossy none
