-- ===== src/Audit/Digest.antt =====
-- `digest` of gateway/crates/sentin-audit/src/lib.rs: SHA-256, on words below 2^32.
pub mod Padding
pub mod Shape
use Prim.Native.Nat.{bit_and, bit_or, bit_xor}
use sentin_npu.Prelude.{
  ℕ, zero, suc, ◌+◌, ◌-◌, ◌*◌, ◌/◌, ◌%◌, ◌^◌, List, [], ◌∷◌, ◌++◌, ltb, ◌==◌, if◌then◌else◌, length,
  get_or, take, drop, Bytes, codes,
}

abbrev pub u32_mod : ℕ
u32_mod = 2 ^ 32

abbrev pub wrapping_add : ℕ → ℕ → ℕ
wrapping_add a b = (a + b) % u32_mod

abbrev pub shift_right : ℕ → ℕ → ℕ
shift_right x n = x / 2 ^ n

abbrev pub rotate_right : ℕ → ℕ → ℕ
rotate_right x n = bit_or (x / 2 ^ n) (x * 2 ^ (32 - n) % u32_mod)

-- `!x`
abbrev pub complement : ℕ → ℕ
complement x = u32_mod - 1 - x

abbrev pub round_constants : List ℕ
round_constants =
    0x428a_2f98 ∷ 0x7137_4491 ∷ 0xb5c0_fbcf ∷ 0xe9b5_dba5 ∷ 0x3956_c25b ∷ 0x59f1_11f1 ∷ 0x923f_82a4
    ∷ 0xab1c_5ed5 ∷ 0xd807_aa98 ∷ 0x1283_5b01 ∷ 0x2431_85be ∷ 0x550c_7dc3 ∷ 0x72be_5d74
    ∷ 0x80de_b1fe ∷ 0x9bdc_06a7 ∷ 0xc19b_f174 ∷ 0xe49b_69c1 ∷ 0xefbe_4786 ∷ 0x0fc1_9dc6
    ∷ 0x240c_a1cc ∷ 0x2de9_2c6f ∷ 0x4a74_84aa ∷ 0x5cb0_a9dc ∷ 0x76f9_88da ∷ 0x983e_5152
    ∷ 0xa831_c66d ∷ 0xb003_27c8 ∷ 0xbf59_7fc7 ∷ 0xc6e0_0bf3 ∷ 0xd5a7_9147 ∷ 0x06ca_6351
    ∷ 0x1429_2967 ∷ 0x27b7_0a85 ∷ 0x2e1b_2138 ∷ 0x4d2c_6dfc ∷ 0x5338_0d13 ∷ 0x650a_7354
    ∷ 0x766a_0abb ∷ 0x81c2_c92e ∷ 0x9272_2c85 ∷ 0xa2bf_e8a1 ∷ 0xa81a_664b ∷ 0xc24b_8b70
    ∷ 0xc76c_51a3 ∷ 0xd192_e819 ∷ 0xd699_0624 ∷ 0xf40e_3585 ∷ 0x106a_a070 ∷ 0x19a4_c116
    ∷ 0x1e37_6c08 ∷ 0x2748_774c ∷ 0x34b0_bcb5 ∷ 0x391c_0cb3 ∷ 0x4ed8_aa4a ∷ 0x5b9c_ca4f
    ∷ 0x682e_6ff3 ∷ 0x748f_82ee ∷ 0x78a5_636f ∷ 0x84c8_7814 ∷ 0x8cc7_0208 ∷ 0x90be_fffa
    ∷ 0xa450_6ceb ∷ 0xbef9_a3f7 ∷ 0xc671_78f2 ∷ []

-- The eight words of a hash, and the eight variables of a block.
pub record Hash : Type 0 where
  pub a : ℕ
  pub b : ℕ
  pub c : ℕ
  pub d : ℕ
  pub e : ℕ
  pub f : ℕ
  pub g : ℕ
  pub hh : ℕ

abbrev pub initial : Hash
initial = record {
  a = 0x6a09_e667;
  b = 0xbb67_ae85;
  c = 0x3c6e_f372;
  d = 0xa54f_f53a;
  e = 0x510e_527f;
  f = 0x9b05_688c;
  g = 0x1f83_d9ab;
  hh = 0x5be0_cd19;
}

-- The last `count` bytes of a number, the highest first: `to_be_bytes`.
unfoldable pub to_be_bytes : ℕ → ℕ → Bytes
to_be_bytes zero n = []
to_be_bytes (suc count) n = to_be_bytes count (n / 256) ++ (n % 256 ∷ [])

-- `while padded.len() % 64 != 56`, which takes 63 rounds at most.
unfoldable pub pad_zeros : ℕ → Bytes → Bytes
pad_zeros zero s = s
pad_zeros (suc fuel) s = if length s % 64 == 56 then s else pad_zeros fuel (s ++ (0 ∷ []))

-- The length is a `u64`.
unfoldable pub padded : Bytes → Bytes
unfolding pad_zeros to_be_bytes
padded message = pad_zeros 63 (message ++ (0x80 ∷ [])) ++ to_be_bytes 8 (length message * 8)

-- `chunks_exact(4)`, each as a big-endian word.
unfoldable pub words : Bytes → List ℕ
words (a ∷ b ∷ c ∷ d ∷ s) = (((a * 256 + b) * 256 + c) * 256 + d) ∷ words s
words _ = []

-- The word at an index behind the first sixteen.
abbrev pub next_word : List ℕ → ℕ → ℕ
next_word w index =
    let x = get_or w (index - 15) 0 in
    let y = get_or w (index - 2) 0 in
    let s0 = bit_xor (bit_xor (rotate_right x 7) (rotate_right x 18)) (shift_right x 3) in
    let s1 = bit_xor (bit_xor (rotate_right y 17) (rotate_right y 19)) (shift_right y 10) in
    wrapping_add (wrapping_add (wrapping_add (get_or w (index - 16) 0) s0) (get_or w (index - 7) 0))
      s1

unfoldable pub schedule : ℕ → List ℕ → List ℕ
schedule zero w = w
schedule (suc more) w = schedule more (w ++ (next_word w (length w) ∷ []))

abbrev pub round : ℕ → ℕ → Hash → Hash
round k w v =
    let s1 = bit_xor (bit_xor (rotate_right v.e 6) (rotate_right v.e 11)) (rotate_right v.e 25) in
    let ch = bit_xor (bit_and v.e v.f) (bit_and (complement v.e) v.g) in
    let temp1 = wrapping_add (wrapping_add (wrapping_add (wrapping_add v.hh s1) ch) k) w in
    let s0 = bit_xor (bit_xor (rotate_right v.a 2) (rotate_right v.a 13)) (rotate_right v.a 22) in
    let maj = bit_xor (bit_xor (bit_and v.a v.b) (bit_and v.a v.c)) (bit_and v.b v.c) in
    let temp2 = wrapping_add s0 maj in
    record {
      a = wrapping_add temp1 temp2;
      b = v.a;
      c = v.b;
      d = v.c;
      e = wrapping_add v.d temp1;
      f = v.e;
      g = v.f;
      hh = v.g;
    }

unfoldable pub rounds : List ℕ → List ℕ → Hash → Hash
rounds (k ∷ ks) (w ∷ ws) v = rounds ks ws (round k w v)
rounds _ _ v = v

abbrev pub add_all : Hash → Hash → Hash
add_all h v = record {
  a = wrapping_add h.a v.a;
  b = wrapping_add h.b v.b;
  c = wrapping_add h.c v.c;
  d = wrapping_add h.d v.d;
  e = wrapping_add h.e v.e;
  f = wrapping_add h.f v.f;
  g = wrapping_add h.g v.g;
  hh = wrapping_add h.hh v.hh;
}

unfoldable pub compress : Bytes → Hash → Hash
unfolding words schedule rounds
compress chunk h = add_all h (rounds round_constants (schedule 48 (words chunk)) h)

-- `for chunk in padded.chunks_exact(64)`
unfoldable pub blocks : ℕ → Bytes → Hash → Hash
unfolding compress
blocks zero s h = h
blocks (suc fuel) s h =
    if ltb (length s) 64 then h else blocks fuel (drop 64 s) (compress (take 64 s) h)

-- The bytes of the words, one after the other.
unfoldable pub words_bytes : List ℕ → Bytes
unfolding to_be_bytes
words_bytes [] = []
words_bytes (value ∷ values) = to_be_bytes 4 value ++ words_bytes values

abbrev pub hash_words : Hash → List ℕ
hash_words h = h.a ∷ h.b ∷ h.c ∷ h.d ∷ h.e ∷ h.f ∷ h.g ∷ h.hh ∷ []

unfoldable pub sha256 : Bytes → Bytes
unfolding padded blocks words_bytes
sha256 message = let s = padded message in words_bytes (hash_words (blocks (length s) s initial))

abbrev pub hex_digit : ℕ → ℕ
hex_digit n = if ltb n 10 then b'0' + n else b'a' + (n - 10)

-- `{byte:02x}`
unfoldable pub hex : Bytes → Bytes
hex [] = []
hex (byte ∷ s) = hex_digit (byte / 16) ∷ hex_digit (byte % 16) ∷ hex s

unfoldable pub digest : Bytes → Bytes
unfolding sha256 hex
digest payload = codes "sha256:" ++ hex (sha256 payload)
