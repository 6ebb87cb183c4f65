-- ===== src/Prelude/Ascii.antt =====
-- The classes of bytes that Rust's `u8::is_ascii_*` decide.
use Prim.Native.Nat.{ℕ, ◌-◌, ◌+◌}
use Prim.Native.Char.{code}
use Prim.Native.String.{String}
use mathlib.Core.Bool.{Bool, ◌||◌}
use mathlib.Core.List.{List, [], ◌∷◌}
use sentin_npu.Prelude.Tests.{between, if◌then◌else◌}

-- A text is its UTF-8 bytes.
abbrev pub Bytes : Type 0
Bytes = List ℕ

-- The bytes of an ASCII literal.
abbrev pub codes : String → Bytes
codes String.[] = []
codes (String.◌∷◌ c s) = code c ∷ codes s

unfoldable pub is_ascii_digit : ℕ → Bool
is_ascii_digit b = between b'0' b'9' b

unfoldable pub is_ascii_uppercase : ℕ → Bool
is_ascii_uppercase b = between b'A' b'Z' b

unfoldable pub is_ascii_lowercase : ℕ → Bool
is_ascii_lowercase b = between b'a' b'z' b

unfoldable pub is_ascii_alphabetic : ℕ → Bool
unfolding is_ascii_uppercase is_ascii_lowercase
is_ascii_alphabetic b = is_ascii_uppercase b || is_ascii_lowercase b

unfoldable pub is_ascii_alphanumeric : ℕ → Bool
unfolding is_ascii_alphabetic is_ascii_digit
is_ascii_alphanumeric b = is_ascii_alphabetic b || is_ascii_digit b

unfoldable pub to_ascii_uppercase : ℕ → ℕ
unfolding is_ascii_lowercase
to_ascii_uppercase b = if is_ascii_lowercase b then b - 32 else b

unfoldable pub to_ascii_lowercase : ℕ → ℕ
unfolding is_ascii_uppercase
to_ascii_lowercase b = if is_ascii_uppercase b then b + 32 else b
