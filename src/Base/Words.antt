-- ===== src/Base/Words.antt =====
-- Fixed width integers in memory, little endian.
use Prim.Native.Nat.{ℕ, suc, ◌+◌, ◌*◌, ◌/◌, ◌%◌, ◌^◌}
use mathlib.Core.List.{[], ◌∷◌}
use docker.Base.Text.{Bytes}
use docker.Base.Lists.{get_or}
use docker.Base.Int.{ℤ, wrap}

unfoldable pub u8 : ℕ → Bytes
u8 n = (n % 256) ∷ []

unfoldable pub u16 : ℕ → Bytes
u16 n = (n % 256) ∷ (n / 256 % 256) ∷ []

unfoldable pub u32 : ℕ → Bytes
u32 n = (n % 256) ∷ (n / 256 % 256) ∷ (n / 65536 % 256) ∷ (n / 16777216 % 256) ∷ []

abbrev pub get_u16 : Bytes → ℕ → ℕ
get_u16 b i = get_or b i 0 + 256 * get_or b (suc i) 0

abbrev pub get_u32 : Bytes → ℕ → ℕ
get_u32 b i = get_u16 b i + 65536 * get_u16 b (suc (suc i))

-- An int, in two's complement.
unfoldable pub int_bytes : ℤ → Bytes
unfolding u32
int_bytes x = u32 (wrap (2 ^ 32) x)
