-- ===== src/Base/Text.antt =====
-- C strings as lists of bytes without the terminating NUL, and what the program uses of string.h,
-- stdlib.h and stdio.h on them.
use Prim.Native.Char.{code}
use Prim.Native.String.{String}
use Prim.Native.Nat.{ℕ, zero, suc, ◌+◌, ◌-◌, ◌*◌, ◌/◌, ◌%◌}
use mathlib.Core.Bool.{Bool, true, false, ◌&&◌, ◌||◌}
use mathlib.Core.List.{List, [], ◌∷◌}
use mathlib.Core.Option.{Option, none, some}
use docker.Base.Tests.{ltb, leb, ◌==◌, if◌then◌else◌}
use docker.Base.Lists.{take}
use docker.Base.Int.{ℤ, pos, negsuc}

abbrev pub Bytes : Type 0
Bytes = List ℕ

-- A text literal of the source.
abbrev pub codes : String → Bytes
codes String.[] = []
codes (String.◌∷◌ c s) = code c ∷ codes s

-- The bytes in front of the first `c`, all if there is none; and what stands behind it.
abbrev pub before : ℕ → Bytes → Bytes
before c [] = []
before c (x ∷ xs) = if x == c then [] else x ∷ before c xs

abbrev pub behind : ℕ → Bytes → Option Bytes
behind c [] = none
behind c (x ∷ xs) = if x == c then some xs else behind c xs

-- Whether `strchr` finds the byte.
abbrev pub has : ℕ → Bytes → Bool
has c [] = false
has c (x ∷ xs) = x == c || has c xs

-- What a char array that holds `xs` reads as.
abbrev pub c_string : Bytes → Bytes
c_string = before 0

-- `snprintf` into an array of `suc n` bytes, once the text is formatted.
abbrev pub snprintf : ℕ → Bytes → Bytes
snprintf n s = take (n - 1) s

abbrev pub is_digit : ℕ → Bool
is_digit c = leb b'0' c && leb c b'9'

abbrev pub is_space : ℕ → Bool
is_space c = c == 32 || (leb 9 c && leb c 13)

-- The digits at the head of the text.
unfoldable pub digits_value : ℕ → Bytes → ℕ
digits_value acc [] = acc
digits_value acc (c ∷ s) =
    let rest = digits_value (acc * 10 + (c - 48)) s in if is_digit c then rest else acc

abbrev pub negate : ℕ → ℤ
negate zero = pos 0
negate (suc n) = negsuc n

unfoldable pub atoi_sign : Bytes → ℤ
unfolding digits_value
atoi_sign [] = pos 0
atoi_sign (c ∷ s) =
    if c == b'-'
    then negate (digits_value 0 s)
    else if c == b'+'
    then pos (digits_value 0 s)
    else pos (digits_value 0 (c ∷ s))

-- `atoi`, for the values that an int holds.
unfoldable pub atoi : Bytes → ℤ
unfolding atoi_sign
atoi [] = pos 0
atoi (c ∷ s) = let rest = atoi s in if is_space c then rest else atoi_sign (c ∷ s)

-- `%d` of a number that is not negative. The fuel is the number itself, which has fewer digits.
unfoldable pub decimal_fuel : ℕ → ℕ → Bytes → Bytes
decimal_fuel zero n acc = (48 + n % 10) ∷ acc
decimal_fuel (suc f) n acc =
    let rest = decimal_fuel f (n / 10) ((48 + n % 10) ∷ acc) in
    if ltb n 10 then (48 + n) ∷ acc else rest

unfoldable pub decimal : ℕ → Bytes
unfolding decimal_fuel
decimal n = decimal_fuel n n []

unfoldable pub decimal_ℤ : ℤ → Bytes
unfolding decimal
decimal_ℤ (pos n) = decimal n
decimal_ℤ (negsuc n) = b'-' ∷ decimal (suc n)

-- `strcmp(a, b) == 0`
abbrev pub eq_bytes : Bytes → Bytes → Bool
eq_bytes [] [] = true
eq_bytes [] (y ∷ ys) = false
eq_bytes (x ∷ xs) [] = false
eq_bytes (x ∷ xs) (y ∷ ys) = x == y && eq_bytes xs ys
