-- ===== src/Netlink/CidrLaws.antt =====
-- `parse_cidr` against the texts that it is meant for.
use docker.Base.{
  ℕ, zero, suc, ◌+◌, ◌/◌, ◌%◌, ◌≤◌, ◌≡◌, refl, pos, minus_one, Bytes, [], ◌∷◌, ◌++◌, length, has,
  before, behind, some, none, false, arith, atoi, atoi_sign, digits_value, decimal, decimal_fuel,
  leb, ltb, ◌==ℤ◌, if◌then◌else◌, Bool-cases, inl, inr,
}
use docker.Sys.{Kernel, Trace, Call, steps}
use docker.Netlink.Cidr.{parse_cidr, prefix_length}

digits_value-decimal_fuel :
    (f n : ℕ) (tail : Bytes) → n ≤ f → digits_value 0 (decimal_fuel f n tail) ≡ digits_value n tail
unfolding decimal_fuel digits_value
digits_value-decimal_fuel zero n tail h = ground arith
digits_value-decimal_fuel (suc f) n tail h =
    ground (arith, digits_value-decimal_fuel f (n / 10) ((48 + n % 10) ∷ tail))

StartsWithDigit : Bytes → Type 0
StartsWithDigit s = (c : ℕ) × (r : Bytes) × (s ≡ c ∷ r) × (48 ≤ c) × (c ≤ 57)

decimal_fuel-StartsWithDigit : (f n : ℕ) (tail : Bytes) → StartsWithDigit (decimal_fuel f n tail)
unfolding decimal_fuel StartsWithDigit
decimal_fuel-StartsWithDigit zero n tail = (48 + n % 10, tail, refl, omega arith, omega arith)
decimal_fuel-StartsWithDigit (suc f) n tail = elim (Bool-cases (ltb n 10)) [
  | inl small ↦ rw small (48 + n, tail, refl, omega arith, ground arith)
  | inr large ↦ rw large (decimal_fuel-StartsWithDigit f (n / 10) ((48 + n % 10) ∷ tail))
]

atoi-digit : (c : ℕ) (r : Bytes) → 48 ≤ c → c ≤ 57 → atoi (c ∷ r) ≡ pos (digits_value 0 (c ∷ r))
unfolding atoi atoi_sign
atoi-digit c r h k = ground arith

-- `atoi` reads back what `%d` prints.
pub atoi-decimal : (n : ℕ) → atoi (decimal n) ≡ pos n
unfolding decimal StartsWithDigit digits_value
atoi-decimal n =
    let (c, r, e, lo, hi) = decimal_fuel-StartsWithDigit n n [] in
    let back : digits_value 0 (decimal_fuel n n []) ≡ n =
      digits_value-decimal_fuel n n [] (omega arith) in
    let front : atoi (c ∷ r) ≡ pos (digits_value 0 (c ∷ r)) = atoi-digit c r lo hi in cc

split_at-slash :
    (address rest : Bytes)
    → has b'/' address ≡ false
    → (before b'/' (address ++ (b'/' ∷ rest)) ≡ address)
      × (behind b'/' (address ++ (b'/' ∷ rest)) ≡ some rest)
split_at-slash [] rest h = (refl, refl)
split_at-slash (c ∷ address) rest h = ground (arith, split_at-slash address rest)

behind-none :
    (address : Bytes)
    → has b'/' address ≡ false
    → (before b'/' address ≡ address) × (behind b'/' address ≡ none)
behind-none [] h = (refl, refl)
behind-none (c ∷ address) h = ground (arith, behind-none address)

-- For an address with a decimal prefix length, and 63 bytes in all at most, `inet_pton` is called on the
-- address alone, its verdict is the function's, its result is stored, and the prefix length is the
-- number's remainder by 256: the number itself as long as it fits a byte.
pub parse_cidr_lem :
    (address : Bytes) (n : ℕ) (k : Kernel) (t : Trace)
    → has b'/' address ≡ false
    → length (address ++ (b'/' ∷ decimal n)) ≤ 63
    → let reply = k (length t) (Call.inet_pton address) in
      parse_cidr (address ++ (b'/' ∷ decimal n)) k t ≡ (
        record {
          status = if reply.ret ==ℤ pos 1 then pos 0 else minus_one;
          ip = reply.out;
          plen = n % 256;
        },
        Call.inet_pton address ∷ t,
      )
unfolding parse_cidr prefix_length steps
parse_cidr_lem address n k t plain short =
    let s = split_at-slash address (decimal n) plain in
    rw (not_long, s.0) (rw (s.1, prefix_length) (rw (atoi-decimal n)))
  where
    not_long : leb 64 (length (address ++ (b'/' ∷ decimal n))) ≡ false
    not_long = ground arith

-- Without a slash the prefix length is 24, and the whole text is the address.
pub parse_cidr_plain :
    (address : Bytes) (k : Kernel) (t : Trace)
    → has b'/' address ≡ false
    → length address ≤ 63
    → let reply = k (length t) (Call.inet_pton address) in
      parse_cidr address k t ≡ (
        record {
          status = if reply.ret ==ℤ pos 1 then pos 0 else minus_one;
          ip = reply.out;
          plen = 24;
        },
        Call.inet_pton address ∷ t,
      )
unfolding parse_cidr prefix_length steps
parse_cidr_plain address k t plain short =
    let s = behind-none address plain in rw (not_long, s.0) (rw (s.1, prefix_length))
  where
    not_long : leb 64 (length address) ≡ false
    not_long = ground arith
