-- ===== src/Netlink/Cidr.antt =====
-- `parse_cidr` of src/netlink.c.
use docker.Base.{
  ℕ, ℤ, pos, minus_one, wrap, Bytes, none, some, [], length, leb, before, behind, atoi, ◌==ℤ◌,
  if◌then◌else◌,
}
use docker.Sys.{M, Call, pure, sys, ◌>>=◌}

-- *plen, a uint8_t: what `atoi` reads behind the slash, or 24.
unfoldable pub prefix_length : Bytes → ℕ
prefix_length s = elim (behind b'/' s) [ none ↦ 24 | some rest ↦ wrap 256 (atoi rest) ]

-- The outcome, with the address that `inet_pton` stores and the prefix length.
pub record Parsed : Type 0 where
  pub status : ℤ
  pub ip : Bytes
  pub plen : ℕ

unfoldable pub parse_cidr : Bytes → M Parsed
unfolding prefix_length
parse_cidr s =
    if leb 64 (length s) then pure (record { status = minus_one; ip = []; plen = 0 }) else do
      r ← sys (Call.inet_pton (before b'/' s))
      pure record {
        status = if r.ret ==ℤ pos 1 then pos 0 else minus_one;
        ip = r.out;
        plen = prefix_length s;
      }
