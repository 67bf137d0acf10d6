-- ===== src/Netlink/Fuel.antt =====
-- The fuel of the loops of src/netlink.c.
use docker.Base.{
  ℕ, ℤ, zero, suc, ◌-◌, ◌<◌, ◌≡◌, true, Bytes, get_u32, drop, arith, Bool-cases, inl, inr,
}
use docker.Netlink.Message.{align}
use docker.Netlink.Socket.{scan, nlmsg_ok}

-- A message that is there takes bytes off the response.
shorter :
    (b : Bytes) (n fuel : ℕ) → nlmsg_ok b n ≡ true → n < suc fuel → n - align (get_u32 b 0) < fuel
unfolding nlmsg_ok
shorter b n fuel ok h = ground arith

-- The loop over a response of `n` arbitrary bytes ends within `n + 1` rounds: with so many rounds or
-- more its result is the same for any two numbers of rounds and any two values that a loop cut off
-- would be given, so it is not cut off.
pub scan_ends :
    (cut other : ℤ) (fuel more seq type n : ℕ) (b : Bytes)
    → n < fuel
    → n < more
    → scan other more seq type b n ≡ scan cut fuel seq type b n
unfolding scan
scan_ends cut other zero more seq type n b h h' = elim h [ ]
scan_ends cut other (suc fuel) zero seq type n b h h' = elim h' [ ]
scan_ends cut other (suc fuel) (suc more) seq type n b h h' = elim (Bool-cases (nlmsg_ok b n)) [
  | inl ok ↦ rw (
    ok,
    scan_ends cut other fuel more seq type (n - align (get_u32 b 0)) (drop (align (get_u32 b 0)) b)
        (shorter b n fuel ok h) (shorter b n more ok h'),
  )
  | inr bad ↦ rw bad
]
