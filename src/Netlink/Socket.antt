-- ===== src/Netlink/Socket.antt =====
-- `nl_socket`, `nl_send_recv` and `wait_for_interface` of src/netlink.c.
use docker.Base.{
  ℕ, zero, suc, ◌+◌, ◌-◌, ℤ, pos, minus_one, is_neg, nonzero, to_ℕ, Bool, not, ◌&&◌, ◌||◌, Bytes,
  get_u16, get_u32, drop, ltb, leb, ◌==◌, if◌then◌else◌,
}
use docker.Sys.{M, Call, pure, sys, sys_ret, ◌>>=◌, ◌>>◌}
use docker.Netlink.Message.{align}
use docker.Netlink.Message.MessageType

-- The socket; a failure to set its timeout is only logged.
unfoldable pub nl_socket : M ℤ
nl_socket = do
  sock ← sys_ret Call.socket
  if is_neg sock then pure minus_one else do sys_ret (Call.setsockopt sock); pure sock

-- NLMSG_OK for the `n` bytes that are left at `b`.
unfoldable pub nlmsg_ok : Bytes → ℕ → Bool
nlmsg_ok b n = leb 16 n && (leb 16 (get_u32 b 0) && leb (get_u32 b 0) n)

-- The loop over the response. NLMSG_NEXT takes the aligned length off `len`; where the int would
-- become negative the number stops at 0, and NLMSG_OK fails for both. `cut` is the result where the
-- rounds of the model run out, which the source has none of.
unfoldable pub scan : ℤ → ℕ → ℕ → ℕ → Bytes → ℕ → ℤ
scan cut zero seq type b n = cut
scan cut (suc fuel) seq type b n =
    let next = scan cut fuel seq type (drop (align (get_u32 b 0)) b) (n - align (get_u32 b 0)) in
    if not (nlmsg_ok b n)
    then minus_one
    else if not (get_u32 b 8 == seq)
    then next
    else if get_u16 b 4 == MessageType.error
    then (if get_u32 b 16 == 0 then pos 0 else minus_one)
    else if get_u16 b 4 == type || get_u16 b 4 == MessageType.done
    then pos 0
    else next

-- A response of n bytes has fewer than n + 1 messages.
unfoldable pub nl_send_recv : ℤ → Bytes → ℕ → ℕ → M ℤ
nl_send_recv sock nlh seq type = do
  sent ← sys_ret (Call.sendmsg sock nlh)
  if is_neg sent then pure minus_one else do
    r ← sys (Call.recvmsg sock 4096)
    if is_neg r.ret
        then pure minus_one
        else pure (scan minus_one (suc (to_ℕ r.ret)) seq type r.out (to_ℕ r.ret))

-- The polling loop. Fuel counts the rounds, of 100 ms each; the last line is the exit by the test.
unfoldable pub wait_loop : ℕ → Bytes → ℕ → ℕ → M ℤ
wait_loop zero ifname timeout_ms waited = pure (pos 0)
wait_loop (suc fuel) ifname timeout_ms waited =
    let round = (do
      idx ← sys_ret (Call.if_nametoindex ifname)
      let rest = (do sys_ret (Call.usleep 100000); wait_loop fuel ifname timeout_ms (waited + 100))
      if nonzero idx then pure idx else rest) in
    if ltb waited timeout_ms then round else pure (pos 0)

-- A timeout of n ms takes at most n rounds.
unfoldable pub wait_for_interface : Bytes → ℕ → M ℤ
unfolding wait_loop
wait_for_interface ifname timeout_ms = wait_loop timeout_ms ifname timeout_ms 0
