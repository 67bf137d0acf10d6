-- ===== src/Barco/Names.antt =====
-- The interface names that `main` makes up, and `generate_random_suffix`.
use Prim.Native.Nat.{bit_xor}
use docker.Base.{
  ℕ, zero, suc, ◌%◌, ◌^◌, ℤ, to_ℕ, wrap, Bytes, [], ◌∷◌, ◌++◌, codes, take, drop, get_or, c_string,
  snprintf,
}
use docker.Sys.{M, Call, pure, sys, sys_ret, ◌>>=◌, ◌>>◌}
use docker.Netlink.Message.{pad_to}

unfoldable pub alphabet : Bytes
alphabet = codes "abcdefghijklmnopqrstuvwxyz0123456789"

-- `n` random characters.
unfoldable pub random_chars : ℕ → M Bytes
unfolding alphabet
random_chars zero = pure []
random_chars (suc n) = do
  r ← sys_ret Call.rand
  cs ← random_chars n
  pure (get_or alphabet (to_ℕ r % 36) 0 ∷ cs)

-- What stands behind the eighth byte of the array: seven bytes that nothing has written, and the
-- terminator.
abbrev pub unwritten : Bytes → Bytes
unwritten garbage = take 7 (pad_to 7 (drop 8 garbage)) ++ (0 ∷ [])

-- The 16 bytes of `suffix` after the call, with the random characters.
abbrev pub suffix_buffer : Bytes → Bytes → Bytes
suffix_buffer chars garbage = chars ++ unwritten garbage

-- The seed is made of the clock and the process id.
unfoldable pub seed_of : Bytes → ℤ → ℕ
seed_of clock pid =
    bit_xor (bit_xor (get_or clock 1 0) (get_or clock 0 0)) (wrap (2 ^ 32) pid) % 2 ^ 32

unfoldable pub generate_random_suffix : M Bytes
unfolding random_chars seed_of
generate_random_suffix = do
  garbage ← sys Call.indeterminate
  ts ← sys Call.clock_gettime
  pid ← sys_ret Call.getpid
  sys_ret (Call.srand (seed_of ts.out pid))
  chars ← random_chars 8
  pure (suffix_buffer chars garbage.out)

-- "veth-%s-%s" into 64 bytes, of which "%.15s" is kept.
unfoldable pub peer_name : Bytes → Bytes → Bytes
peer_name veth_name suffix =
    take 15 (snprintf 64 (codes "veth-" ++ (veth_name ++ (codes "-" ++ c_string suffix))))

-- "veth-tmp-%s", likewise.
unfoldable pub tmp_name : Bytes → Bytes
tmp_name suffix = take 15 (snprintf 64 (codes "veth-tmp-" ++ c_string suffix))
