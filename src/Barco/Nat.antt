-- ===== src/Barco/Nat.antt =====
-- Forwarding and address translation on the host: `enable_ip_forward`, `detect_host_interface`,
-- `setup_nat` and `cleanup_nat`, and the subnet that `main` hands them.
use docker.Base.{
  ℕ, ℤ, pos, minus_one, is_neg, nonzero, not, ◌&&◌, ◌||◌, ◌==◌, ◌==ℤ◌, Bool, Bytes, [], ◌∷◌, ◌++◌,
  codes, has, before, behind, c_string, none, some, snprintf, take, if◌then◌else◌,
}
use docker.Sys.{M, Call, OpenMode, pure, sys, sys_ret, ◌>>=◌, ◌>>◌}

unfoldable pub enable_ip_forward : M ℤ
enable_ip_forward = do
  fd ← sys_ret (Call.open_file (codes "/proc/sys/net/ipv4/ip_forward") OpenMode.o_wronly)
  if is_neg fd then pure minus_one else do
    n ← sys_ret (Call.write fd (codes "1\n"))
    sys_ret (Call.close fd)
    pure (if n ==ℤ pos 2 then pos 0 else minus_one)

abbrev pub is_newline : ℕ → Bool
is_newline c = c == 10 || c == 13

abbrev pub is_empty : Bytes → Bool
is_empty [] = Bool.true
is_empty (c ∷ s) = Bool.false

-- The loop that cuts newlines off the end.
unfoldable pub trim : Bytes → Bytes
trim [] = []
trim (c ∷ s) = let rest = trim s in if is_empty rest && is_newline c then [] else c ∷ rest

unfoldable pub detect_command : Bytes
detect_command = codes "ip route show default 2>/dev/null | awk '{print $5}' | head -1"

-- The status, and the line without its newline. `len` is 64.
unfoldable pub detect_host_interface : M (ℤ × Bytes)
detect_host_interface = do
  fp ← sys_ret (Call.popen detect_command)
  if not (nonzero fp) then pure (minus_one, []) else do
    line ← sys (Call.fgets 64)
    sys_ret (Call.pclose fp)
    let buf = trim (take 63 (c_string line.out))
    if not (nonzero line.ret)
        then pure (minus_one, [])
        else pure (if is_empty buf then minus_one else pos 0, buf)

-- The three rules, as iptables takes them behind `-A`, `-C` or `-D`.
unfoldable pub masquerade_rule : Bytes → Bytes → Bytes
masquerade_rule subnet host_if =
    codes " POSTROUTING -s " ++ (subnet ++ (codes " -o " ++ (host_if ++ codes " -j MASQUERADE")))

unfoldable pub source_rule : Bytes → Bytes
source_rule subnet = codes " FORWARD -s " ++ (subnet ++ codes " -j ACCEPT")

unfoldable pub return_rule : Bytes → Bytes
return_rule subnet =
    codes " FORWARD -d " ++ (subnet ++ codes " -m state --state RELATED,ESTABLISHED -j ACCEPT")

-- "iptables<table> -C<rule> 2>/dev/null || iptables<table> -A<rule>", and the removal.
unfoldable pub add_command : Bytes → Bytes → Bytes
add_command table rule =
    codes "iptables"
    ++ (table
        ++ (codes " -C"
            ++ (rule ++ (codes " 2>/dev/null || iptables" ++ (table ++ (codes " -A" ++ rule))))))

unfoldable pub remove_command : Bytes → Bytes → Bytes
remove_command table rule =
    codes "iptables" ++ (table ++ (codes " -D" ++ (rule ++ codes " 2>/dev/null")))

-- `system` of what `snprintf` leaves in the 512 bytes of `cmd`.
abbrev pub run : Bytes → M ℤ
run command = sys_ret (Call.system (snprintf 512 command))

unfoldable pub setup_nat : Bytes → Bytes → M ℤ
unfolding masquerade_rule source_rule return_rule add_command
setup_nat subnet host_if = do
  added ← run (add_command (codes " -t nat") (masquerade_rule subnet host_if))
  if nonzero added then pure minus_one else do
    run (add_command [] (source_rule subnet))
    run (add_command [] (return_rule subnet))
    pure (pos 0)

unfoldable pub cleanup_nat : Bytes → Bytes → M (Unit {0})
unfolding masquerade_rule source_rule return_rule remove_command
cleanup_nat subnet host_if = do
  run (remove_command (codes " -t nat") (masquerade_rule subnet host_if))
  run (remove_command [] (source_rule subnet))
  run (remove_command [] (return_rule subnet))
  pure tt

-- `subnet` when the rules are set up: the text in front of the slash, and the rest from the slash.
unfoldable pub setup_subnet : Bytes → Bytes
setup_subnet container_ip = elim (behind b'/' container_ip) [
  | none ↦ snprintf 32 (container_ip ++ codes "/24")
  | some rest ↦ snprintf 32 (before b'/' container_ip ++ (b'/' ∷ rest))
]

-- `subnet` when they are cleaned up.
unfoldable pub cleanup_subnet : Bytes → Bytes
cleanup_subnet container_ip =
    if has b'/' container_ip
    then snprintf 32 container_ip
    else snprintf 32 (container_ip ++ codes "/24")
