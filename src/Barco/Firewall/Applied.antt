-- ===== src/Barco/Firewall/Applied.antt =====
-- Part 6 of `main` where it applies the address translation: the rules are listed, and the interface
-- that `cleanup` takes them out for is known.
use docker.Base.{
  ℕ, suc, ◌≤◌, ◌≡◌, refl, ◌∙◌, ℤ, pos, is_neg, Bool, true, false, ◌&&◌, Bytes, [], ◌∷◌, codes, not,
  length, take, length-take, c_string, ◌++◌, Option, none, some, arith, Bool-cases, inl, inr,
  if◌then◌else◌,
}
use docker.Sys.{Kernel, Trace, Call, M, steps}
use docker.Sys.Alphabet.{Only, only_rules, Only-weaken}
use docker.Netlink.Link.{nl_del_link, nl_create_veth, nl_set_up}
use docker.Barco.Defs.{Locals}
use docker.Barco.Setup.{
  is_set, text_of, make_veth, configure_host, apply_nat, host_network, host_network_of, add_host_ip,
  forward_if,
}
use docker.Barco.Nat.{
  setup_subnet, cleanup_subnet, detect_host_interface, trim, is_empty, setup_nat,
}
use docker.Barco.NatLaws.{setup_subnet-eq-cleanup_subnet}
use docker.Barco.Calls.{plain_call, set_up, del_link}
use docker.Barco.Calls.Parts.{add_host_ip-Only, enable_ip_forward-Only, detect_host_interface-Only}
use docker.Barco.Firewall.{NatRule, Iptables, setup_nat_lists}
use docker.Barco.Firewall.Silent.{plain_silent, create_silent}
use docker.Barco.Firewall.Kept.{Kept, KeptFlow, Holds, Kept-silent}

-- The interface that `main` takes: the one detected, or eth0.
abbrev pub chosen : ℤ × Bytes → Bytes
chosen (status, line) = if is_neg status then codes "eth0" else line

length-trim : (s : Bytes) → length (trim s) ≤ length s
unfolding trim
length-trim [] = omega arith
length-trim (c ∷ s) = ground (arith, length-trim s)

line_fits : (out : Bytes) → length (trim (take 63 (c_string out))) ≤ 63
line_fits out = omega (arith, length-trim (take 63 (c_string out)), length-take 63 (c_string out))

chosen_fits :
    (k : Kernel) (t : Trace)
    → (length (chosen (detect_host_interface k t).0) ≤ 63)
      × (is_empty (chosen (detect_host_interface k t).0) ≡ false)
unfolding detect_host_interface steps
chosen_fits k t =
    let fits = line_fits ((k (suc (length t)) (Call.fgets 64)).out) in (ground arith, ground arith)

pub subnet_fits : (ip : Bytes) → length (setup_subnet ip) ≤ 31
unfolding cleanup_subnet
subnet_fits ip =
    rw (setup_subnet-eq-cleanup_subnet ip)
      (ground (arith, length-take 31 ip, length-take 31 (ip ++ codes "/24")))

forward_if-Only : (given : Bool) → Only plain_call (forward_if given)
forward_if-Only given = search (only_rules, enable_ip_forward-Only) depth 40

module _ (ip host_if : Bytes) (ipt : Iptables (setup_subnet ip) host_if) (q : NatRule)
    (s : ipt.State) (k : Kernel)
    (ok : (n : ℕ) (command : Bytes) → (k n (Call.system command)).ret ≡ pos 0)
    (detects : (t : Trace) → chosen (detect_host_interface k t).0 ≡ host_if) where
  pub brief : length host_if ≤ 63
  brief = rw (← detects []) (chosen_fits k []).0

  pub named : is_empty host_if ≡ false
  named = rw (← detects []) (chosen_fits k []).1

  setup_nat-Kept :
      (given host : Bytes) (l : Locals) (u : Trace)
      → given ≡ ip
      → host ≡ host_if
      → is_set l.config.container_ip ≡ true
      → Kept ip host_if ipt q s k l u
      → let (r, v) = setup_nat (setup_subnet given) host k u in
        Kept ip host_if ipt q s k (record l { host_if = host; nat_applied = not (is_neg r) }) v
  setup_nat-Kept given host l u e e' asked h =
      let (done, lists) = setup_nat_lists ipt q s k u (subnet_fits ip) brief ok in
      rw (e, e', done)
        (record {
          ip_known = h.ip_known;
          count = lists ∙ ground (arith, h.count);
          iface = λ x. (refl, asked);
        })

  apply_nat-Kept :
      (given : Bytes) (l : Locals) (t : Trace)
      → given ≡ ip
      → is_set l.config.container_ip ≡ true
      → Kept ip host_if ipt q s k l t
      → KeptFlow ip host_if ipt q s k (apply_nat given l k t).0 (apply_nat given l k t).1
  unfolding apply_nat steps
  apply_nat-Kept given l t e asked h =
      setup_nat-Kept given (chosen (detect_host_interface k t).0) l (detect_host_interface k t).1 e
        (detects t) asked
        (Kept-silent ip host_if ipt q s k detect_host_interface
          (Only-weaken plain_silent detect_host_interface-Only) h)

  silent_part :
      {A : Type 0} {l : Locals} {t : Trace} (m : M A)
      → Only plain_call m
      → Kept ip host_if ipt q s k l t
      → Kept ip host_if ipt q s k l (m k t).1
  silent_part m o h = Kept-silent ip host_if ipt q s k m (Only-weaken plain_silent o) h

  configure_host-Kept :
      (given : Bytes) (l : Locals) (t : Trace)
      → given ≡ ip
      → is_set l.config.container_ip ≡ true
      → Kept ip host_if ipt q s k l t
      → KeptFlow ip host_if ipt q s k (configure_host given l k t).0 (configure_host given l k t).1
  unfolding configure_host steps
  configure_host-Kept given l t e asked h =
      let peer = text_of l.config.veth_peer in
      let added =
        silent_part (add_host_ip l.config.host_ip peer) (add_host_ip-Only l.config.host_ip peer)
          h in
      let up = silent_part (nl_set_up peer) (set_up peer) added in
      let forwarded =
        silent_part (forward_if (is_set l.config.host_ip))
          (forward_if-Only (is_set l.config.host_ip)) up in
      elim (Bool-cases (l.config.enable_nat && is_set l.config.host_ip)) [
        | inl wanted ↦ rw wanted (apply_nat-Kept given l _ e asked forwarded)
        | inr unwanted ↦ rw unwanted forwarded
      ]

  make_veth-Kept :
      (given : Bytes) (l : Locals) (t : Trace)
      → given ≡ ip
      → is_set l.config.container_ip ≡ true
      → Kept ip host_if ipt q s k l t
      → KeptFlow ip host_if ipt q s k (make_veth given l k t).0 (make_veth given l k t).1
  unfolding make_veth steps
  make_veth-Kept given l t e asked h =
      let tmp = text_of l.config.veth_tmp in
      let peer = text_of l.config.veth_peer in
      let first = silent_part (nl_del_link tmp) (del_link tmp) h in
      let second = silent_part (nl_del_link peer) (del_link peer) first in
      let created =
        Kept-silent ip host_if ipt q s k (nl_create_veth tmp peer) (create_silent tmp peer)
          second in
      let u = (nl_del_link peer k (nl_del_link tmp k t).1).1 in
      elim (Bool-cases (is_neg (nl_create_veth tmp peer k u).0)) [
        | inl bad ↦
            rw bad
              (record { ip_known = created.ip_known; count = created.count; iface = created.iface })
        | inr good ↦ rw good (
            configure_host-Kept given (record l { veth_created = true }) _ e asked
              (record {
                ip_known = created.ip_known;
                count = created.count;
                iface = created.iface;
              }))
      ]

  pub host_network-Holds : Holds ip host_if ipt q s k host_network
  unfolding host_network steps
  host_network-Holds = record {
    carry = λ l t h. cases l t h l.config.veth_name l.config.container_ip refl;
  }
    where
      cases :
          (l : Locals) (t : Trace)
          → Kept ip host_if ipt q s k l t
          → (name given : Option Bytes) → l.config.container_ip ≡ given
          → KeptFlow ip host_if ipt q s k
              (host_network_of name given l k t).0
              (host_network_of name given l k t).1
      cases l t h none given e = h
      cases l t h (some name) none e = h
      cases l t h (some name) (some given) e =
          make_veth-Kept given l t (h.ip_known given e) (rw e) h
