-- ===== src/Barco/Firewall/Restored.antt =====
-- What a whole run of `main` leaves of the packet filter.
use docker.Base.{
  ℕ, ◌-◌, ◌≡◌, refl, ap, ◌∙◌, ℤ, pos, nonzero, not, ltb, true, false, Bytes, ◌∷◌, length, Option,
  none, some, arith, Bool-cases, inl, inr,
}
use docker.Sys.{Kernel, Trace, Call, Block, M, pure, steps, ◌>>=◌, ◌>>◌}
use docker.Sys.Alphabet.{Only, Only-bind, Only-weaken}
use docker.Barco.Defs.{Args, Locals, Flow, next, cleanup, waiting}
use docker.Barco.Setup.{
  is_set, text_of, base_config, fill_config, fill_network, fill_network_of, choose_peer,
}
use docker.Barco.Nat.{setup_subnet, detect_host_interface}
use docker.Barco.NatLaws.{setup_subnet-eq-cleanup_subnet}
use docker.Barco.Main.{
  setup, body, initial, main, clean_up, finish, release, remove_nat, remove_veth, free_stack,
  close_socket, remove_cgroup,
}
use docker.Barco.Calls.{plain_call}
use docker.Barco.Calls.Whole.{remove_veth-Only, close_socket-Only, remove_cgroup-Only}
use docker.Barco.Carry.{CarriesFrom, CarriesFrom-seq, branches}
use docker.Barco.Firewall.{NatRule, Iptables, tables, cleanup_nat_lists}
use docker.Barco.Firewall.Silent.{is_silent, plain_silent, tame_part}
use docker.Barco.Calls.Tame.{fill_network-Tame, free_stack-Tame, release-Tame}
use docker.Barco.Firewall.Kept.{
  Kept, KeptFlow, tables_silent, make_sockets-Holds, make_stack-Holds, start_container-Holds,
  move_interface-Holds, confine-Holds, await_exit-Holds,
}
use docker.Barco.Firewall.Applied.{chosen, host_network-Holds, brief, named, subnet_fits}

-- The address is filled in, and no rule is applied.
abbrev IsFilled : Bytes → Flow → Type 0
IsFilled given (next m) = (m.nat_applied ≡ false) × (m.config.container_ip ≡ some given)
IsFilled given (cleanup m) = (m.nat_applied ≡ false) × (m.config.container_ip ≡ some given)
IsFilled given waiting = Unit {0}

fill_network-IsFilled :
    (args : Args) (name given : Bytes) (l : Locals) (k : Kernel) (t : Trace)
    → l.nat_applied ≡ false
    → IsFilled given (fill_network args name given l k t).0
unfolding fill_network choose_peer steps
fill_network-IsFilled args name given l k t h = ground arith

some_same : {x y : Bytes} {o : Option Bytes} → o ≡ some x → o ≡ some y → x ≡ y
some_same e e' = cc

known_ip :
    {ip : Bytes} (o : Option Bytes)
    → is_set o ≡ true
    → ((x : Bytes) → o ≡ some x → x ≡ ip)
    → text_of o ≡ ip
known_ip none h known = cc
known_ip (some x) h known = known x refl

-- `clean_up` behind its first step.
behind_nat : Locals → M (Unit {0})
behind_nat l = do
  remove_veth l
  free_stack l
  close_socket l.socket0
  close_socket l.socket1
  remove_cgroup l

plain_part : {A : Type 0} {m : M A} → Only plain_call m → Only is_silent m
plain_part o = Only-weaken plain_silent o

behind_nat_silent : (l : Locals) → Only is_silent (behind_nat l)
unfolding behind_nat
behind_nat_silent l = Only-bind _ _ (plain_part (remove_veth-Only l)) λ b.
    Only-bind _ _ (tame_part (free_stack-Tame l)) λ c.
      Only-bind _ _ (plain_part (close_socket-Only l.socket0)) λ d.
        Only-bind _ _ (plain_part (close_socket-Only l.socket1))
          λ e. plain_part (remove_cgroup-Only l)

clean_up_trace :
    (l : Locals) (k : Kernel) (t : Trace)
    → (clean_up l k t).1 ≡ (behind_nat l k (remove_nat l k t).1).1
unfolding clean_up behind_nat steps
clean_up_trace l k t = refl

module _ (args : Args) (host_if : Bytes)
    (ipt : Iptables (setup_subnet (text_of args.container_ip)) host_if) (q : NatRule)
    (s : ipt.State) (k : Kernel)
    (ok : (n : ℕ) (command : Bytes) → (k n (Call.system command)).ret ≡ pos 0)
    (detects : (t : Trace) → chosen (detect_host_interface k t).0 ≡ host_if) where
  filled-Kept :
      (given : Bytes) (r : Flow) (t : Trace)
      → given ≡ text_of args.container_ip
      → ipt.listed q (tables ipt s t) ≡ 0
      → IsFilled given r
      → KeptFlow (text_of args.container_ip) host_if ipt q s k r t
  filled-Kept given (next m) t e h (nat, filled) = record {
    ip_known = λ x x_filled. some_same x_filled filled ∙ e;
    count = rw nat h;
    iface = λ applied. absurd (cc);
  }
  filled-Kept given (cleanup m) t e h (nat, filled) = record {
    ip_known = λ x x_filled. some_same x_filled filled ∙ e;
    count = rw nat h;
    iface = λ applied. absurd (cc);
  }
  filled-Kept given waiting t e h filled = tt

  -- From the variables that `main` starts with, and no rule listed.
  KeptFrom : (Locals → M Flow) → Type 0
  KeptFrom f =
      let P = Kept (text_of args.container_ip) host_if ipt q s k in
      (t : Trace) → ipt.listed q (tables ipt s t) ≡ 0 → CarriesFrom k P P (initial args) t f

  fill_config-KeptFrom : KeptFrom (fill_config args)
  unfolding fill_config base_config steps KeptFrom
  fill_config-KeptFrom t h = record { from = cases args.veth_name args.container_ip t h refl }
    where
      base : Locals
      base = record (initial args) { config = base_config args }

      unapplied :
          (t : Trace)
          → ipt.listed q (tables ipt s t) ≡ 0
          → Kept (text_of args.container_ip) host_if ipt q s k base t
      unapplied t h = record {
        ip_known = λ x e. absurd (cc);
        count = h;
        iface = λ applied. absurd (cc);
      }

      cases :
          (name given : Option Bytes) (t : Trace)
          → ipt.listed q (tables ipt s t) ≡ 0
          → args.container_ip ≡ given
          → let (r, u) = fill_network_of name given args base k t in
            KeptFlow (text_of args.container_ip) host_if ipt q s k r u
      cases (some name) (some given) t h e =
          filled-Kept given (fill_network args name given base k t).0
            (fill_network args name given base k t).1 (rw e refl)
            (ap (ipt.listed q) (
                tables_silent (text_of args.container_ip) host_if ipt q s k
                  (fill_network args name given base) t
                  (tame_part (fill_network-Tame args name given base)))
              ∙ h)
            (fill_network-IsFilled args name given base k t refl)
      cases (some name) none t h e = unapplied t h
      cases none given t h e = unapplied t h

  body-KeptFrom : (rounds : ℕ) → KeptFrom (body rounds args)
  unfolding body setup KeptFrom
  body-KeptFrom rounds t h =
      let ip = text_of args.container_ip in
      CarriesFrom-seq k _ _
        (CarriesFrom-seq k _ _
          (CarriesFrom-seq k _ _
            (CarriesFrom-seq k _ _
              (CarriesFrom-seq k _ _
                (CarriesFrom-seq k _ _
                  (CarriesFrom-seq k _ _ (fill_config-KeptFrom t h)
                    (make_sockets-Holds ip host_if ipt q s k))
                  (make_stack-Holds ip host_if ipt q s k))
                (host_network-Holds ip host_if ipt q s k ok detects))
              (start_container-Holds ip host_if ipt q s k))
            (move_interface-Holds ip host_if ipt q s k))
          (confine-Holds ip host_if ipt q s k))
        (await_exit-Holds ip host_if ipt q s k rounds)

  remove_nat-lists :
      (l : Locals) (t : Trace)
      → Kept (text_of args.container_ip) host_if ipt q s k l t
      → ipt.listed q (tables ipt s (remove_nat l k t).1) ≡ 0
  unfolding remove_nat steps
  remove_nat-lists l t h = elim (Bool-cases l.nat_applied) [
    | inr unapplied ↦ rw unapplied (h.count ∙ rw unapplied refl)
    | inl applied ↦
        let (same, asked) = h.iface applied in
        let one : ipt.listed q (tables ipt s t) ≡ 1 = h.count ∙ rw applied refl in
        rw
          (
            applied,
            asked,
            same,
            named (text_of args.container_ip) host_if ipt q s k ok detects,
            known_ip l.config.container_ip asked h.ip_known,
            ← setup_subnet-eq-cleanup_subnet (text_of args.container_ip),
          )
          (cleanup_nat_lists ipt q s k t (subnet_fits (text_of args.container_ip))
              (brief (text_of args.container_ip) host_if ipt q s k ok detects)
            ∙ ap (λ n. n - 1) one)
  ]

  leave-lists :
      (l : Locals) (t : Trace)
      → Kept (text_of args.container_ip) host_if ipt q s k l t
      → ipt.listed q (tables ipt s (release l.exitcode k (clean_up l k t).1).1) ≡ 0
  leave-lists l t h =
      let ip = text_of args.container_ip in
      let u = (remove_nat l k t).1 in
      ap (ipt.listed q) (
        tables_silent ip host_if ipt q s k (release l.exitcode) (clean_up l k t).1
          (tame_part (release-Tame l.exitcode))
        ∙ ap (tables ipt s) (clean_up_trace l k t)
        ∙ tables_silent ip host_if ipt q s k (behind_nat l) u (behind_nat_silent l))
      ∙ remove_nat-lists l t h

  finish-lists :
      (r : Flow) (code : ℤ) (t : Trace)
      → KeptFlow (text_of args.container_ip) host_if ipt q s k r t
      → (finish r k t).0 ≡ some code
      → ipt.listed q (tables ipt s (finish r k t).1) ≡ 0
  unfolding finish steps
  finish-lists (next l) code t h e = leave-lists l t h
  finish-lists (cleanup l) code t h e = leave-lists l t h
  finish-lists waiting code t h e = absurd (cc)

-- Let every shell command succeed, and let each detection of the host's interface give `host_if`. If
-- a rule of the container's subnet is not listed when `main` starts, then it is not listed when
-- `main` returns, with whatever code and whatever other call fails in between: a run takes out all that it
-- adds.
pub main_restores_tables :
    (rounds : ℕ) (args : Args) (host_if : Bytes)
    (ipt : Iptables (setup_subnet (text_of args.container_ip)) host_if) (q : NatRule)
    (s : ipt.State) (code : ℤ) (k : Kernel) (t : Trace)
    → ((n : ℕ) (command : Bytes) → (k n (Call.system command)).ret ≡ pos 0)
    → ((u : Trace) → chosen (detect_host_interface k u).0 ≡ host_if)
    → ipt.listed q (tables ipt s t) ≡ 0
    → (main rounds args k t).0 ≡ some code
    → ipt.listed q (tables ipt s (main rounds args k t).1) ≡ 0
unfolding main steps KeptFrom
main_restores_tables rounds args host_if ipt q s code k t ok detects h e =
    let u = Call.calloc Block.config ∷ t in
    let r = body rounds args (initial args) k u in
    let kept = (body-KeptFrom args host_if ipt q s k ok detects rounds u h).from in
    let restored = finish-lists args host_if ipt q s k ok detects r.0 code r.1 kept in
    let released = λ (c : ℤ).
      ap (ipt.listed q) (
        tables_silent (text_of args.container_ip) host_if ipt q s k (release c) u
          (tame_part (release-Tame c)))
      ∙ h in
    branches (λ v. ipt.listed q (tables ipt s v) ≡ 0)
      (not (nonzero (k (length t) (Call.calloc Block.config)).ret)) (ltb 0 args.errors) args.help
      (release (pos 1) >>= λ c. pure (some c)) (release (pos 0) >>= λ c. pure (some c))
      (body rounds args (initial args) >>= finish) code k u h (released (pos 1)) (released (pos 0))
      restored e
