-- ===== src/Barco/Firewall/Kept.antt =====
-- What the parts of `main` make of the three rules: how often each is listed goes with the flag
-- `nat_applied`.
use docker.Base.{ℕ, ◌≡◌, refl, ◌∙◌, true, Bytes, ◌∷◌, some, arith, if◌then◌else◌}
use docker.Sys.{Kernel, Trace, Call, M, steps}
use docker.Sys.Alphabet.{Only, Only-keeps, Only-weaken}
use docker.Container.{container_init}
use docker.Barco.Defs.{Locals, Flow, next, cleanup, waiting}
use docker.Barco.Setup.{is_set, make_sockets, make_stack}
use docker.Barco.Run.{start_container, move_interface, confine, await_exit}
use docker.Barco.Nat.{setup_subnet}
use docker.Barco.Calls.Parts.{make_sockets-Only}
use docker.Barco.Calls.Own.{move_interface-Only, confine-Only, await_exit-Only}
use docker.Barco.Carry.{Lands, Carries}
use docker.Barco.Firewall.{NatRule, Iptables, tables}
use docker.Barco.Firewall.Silent.{is_silent, plain_silent, tame_part}
use docker.Barco.Calls.Tame.{own_tame, make_stack-Tame, start_container-Tame}

-- A part leaves what `cleanup` tests of the address translation.
abbrev pub SameNat : Locals → Flow → Type 0
SameNat l (next m) =
    (m.nat_applied ≡ l.nat_applied)
    × (m.host_if ≡ l.host_if)
    × (m.config.container_ip ≡ l.config.container_ip)
SameNat l (cleanup m) =
    (m.nat_applied ≡ l.nat_applied)
    × (m.host_if ≡ l.host_if)
    × (m.config.container_ip ≡ l.config.container_ip)
SameNat l waiting = Unit {0}

module _ (ip host_if : Bytes) (ipt : Iptables (setup_subnet ip) host_if) (q : NatRule)
    (s : ipt.State) (k : Kernel) where
  -- The rule is listed while the flag says so, and then the interface and the address are known.
  pub record Kept (l : Locals) (t : Trace) : Type 0 where
    pub ip_known : (x : Bytes) → l.config.container_ip ≡ some x → x ≡ ip
    pub count : ipt.listed q (tables ipt s t) ≡ (if l.nat_applied then 1 else 0)
    pub iface : l.nat_applied ≡ true → (l.host_if ≡ host_if) × (is_set l.config.container_ip ≡ true)

  abbrev pub KeptFlow : Flow → Trace → Type 0
  KeptFlow = Lands k Kept Kept

  abbrev pub Holds : (Locals → M Flow) → Type 0
  Holds = Carries k Kept Kept

  tables_step : (c : Call) (u : Trace) → is_silent c ≡ true → tables ipt s (c ∷ u) ≡ tables ipt s u
  tables_step c u h = ground arith

  -- A program that runs no command leaves the tables.
  pub tables_silent :
      {A : Type 0} (m : M A) (t : Trace)
      → Only is_silent m
      → tables ipt s (m k t).1 ≡ tables ipt s t
  tables_silent m t o =
      Only-keeps (λ k' u. tables ipt s u ≡ tables ipt s t) m (λ k' u c h e. tables_step c u h ∙ e) o
        k t refl

  Kept-same :
      (l : Locals) (t : Trace) (r : Flow) (u : Trace)
      → SameNat l r
      → tables ipt s u ≡ tables ipt s t
      → Kept l t
      → KeptFlow r u
  Kept-same l t (next m) u (nat, iface, ip_same) e h = record {
    ip_known = rw ip_same h.ip_known;
    count = rw (e, nat) h.count;
    iface = rw (nat, iface, ip_same) h.iface;
  }
  Kept-same l t (cleanup m) u (nat, iface, ip_same) e h = record {
    ip_known = rw ip_same h.ip_known;
    count = rw (e, nat) h.count;
    iface = rw (nat, iface, ip_same) h.iface;
  }
  Kept-same l t waiting u same e h = tt

  -- Behind a program that runs no command all is as before.
  pub Kept-silent :
      {A : Type 0} {l : Locals} {t : Trace} (m : M A)
      → Only is_silent m
      → Kept l t
      → Kept l (m k t).1
  Kept-silent {l = l} {t = t} m o h =
      Kept-same l t (next l) (m k t).1 (refl, refl, refl) (tables_silent m t o) h

  pub Holds-silent :
      {f : Locals → M Flow}
      → ((l : Locals) → Only is_silent (f l))
      → ((l : Locals) (t : Trace) → SameNat l (f l k t).0)
      → Holds f
  Holds-silent {f} o same = record {
    carry =
        λ l t h. Kept-same l t (f l k t).0 (f l k t).1 (same l t) (tables_silent (f l) t (o l)) h;
  }

  pub make_sockets-Holds : Holds make_sockets
  unfolding make_sockets steps
  make_sockets-Holds =
      Holds-silent (λ l. Only-weaken plain_silent (make_sockets-Only l)) λ l t. ground arith

  pub make_stack-Holds : Holds make_stack
  unfolding make_stack steps
  make_stack-Holds = Holds-silent (λ l. tame_part (make_stack-Tame l)) λ l t. ground arith

  pub start_container-Holds : Holds start_container
  unfolding start_container container_init steps
  start_container-Holds = Holds-silent (λ l. tame_part (start_container-Tame l)) λ l t. ground arith

  pub move_interface-Holds : Holds move_interface
  unfolding move_interface steps
  move_interface-Holds =
      Holds-silent (λ l. tame_part (Only-weaken (own_tame l.container_pid) (move_interface-Only l)))
        λ l t. ground arith

  pub confine-Holds : Holds confine
  unfolding confine steps
  confine-Holds =
      Holds-silent (λ l. tame_part (Only-weaken (own_tame l.container_pid) (confine-Only l)))
        λ l t. ground arith

  pub await_exit-Holds : (rounds : ℕ) → Holds (await_exit rounds)
  unfolding await_exit steps
  await_exit-Holds rounds =
      Holds-silent
        (λ l. tame_part (Only-weaken (own_tame l.container_pid) (await_exit-Only rounds l)))
        λ l t. ground arith
