-- ===== src/Barco/Links/Known.antt =====
-- What the parts of `main` know of the host's end of the pair: where it is there, `cleanup` will take it
-- away.
use docker.Base.{
  ℕ, ℤ, ◌∙◌, ◌≡◌, refl, is_neg, ◌&&◌, true, false, Bytes, Option, none, some, arith, Bool-cases,
  inl, inr,
}
use docker.Sys.{Kernel, Trace, M, Call, steps}
use docker.Sys.Alphabet.{Only, Only-weaken}
use docker.Container.{container_init}
use docker.Netlink.Link.{nl_del_link, nl_create_veth}
use docker.Barco.Defs.{Locals, Flow, next, cleanup, waiting}
use docker.Barco.Setup.{
  is_set, text_of, make_sockets, make_stack, host_network, host_network_of, make_veth,
  configure_host, apply_nat,
}
use docker.Barco.Run.{start_container, move_interface, confine, await_exit}
use docker.Barco.Calls.Parts.{make_sockets-Only}
use docker.Barco.Calls.Own.{own_call, move_interface-Only, confine-Only, await_exit-Only}
use docker.Barco.Calls.Tame.{is_tame, own_tame, plain_part, make_stack-Tame, start_container-Tame}
use docker.Barco.Carry.{Lands, Carries}
use docker.Barco.Links.{Links, is_linkless, stays_away, nl_del_link-deletes, nl_create_veth-fails}

pub tame_linkless : {A : Type 0} {m : M A} → Only is_tame m → Only is_linkless m
tame_linkless o = Only-weaken (λ c h. ground arith) o

-- A part leaves what names the pair, and whether it was created.
abbrev pub SameLink : Locals → Flow → Type 0
SameLink l (next m) =
    (m.veth_created ≡ l.veth_created)
    × (m.config.veth_peer ≡ l.config.veth_peer)
    × (m.config.veth_name ≡ l.config.veth_name)
    × (m.config.container_ip ≡ l.config.container_ip)
SameLink l (cleanup m) =
    (m.veth_created ≡ l.veth_created) × (m.config.veth_peer ≡ l.config.veth_peer)
SameLink l waiting = Unit {0}

module _ {k : Kernel} {peer : Bytes} (links : Links k peer) where
  -- A link that is there was created in the run, under the peer's name.
  abbrev pub Traced : Locals → Trace → Type 0
  Traced l t = links.hosted t ≡ true → (l.veth_created ≡ true) × (l.config.veth_peer ≡ some peer)

  -- And a network that is asked for has its peer's name.
  pub record Known (l : Locals) (t : Trace) : Type 0 where
    pub traced : Traced l t
    pub named :
        (is_set l.config.veth_name && is_set l.config.container_ip) ≡ true
        → l.config.veth_peer ≡ some peer

  abbrev pub Knows : (Locals → M Flow) → Type 0
  Knows f = Carries k Known Traced f

  same-Known :
      (l : Locals) (t : Trace) (r : Flow) (u : Trace)
      → SameLink l r
      → (links.hosted u ≡ true → links.hosted t ≡ true)
      → Known l t
      → Lands k Known Traced r u
  same-Known l t (next m) u (made, peer_same, name_same, ip_same) e h = record {
    traced = λ there. rw (made, peer_same) (h.traced (e there));
    named = λ given. rw peer_same (h.named (rw (name_same, ip_same) at given));
  }
  same-Known l t (cleanup m) u (made, peer_same) e h =
      λ there. rw (made, peer_same) (h.traced (e there))
  same-Known l t waiting u same e h = tt

  -- A program that asks for no link leaves none that was not there.
  there_before :
      {A : Type 0} (m : M A) (t : Trace)
      → Only is_linkless m
      → links.hosted (m k t).1 ≡ true
      → links.hosted t ≡ true
  there_before m t o there = elim (Bool-cases (links.hosted t)) [
    | inl before ↦ before
    | inr away ↦ absurd (cc (stays_away links m t o away))
  ]

  Knows-tame :
      {f : Locals → M Flow}
      → ((l : Locals) → Only is_tame (f l))
      → ((l : Locals) (t : Trace) → SameLink l (f l k t).0)
      → Knows f
  Knows-tame {f} o same = record {
    carry = λ l t h.
        same-Known l t (f l k t).0 (f l k t).1 (same l t)
          (there_before (f l) t (tame_linkless (o l))) h;
  }

  pub make_sockets-Knows : Knows make_sockets
  unfolding make_sockets steps
  make_sockets-Knows = Knows-tame (λ l. plain_part (make_sockets-Only l)) λ l t. ground arith

  pub make_stack-Knows : Knows make_stack
  unfolding make_stack steps
  make_stack-Knows = Knows-tame make_stack-Tame λ l t. ground arith

  pub start_container-Knows : Knows start_container
  unfolding start_container container_init steps
  start_container-Knows = Knows-tame start_container-Tame λ l t. ground arith

  own_part : {A : Type 0} {m : M A} (pid : ℤ) → Only (own_call pid) m → Only is_tame m
  own_part pid o = Only-weaken (own_tame pid) o

  pub move_interface-Knows : Knows move_interface
  unfolding move_interface steps
  move_interface-Knows =
      Knows-tame (λ l. own_part l.container_pid (move_interface-Only l)) λ l t. ground arith

  pub confine-Knows : Knows confine
  unfolding confine steps
  confine-Knows = Knows-tame (λ l. own_part l.container_pid (confine-Only l)) λ l t. ground arith

  pub await_exit-Knows : (rounds : ℕ) → Knows (await_exit rounds)
  unfolding await_exit steps
  await_exit-Knows rounds =
      Knows-tame (λ l. own_part l.container_pid (await_exit-Only rounds l)) λ l t. ground arith

  -- Once the pair is created, nothing is left to know of it.
  created-Known :
      (l : Locals) (r : Flow) (u : Trace)
      → SameLink l r
      → l.veth_created ≡ true
      → l.config.veth_peer ≡ some peer
      → Lands k Known Traced r u
  created-Known l (next m) u (made, peer_same, name_same, ip_same) e e' = record {
    traced = λ there. (made ∙ e, peer_same ∙ e');
    named = λ given. peer_same ∙ e';
  }
  created-Known l (cleanup m) u (made, peer_same) e e' = λ there. (made ∙ e, peer_same ∙ e')
  created-Known l waiting u same e e' = tt

  configure_host-SameLink :
      (given : Bytes) (l : Locals) (t : Trace) → SameLink l (configure_host given l k t).0
  unfolding configure_host apply_nat steps
  configure_host-SameLink given l t = ground arith

  module _ (opens : (n : ℕ) → is_neg (k n Call.socket).ret ≡ false)
      (sends : (n : ℕ) (sock : ℤ) (nlh : Bytes)
        → is_neg (k n (Call.sendmsg sock nlh)).ret ≡ false) where
    make_veth-Known :
        (given : Bytes) (l : Locals) (t : Trace)
        → l.config.veth_peer ≡ some peer
        → Lands k Known Traced (make_veth given l k t).0 (make_veth given l k t).1
    unfolding make_veth steps
    make_veth-Known given l t e =
        let tmp = text_of l.config.veth_tmp in
        let u = (nl_del_link peer k (nl_del_link tmp k t).1).1 in
        let away : links.hosted u ≡ false =
          nl_del_link-deletes links (nl_del_link tmp k t).1 opens sends in
        let v = (nl_create_veth tmp peer k u).1 in
        let made : Locals = record l { veth_created = true } in
        let q : text_of l.config.veth_peer ≡ peer = rw e refl in
        elim (Bool-cases (is_neg (nl_create_veth tmp peer k u).0)) [
          | inl bad ↦ rw (q, bad) (λ there. absurd (cc (nl_create_veth-fails links tmp u away bad)))
          | inr good ↦
              rw (q, good)
                (created-Known made (configure_host given made k v).0
                  (configure_host given made k v).1 (configure_host-SameLink given made v) refl e)
        ]

    pub host_network-Knows : Knows host_network
    unfolding host_network steps
    host_network-Knows = record {
      carry = λ l t h. cases l t h l.config.veth_name l.config.container_ip refl refl;
    }
      where
        cases :
            (l : Locals) (t : Trace)
            → Known l t
            → (name given : Option Bytes) → l.config.veth_name ≡ name
            → l.config.container_ip ≡ given
            → Lands k Known Traced
                (host_network_of name given l k t).0
                (host_network_of name given l k t).1
        cases l t h none given p q = h
        cases l t h (some name) none p q = h
        cases l t h (some name) (some given) p q =
            make_veth-Known given l t (h.named (rw (p, q) refl))
