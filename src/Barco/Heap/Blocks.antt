-- ===== src/Barco/Heap/Blocks.antt =====
-- What the parts of `main` in src/barco.c allocate.
use docker.Base.{
  ℕ, ◌+◌, ◌≤◌, ℤ, pos, is_neg, nonzero, ◌≡◌, refl, arith, ◌∷◌, length, true, false, Bytes, Option,
  none, some, Bool-cases, inl, inr,
}
use docker.Sys.{Kernel, Trace, Call, Block, steps}
use docker.Sys.Alphabet.{Only, only_rules, Only-weaken}
use docker.Sys.Descriptors.{indicator}
use docker.Container.{container_init}
use docker.Barco.Defs.{Args, Locals}
use docker.Barco.Setup.{
  is_set, fill_config, fill_network, fill_network_of, choose_peer, base_config, make_stack,
}
use docker.Barco.Names.{generate_random_suffix}
use docker.Barco.Run.{start_container}
use docker.Barco.Calls.{calm_call, calm_part}
use docker.Barco.Calls.Parts.{generate_random_suffix-Only}
use docker.Barco.Calls.Own.{own_call}
use docker.Barco.Heap.{
  same_block, same_bound, allocated, freed, light_call, bound, Grown, GrownFlow, light_keeps,
}

pub calm_light : (c : Call) → calm_call c ≡ true → light_call c ≡ true
calm_light c h = ground arith

pub own_light : (pid : ℤ) (c : Call) → own_call pid c ≡ true → light_call c ≡ true
own_light pid c h = ground arith

pub start_container_light : (l : Locals) → Only light_call (start_container l)
unfolding start_container container_init
start_container_light l = search only_rules depth 40

-- The two names are all that is allocated before the stack.
names_bound :
    (b : Block) (l : Locals)
    → 0 + indicator (same_block Block.veth_peer b) + indicator (same_block Block.veth_tmp b)
      ≤ bound b l
names_bound Block.config l = omega arith
names_bound Block.stack l = omega arith
names_bound Block.veth_peer l = omega arith
names_bound Block.veth_tmp l = omega arith

peer_bound : (b : Block) (l : Locals) → 0 + indicator (same_block Block.veth_peer b) ≤ bound b l
peer_bound b l = omega (arith, names_bound b l)

-- What the choice of the peer's name allocates.
choose_peer_grows :
    (b : Block) (given : Option Bytes) (veth_name suffix : Bytes) (k : Kernel) (u : Trace)
    → let v = (choose_peer given veth_name suffix k u).1 in
      (freed v b ≡ freed u b)
      × (allocated k v b ≤ allocated k u b + indicator (same_block Block.veth_peer b))
unfolding choose_peer steps allocated freed
choose_peer_grows b none veth_name suffix k u = (ground arith, ground arith)
choose_peer_grows b (some given) veth_name suffix k u = (ground arith, ground arith)

tmp_name_grows :
    (b : Block) (k : Kernel) (u : Trace)
    → let v = Call.asprintf Block.veth_tmp ∷ u in
      (freed v b ≡ freed u b)
      × (allocated k v b ≤ allocated k u b + indicator (same_block Block.veth_tmp b))
unfolding allocated freed
tmp_name_grows b k u = (ground arith, ground arith)

more :
    (b : Block) (k : Kernel) (t u v : Trace) (n d : ℕ)
    → Grown b k t n u
    → (freed v b ≡ freed u b) × (allocated k v b ≤ allocated k u b + d)
    → Grown b k t (n + d) v
more b k t u v n d g h = record {
  unfreed = omega (arith, g.unfreed, h);
  few = omega (arith, g.few, h);
}

bounded :
    (b : Block) (k : Kernel) (t u : Trace) (n m : ℕ) → n ≤ m → Grown b k t n u → Grown b k t m u
bounded b k t u n m h g = record { unfreed = g.unfreed; few = omega (arith, h, g.few) }

suffix_light : Only light_call generate_random_suffix
suffix_light = Only-weaken calm_light (calm_part generate_random_suffix-Only)

fill_network_grows :
    (b : Block) (args : Args) (name ip : Bytes) (l : Locals) (k : Kernel) (t u : Trace)
    → Grown b k t 0 u
    → GrownFlow b k t (fill_network args name ip l k u).0 (fill_network args name ip l k u).1
unfolding fill_network steps GrownFlow
fill_network_grows b args name ip l k t u h =
    let (suffix, u1) = generate_random_suffix k u in
    let (peer, u2) = choose_peer args.veth_peer name suffix k u1 in
    let h2 =
      more b k t u1 u2 0 _ (light_keeps b generate_random_suffix suffix_light k t 0 u h)
        (choose_peer_grows b args.veth_peer name suffix k u1) in
    let h3 = more b k t u2 (Call.asprintf Block.veth_tmp ∷ u2) _ _ h2 (tmp_name_grows b k u2) in
    elim (Bool-cases (is_set peer)) [
      | inr unset ↦ rw unset (bounded b k t u2 _ _ (peer_bound b _) h2)
      | inl chosen ↦ elim (Bool-cases (is_neg (k (length u2) (Call.asprintf Block.veth_tmp)).ret)) [
        | inl bad ↦ rw (chosen, bad) (bounded b k t _ _ _ (names_bound b _) h3)
        | inr good ↦ rw (chosen, good) (bounded b k t _ _ _ (names_bound b _) h3)
      ]
    ]

pub fill_config_grows :
    (b : Block) (args : Args) (l : Locals) (k : Kernel) (t u : Trace)
    → Grown b k t 0 u
    → GrownFlow b k t (fill_config args l k u).0 (fill_config args l k u).1
unfolding fill_config
fill_config_grows b args l k t u h =
    go args.veth_name args.container_ip (record l { config = base_config args })
  where
    go :
        (name ip : Option Bytes) (l : Locals)
        → GrownFlow b k t
            (fill_network_of name ip args l k u).0
            (fill_network_of name ip args l k u).1
    go none ip l = unfold GrownFlow steps in bounded b k t u 0 (bound b l) (omega arith) h
    go (some name) none l = unfold GrownFlow steps in bounded b k t u 0 (bound b l) (omega arith) h
    go (some name) (some ip) l = fill_network_grows b args name ip l k t u h

stack_bound :
    (b : Block) (l : Locals)
    → l.stack ≡ false
    → bound b l + indicator (same_block Block.stack b) ≤ bound b (record l { stack = true })
stack_bound Block.config l e = omega arith
stack_bound Block.stack l e = rw e (omega arith)
stack_bound Block.veth_peer l e = omega arith
stack_bound Block.veth_tmp l e = omega arith

stack_grows :
    (b : Block) (k : Kernel) (u : Trace)
    → let v = Call.malloc Block.stack ∷ u in
      (freed v b ≡ freed u b)
      × (allocated k v b ≤ allocated k u b + indicator (same_block Block.stack b))
unfolding allocated freed
stack_grows b k u = (ground arith, ground arith)

no_stack_grows :
    (b : Block) (k : Kernel) (u : Trace)
    → nonzero (k (length u) (Call.malloc Block.stack)).ret ≡ false
    → let v = Call.malloc Block.stack ∷ u in
      (freed v b ≡ freed u b) × (allocated k v b ≤ allocated k u b + 0)
unfolding allocated freed
no_stack_grows b k u h = (ground arith, ground arith)

-- The stack is allocated where the variable says so.
pub make_stack_grows :
    (b : Block) (l : Locals) (k : Kernel) (t u : Trace)
    → l.stack ≡ false
    → Grown b k t (bound b l) u
    → GrownFlow b k t (make_stack l k u).0 (make_stack l k u).1
unfolding make_stack steps GrownFlow
make_stack_grows b l k t u e h =
    elim (Bool-cases (nonzero (k (length u) (Call.malloc Block.stack)).ret)) [
      | inl good ↦
          rw good
            (bounded b k t _ _ _ (stack_bound b l e) (more b k t u _ _ _ h (stack_grows b k u)))
      | inr bad ↦ rw bad (
          bounded b k t _ _ _ (omega (arith, same_bound b l (record l { exitcode = pos 1 }) refl))
            (more b k t u _ (bound b l) 0 h (no_stack_grows b k u bad)))
    ]
