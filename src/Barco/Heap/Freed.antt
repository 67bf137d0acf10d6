-- ===== src/Barco/Heap/Freed.antt =====
-- What `cleanup` and `exit` of src/barco.c free, and what the body of `main` allocates.
use docker.Base.{if◌then◌else◌, ℕ, ◌+◌, ◌≤◌, ℤ, ◌≡◌, ◌∙◌, refl, arith, Bool, true, false, some}
use docker.Sys.{Kernel, Trace, M, Call, Block, pure, sys_ret, ◌>>=◌, ◌>>◌, steps}
use docker.Sys.Alphabet.{Only, Only-weaken, Only-pure, only_rules}
use docker.Sys.Descriptors.{indicator}
use docker.Barco.Defs.{Args, Locals, Flow, next, cleanup, waiting, go_on, ◌>=>◌}
use docker.Barco.Setup.{fill_config, make_sockets, make_stack, host_network}
use docker.Barco.Run.{start_container, move_interface, confine, await_exit}
use docker.Barco.Main.{body, setup, release, initial, clean_up, free_stack, when}
use docker.Barco.Calls.{calm_call, calm_part}
use docker.Barco.Calls.Parts.{make_sockets-Only, host_network-Only}
use docker.Barco.Calls.Own.{move_interface-Only, confine-Only, await_exit-Only}
use docker.Barco.Calls.Whole.{
  remove_nat-Only, remove_veth-Only, close_socket-Only, remove_cgroup-Only,
}
use docker.Barco.Heap.{
  same_block, allocated, freed, light_call, Grown, GrownFlow, SameStack, Grows, Grows-light,
  light_keeps,
}
use docker.Barco.Heap.Stack.{
  make_sockets-SameStack, host_network-SameStack, start_container-SameStack,
  move_interface-SameStack, confine-SameStack, await_exit-SameStack, fill_config-SameStack,
}
use docker.Barco.Heap.Blocks.{
  calm_light, own_light, start_container_light, fill_config_grows, make_stack_grows,
}

module _ (b : Block) where
  -- A program that frees the block so often, and allocates nothing.
  pub record Frees {A : Type 0} (n : ℕ) (m : M A) : Type 0 where
    pub frees :
        (k : Kernel) (u : Trace)
        → (freed (m k u).1 b ≡ freed u b + n) × (allocated k (m k u).1 b ≤ allocated k u b)

  Frees-bind :
      {A B : Type 0} {i j : ℕ} {m : M A} {f : A → M B}
      → Frees i m
      → ((a : A) → Frees j (f a))
      → Frees (i + j) (m >>= f)
  unfolding steps
  Frees-bind {m = m} p q = record {
    frees = λ k u. (
      omega (arith, p.frees k u, (q (m k u).0).frees k (m k u).1),
      omega (arith, p.frees k u, (q (m k u).0).frees k (m k u).1),
    );
  }

  Frees-light : {A : Type 0} {m : M A} → Only light_call m → Frees 0 m
  Frees-light {m = m} o = record {
    frees = λ k u.
        let g = light_keeps b m o k u 0 u (record { unfreed = refl; few = omega arith }) in
        (omega (arith, g.unfreed), omega (arith, g.few));
  }

  Frees-free : (a : Block) → Frees (indicator (same_block a b)) (sys_ret (Call.free a))
  unfolding steps freed allocated
  Frees-free a = record { frees = λ k u. (omega arith, omega arith) }

  Frees-count : {A : Type 0} {i j : ℕ} {m : M A} → i ≡ j → Frees i m → Frees j m
  Frees-count e p = record {
    frees = λ k u. (omega (arith, e, p.frees k u), omega (arith, p.frees k u));
  }

  Frees-calm : {m : M (Unit {0})} → Only calm_call m → Frees 0 m
  Frees-calm o = Frees-light (Only-weaken calm_light o)

  free_stack-Frees :
      (l : Locals)
      → Frees (if l.stack then indicator (same_block Block.stack b) else 0) (free_stack l)
  unfolding free_stack
  free_stack-Frees l = go l.stack
    where
      go :
          (s : Bool)
          → Frees
              (if s then indicator (same_block Block.stack b) else 0)
              (when s (sys_ret (Call.free Block.stack) >> pure tt))
      go true =
          Frees-count (omega arith)
            (Frees-bind (Frees-free Block.stack) λ r. Frees-light (Only-pure tt))
      go false = Frees-light (Only-pure _)

  -- The blocks that `exit` frees.
  unfoldable pub released : ℕ
  released =
      indicator (same_block Block.veth_peer b)
      + (indicator (same_block Block.veth_tmp b) + (indicator (same_block Block.config b) + 0))

  pub release-Frees : (code : ℤ) → Frees released (release code)
  unfolding release released
  release-Frees code = Frees-bind (Frees-free Block.veth_peer) λ x.
      Frees-bind (Frees-free Block.veth_tmp)
        λ y. Frees-bind (Frees-free Block.config) λ z. Frees-light (search only_rules depth 40)

  unfoldable pub due : Locals → ℕ
  due l = if l.stack then indicator (same_block Block.stack b) else 0

  clean_up-Frees : (l : Locals) → Frees (due l) (clean_up l)
  unfolding clean_up due
  clean_up-Frees l = Frees-count (omega arith) (
      Frees-bind (Frees-calm (remove_nat-Only l)) λ v.
        Frees-bind (Frees-calm (calm_part (remove_veth-Only l))) λ w.
          Frees-bind (free_stack-Frees l) λ x.
            Frees-bind (Frees-calm (calm_part (close_socket-Only l.socket0))) λ y.
              Frees-bind (Frees-calm (calm_part (close_socket-Only l.socket1)))
                λ z. Frees-calm (calm_part (remove_cgroup-Only l)))

  pub finish-Frees :
      (l : Locals)
      → Frees (due l + released) (do clean_up l; code ← release l.exitcode; pure (some code))
  finish-Frees l = Frees-count (omega arith) (
      Frees-bind (clean_up-Frees l)
        λ u. Frees-bind (release-Frees l.exitcode) λ code. Frees-light (Only-pure (some code)))

  -- A chain of parts behind the allocation of the configuration.
  pub record GrowsFrom (f : Locals → M Flow) (l : Locals) : Type 0 where
    pub grows :
        (k : Kernel) (t u : Trace) → Grown b k t 0 u → GrownFlow b k t (f l k u).0 (f l k u).1

  GrowsFrom-seq :
      {f g : Locals → M Flow} {l : Locals} → GrowsFrom f l → Grows b g → GrowsFrom (f >=> g) l
  unfolding steps GrownFlow
  GrowsFrom-seq {f} {g} {l} p q = record {
    grows = λ k t u h. go k t (f l k u).0 (f l k u).1 (p.grows k t u h);
  }
    where
      go :
          (k : Kernel) (t : Trace) (r : Flow) (u : Trace)
          → GrownFlow b k t r u
          → GrownFlow b k t (go_on g r k u).0 (go_on g r k u).1
      go k t (next l') u h = q.grow l' k t u h
      go k t (cleanup l') u h = h
      go k t waiting u h = tt

  -- Up to the stack, with none before.
  stack-GrowsFrom :
      (args : Args) → GrowsFrom (fill_config args >=> make_sockets >=> make_stack) (initial args)
  unfolding steps GrownFlow SameStack
  stack-GrowsFrom args = record {
    grows = λ k t u h.
        go_fill k t (fill_config args (initial args) k u).0 (fill_config args (initial args) k u).1
          (fill_config-SameStack args (initial args) k u)
          (fill_config_grows b args (initial args) k t u h);
  }
    where
      go_stack :
          (k : Kernel) (t : Trace) (l : Locals) (r : Flow) (u : Trace)
          → l.stack ≡ false
          → SameStack l r
          → GrownFlow b k t r u
          → GrownFlow b k t (go_on make_stack r k u).0 (go_on make_stack r k u).1
      go_stack k t l (next l') u e s h = make_stack_grows b l' k t u (s ∙ e) h
      go_stack k t l (cleanup l') u e s h = h
      go_stack k t l waiting u e s h = tt

      go_fill :
          (k : Kernel) (t : Trace) (r : Flow) (u : Trace)
          → SameStack (initial args) r
          → GrownFlow b k t r u
          → let (r', u') = go_on make_sockets r k u in
            GrownFlow b k t (go_on make_stack r' k u').0 (go_on make_stack r' k u').1
      go_fill k t (next l) u s h =
          go_stack k t l (make_sockets l k u).0 (make_sockets l k u).1 s
            (make_sockets-SameStack l k u)
            ((Grows-light b make_sockets
                (λ l. Only-weaken calm_light (calm_part (make_sockets-Only l)))
                make_sockets-SameStack).grow
              l k t u h)
      go_fill k t (cleanup l) u s h = h
      go_fill k t waiting u s h = tt

  pub body-GrowsFrom : (rounds : ℕ) (args : Args) → GrowsFrom (body rounds args) (initial args)
  unfolding body setup
  body-GrowsFrom rounds args =
      GrowsFrom-seq
        (GrowsFrom-seq
          (GrowsFrom-seq
            (GrowsFrom-seq
              (GrowsFrom-seq (stack-GrowsFrom args) (
                Grows-light b host_network (λ l. Only-weaken calm_light (host_network-Only l))
                  host_network-SameStack))
              (Grows-light b start_container start_container_light start_container-SameStack))
            (Grows-light b move_interface
              (λ l. Only-weaken (own_light l.container_pid) (move_interface-Only l))
              move_interface-SameStack))
          (Grows-light b confine (λ l. Only-weaken (own_light l.container_pid) (confine-Only l))
            confine-SameStack))
        (Grows-light b (await_exit rounds)
          (λ l. Only-weaken (own_light l.container_pid) (await_exit-Only rounds l))
          (await_exit-SameStack rounds))
