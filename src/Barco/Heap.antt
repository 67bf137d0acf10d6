-- ===== src/Barco/Heap.antt =====
-- The heap blocks of `main` in src/barco.c: how often each was allocated and freed in a run.
pub mod Stack
pub mod Blocks
pub mod Freed
pub mod Balance
use docker.Base.{
  ap, if◌then◌else◌, ℕ, ◌+◌, ◌≤◌, is_neg, nonzero, ◌≡◌, refl, arith, [], ◌∷◌, length, Bool, true,
  false, not,
}
use docker.Sys.{Kernel, Trace, M, Call, Block, Reply}
use docker.Sys.Alphabet.{Only, Only-keeps}
use docker.Sys.Descriptors.{indicator}
use docker.Barco.Defs.{Locals, Flow, next, cleanup, waiting}
use docker.Barco.Calls.{is_heap}

abbrev pub same_block : Block → Block → Bool
same_block Block.config Block.config = true
same_block Block.stack Block.stack = true
same_block Block.veth_peer Block.veth_peer = true
same_block Block.veth_tmp Block.veth_tmp = true
same_block _ _ = false

-- Whether a call allocates the block: malloc, calloc and strdup return NULL where they fail, asprintf
-- a negative number.
abbrev pub allocates : Call → Reply → Block → ℕ
allocates (Call.malloc a) r b = if same_block a b then indicator (nonzero r.ret) else 0
allocates (Call.calloc a) r b = if same_block a b then indicator (nonzero r.ret) else 0
allocates (Call.strdup a) r b = if same_block a b then indicator (nonzero r.ret) else 0
allocates (Call.asprintf a) r b = if same_block a b then indicator (not (is_neg r.ret)) else 0
allocates _ r b = 0

abbrev pub frees : Call → Block → ℕ
frees (Call.free a) b = indicator (same_block a b)
frees _ b = 0

unfoldable pub allocated : Kernel → Trace → Block → ℕ
allocated k [] b = 0
allocated k (c ∷ t) b = allocates c (k (length t) c) b + allocated k t b

unfoldable pub freed : Trace → Block → ℕ
freed [] b = 0
freed (c ∷ t) b = frees c b + freed t b

-- The calls that leave the heap alone.
abbrev pub light_call : Call → Bool
light_call c = not (is_heap c)

-- How often the block may have been allocated, by what the variables say.
abbrev pub bound : Block → Locals → ℕ
bound Block.config l = 0
bound Block.stack l = indicator l.stack
bound Block.veth_peer l = 1
bound Block.veth_tmp l = 1

-- From `t` to `u` nothing was freed, and the block was allocated so often at most.
pub record Grown (b : Block) (k : Kernel) (t : Trace) (n : ℕ) (u : Trace) : Type 0 where
  pub unfreed : freed u b ≡ freed t b
  pub few : allocated k u b ≤ allocated k t b + n

-- A part that leaves the variable for the stack as it is.
unfoldable pub SameStack : Locals → Flow → Type 0
SameStack l (next l') = l'.stack ≡ l.stack
SameStack l (cleanup l') = l'.stack ≡ l.stack
SameStack l waiting = Unit {0}

pub same_bound : (b : Block) (l l' : Locals) → l'.stack ≡ l.stack → bound b l' ≡ bound b l
same_bound Block.config l l' e = refl
same_bound Block.stack l l' e = ap indicator e
same_bound Block.veth_peer l l' e = refl
same_bound Block.veth_tmp l l' e = refl

module _ (b : Block) where
  light_heap :
      (c : Call) (r : Reply) → light_call c ≡ true → (allocates c r b ≡ 0) × (frees c b ≡ 0)
  light_heap c r h = ground arith

  pub light_Grown :
      (k : Kernel) (t : Trace) (n : ℕ) (u : Trace) (c : Call)
      → light_call c ≡ true
      → Grown b k t n u
      → Grown b k t n (c ∷ u)
  unfolding allocated freed
  light_Grown k t n u c h g =
      let e = light_heap c (k (length u) c) h in
      record { unfreed = omega (arith, e, g.unfreed); few = omega (arith, e, g.few) }

  pub light_keeps :
      {A : Type 0} (m : M A)
      → Only light_call m
      → (k : Kernel) (t : Trace) (n : ℕ) (u : Trace) → Grown b k t n u
      → Grown b k t n (m k u).1
  light_keeps m o k t n u g =
      Only-keeps (λ k u. Grown b k t n u) m (λ k u c h. light_Grown k t n u c h) o k u g

  -- The same from a flow's variables.
  unfoldable pub GrownFlow : Kernel → Trace → Flow → Trace → Type 0
  GrownFlow k t (next l) u = Grown b k t (bound b l) u
  GrownFlow k t (cleanup l) u = Grown b k t (bound b l) u
  GrownFlow k t waiting u = Unit {0}

  pub record Grows (g : Locals → M Flow) : Type 0 where
    pub grow :
        (l : Locals) (k : Kernel) (t u : Trace)
        → Grown b k t (bound b l) u
        → GrownFlow k t (g l k u).0 (g l k u).1

  pub Grows-light :
      (g : Locals → M Flow)
      → ((l : Locals) → Only light_call (g l))
      → ((l : Locals) (k : Kernel) (t : Trace) → SameStack l (g l k t).0)
      → Grows g
  unfolding SameStack GrownFlow
  Grows-light g o same = record {
    grow = λ l k t u h.
        go l k t (g l k u).0 (g l k u).1 (same l k u) (light_keeps (g l) (o l) k t (bound b l) u h);
  }
    where
      go :
          (l : Locals) (k : Kernel) (t : Trace) (r : Flow) (u : Trace)
          → SameStack l r
          → Grown b k t (bound b l) u
          → GrownFlow k t r u
      go l k t (next l') u e h = rw (same_bound b l l' e) h
      go l k t (cleanup l') u e h = rw (same_bound b l l' e) h
      go l k t waiting u e h = tt
