-- ===== src/Barco/Links/Removed.antt =====
-- What a whole run of `main` leaves of the pair of interfaces.
use docker.Base.{◌≡◌, false, Bytes, ◌∷◌, none, some}
use docker.Sys.{Kernel, Trace, Call, Block, M, ◌>>◌}
use docker.Barco.Defs.{Args, Locals, Flow, next, cleanup, waiting}
use docker.Barco.Names.{generate_random_suffix, peer_name}
use docker.Barco.Setup.{text_of}
use docker.Barco.Main.{free_stack, close_socket, remove_cgroup}
use docker.Barco.Links.{Links}
use docker.Barco.Links.Table.{away}
use docker.Barco.Links.Known.{Known}

-- The name of the host's end: the one given, or one made up from the suffix.
abbrev pub chosen_peer : Args → Bytes → Bytes
chosen_peer args suffix = elim args.veth_peer [
  | none ↦ peer_name (text_of args.veth_name) suffix
  | some given ↦ given
]

-- The name that the run takes when it starts behind a trace.
abbrev pub run_peer : Args → Kernel → Trace → Bytes
run_peer args k t = chosen_peer args (generate_random_suffix k (Call.calloc Block.config ∷ t)).0

-- No pair is created yet; where the network is filled in, its peer has the chosen name.
abbrev IsNamed : Bytes → Flow → Type 0
IsNamed peer (next m) = m.config.veth_peer ≡ some peer
IsNamed peer (cleanup m) = Unit {0}
IsNamed peer waiting = Unit {0}

-- `clean_up` behind its second step.
behind_veth : Locals → M (Unit {0})
behind_veth l = do free_stack l; close_socket l.socket0; close_socket l.socket1; remove_cgroup l

-- Up to the stack, no link is there.
module _ (args : Args) (k : Kernel) (t : Trace) (links : Links k (run_peer args k t))
    (away : links.hosted (Call.calloc Block.config ∷ t) ≡ false) where
  abbrev begun : Trace
  begun = Call.calloc Block.config ∷ t
