-- ===== src/Barco/Calls/Tame.antt =====
-- The parts of `main` that run no shell command, apart from the one whose output is read, and ask for no
-- link.
use docker.Base.{Bytes, Option, none, some, ℤ, not, ◌&&◌, Bool, true, ◌≡◌, arith}
use docker.Sys.{Call, M}
use docker.Sys.Alphabet.{Only, only_rules, Only-weaken}
use docker.Barco.Defs.{Args, Locals}
use docker.Barco.Setup.{fill_network, choose_peer, make_stack}
use docker.Barco.Names.{generate_random_suffix}
use docker.Barco.Run.{start_container}
use docker.Barco.Main.{free_stack, release}
use docker.Container.{container_init}
use docker.Barco.Calls.{is_command, is_creation, plain_call}
use docker.Barco.Calls.Own.{own_call}
use docker.Barco.Calls.Parts.{generate_random_suffix-Only}
use docker.Barco.Calls.Whole.{Only-when}

abbrev pub is_tame : Call → Bool
is_tame c = not (is_command c) && not (is_creation c)

pub plain_tame : (c : Call) → plain_call c ≡ true → is_tame c ≡ true
plain_tame c h = ground arith

pub own_tame : (pid : ℤ) (c : Call) → own_call pid c ≡ true → is_tame c ≡ true
own_tame pid c h = ground arith

pub plain_part : {A : Type 0} {m : M A} → Only plain_call m → Only is_tame m
plain_part o = Only-weaken plain_tame o

pub suffix-Tame : Only is_tame generate_random_suffix
suffix-Tame = plain_part generate_random_suffix-Only

pub choose_peer-Tame :
    (given : Option Bytes) (veth_name suffix : Bytes)
    → Only is_tame (choose_peer given veth_name suffix)
unfolding choose_peer
choose_peer-Tame none veth_name suffix = search only_rules depth 40
choose_peer-Tame (some given) veth_name suffix = search only_rules depth 40

pub fill_network-Tame :
    (args : Args) (name ip : Bytes) (l : Locals) → Only is_tame (fill_network args name ip l)
unfolding fill_network
fill_network-Tame args name ip l = search (only_rules, suffix-Tame, choose_peer-Tame) depth 40

pub make_stack-Tame : (l : Locals) → Only is_tame (make_stack l)
unfolding make_stack
make_stack-Tame l = search only_rules depth 40

pub start_container-Tame : (l : Locals) → Only is_tame (start_container l)
unfolding start_container container_init
start_container-Tame l = search only_rules depth 40

pub free_stack-Tame : (l : Locals) → Only is_tame (free_stack l)
unfolding free_stack
free_stack-Tame l = search (only_rules, Only-when) depth 40

pub release-Tame : (code : ℤ) → Only is_tame (release code)
unfolding release
release-Tame code = search only_rules depth 40
