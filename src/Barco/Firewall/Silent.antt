-- ===== src/Barco/Firewall/Silent.antt =====
-- The programs that run no shell command, apart from the one whose output is read: the packet filter is
-- not changed by them.
use docker.Base.{Bytes, not, Bool, true, ◌≡◌, arith}
use docker.Sys.{Call, M}
use docker.Sys.Alphabet.{Only, Only-weaken}
use docker.Netlink.Calls.{link_call, nl_create_veth-Only}
use docker.Netlink.Link.{nl_create_veth}
use docker.Barco.Calls.{is_command, plain_call}
use docker.Barco.Calls.Tame.{is_tame}

abbrev pub is_silent : Call → Bool
is_silent c = not (is_command c)

tame_silent : (c : Call) → is_tame c ≡ true → is_silent c ≡ true
tame_silent c h = ground arith

pub tame_part : {A : Type 0} {m : M A} → Only is_tame m → Only is_silent m
tame_part o = Only-weaken tame_silent o

pub plain_silent : (c : Call) → plain_call c ≡ true → is_silent c ≡ true
plain_silent c h = ground arith

link_silent : (c : Call) → link_call c ≡ true → is_silent c ≡ true
link_silent c h = ground arith

pub create_silent : (name1 name2 : Bytes) → Only is_silent (nl_create_veth name1 name2)
create_silent name1 name2 = Only-weaken link_silent (nl_create_veth-Only name1 name2)
