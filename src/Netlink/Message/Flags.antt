-- ===== src/Netlink/Message/Flags.antt =====
-- nlmsg_flags: NLM_F_REQUEST, NLM_F_ACK, NLM_F_REPLACE, NLM_F_EXCL, NLM_F_CREATE.
use docker.Base.{ℕ}

abbrev pub request : ℕ
request = 0x1

abbrev pub ack : ℕ
ack = 0x4

abbrev pub replace : ℕ
replace = 0x100

abbrev pub excl : ℕ
excl = 0x200

abbrev pub create : ℕ
create = 0x400
