-- ===== src/Netlink/Message/MessageType.antt =====
-- nlmsg_type of linux/rtnetlink.h and linux/netlink.h.
use docker.Base.{ℕ}

abbrev pub error : ℕ
error = 2

abbrev pub done : ℕ
done = 3

abbrev pub newlink : ℕ
newlink = 16

abbrev pub dellink : ℕ
dellink = 17

abbrev pub newaddr : ℕ
newaddr = 20

abbrev pub newroute : ℕ
newroute = 24
