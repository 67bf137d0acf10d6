-- ===== src/Netlink/Message/Attribute.antt =====
-- rta_type of the attributes that the requests carry.
use docker.Base.{ℕ}

abbrev pub ifla_ifname : ℕ
ifla_ifname = 3

abbrev pub ifla_linkinfo : ℕ
ifla_linkinfo = 18

abbrev pub ifla_net_ns_fd : ℕ
ifla_net_ns_fd = 28

abbrev pub ifla_info_kind : ℕ
ifla_info_kind = 1

abbrev pub ifla_info_data : ℕ
ifla_info_data = 2

abbrev pub veth_info_peer : ℕ
veth_info_peer = 1

abbrev pub ifa_address : ℕ
ifa_address = 1

abbrev pub ifa_local : ℕ
ifa_local = 2

abbrev pub rta_dst : ℕ
rta_dst = 1

abbrev pub rta_oif : ℕ
rta_oif = 4

abbrev pub rta_gateway : ℕ
rta_gateway = 5
