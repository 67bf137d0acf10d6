-- ===== src/Tests/AddressRuns.antt =====
-- The theorems about the requests of src/netlink.c for addresses and routes, and about the ends of its
-- loops, at concrete inputs.
use docker.Base.{◌≡◌, refl, pos, minus_one, [], ◌∷◌, codes, arith, decimal}
use docker.Sys.{Call, made}
use docker.Netlink.Socket.{scan}
use docker.Netlink.Route.{nl_add_addr}
use docker.Netlink.AddressMessage.{address_message, IsAddressRequest, nl_add_addr_sends}
use docker.Netlink.Fuel.{scan_ends}
use docker.Container.{wait_visible}
use docker.Container.Fuel.{wait_visible_ends}
use docker.Tests.Kernels.{generous, refusing}

nl_add_addr_sends_example :
    let m = address_message 7 (10 ∷ 0 ∷ 0 ∷ 2 ∷ []) 24 in
    ((nl_add_addr (codes "eth0") (codes "10.0.0.2/24") generous []).1
      ≡ made
          (Call.socket
            ∷ Call.setsockopt (pos 0)
            ∷ Call.if_nametoindex (codes "eth0")
            ∷ Call.inet_pton (codes "10.0.0.2")
            ∷ Call.sendmsg (pos 0) m
            ∷ Call.recvmsg (pos 0) 4096
            ∷ Call.close (pos 0)
            ∷ [])
          [])
    × IsAddressRequest m 7 24 (10 ∷ 0 ∷ 0 ∷ 2 ∷ [])
unfolding decimal
nl_add_addr_sends_example =
    nl_add_addr_sends 0 6 24 10 0 0 2 (codes "eth0") (codes "10.0.0.2") generous [] refl
      (omega arith) refl refl refl refl (omega arith) (omega arith) refl

-- An answer to another request, which the loop passes over.
scan_ends_example :
    scan minus_one 100 3 20 (16 ∷ 0 ∷ 0 ∷ 0 ∷ 2 ∷ 0 ∷ 0 ∷ 0 ∷ 9 ∷ 0 ∷ 0 ∷ 0 ∷ 0 ∷ 0 ∷ 0 ∷ 0 ∷ []) 16
    ≡ scan (pos 0) 17 3 20 (16 ∷ 0 ∷ 0 ∷ 0 ∷ 2 ∷ 0 ∷ 0 ∷ 0 ∷ 9 ∷ 0 ∷ 0 ∷ 0 ∷ 0 ∷ 0 ∷ 0 ∷ 0 ∷ []) 16
scan_ends_example =
    scan_ends (pos 0) minus_one 17 100 3 20 16
      (16 ∷ 0 ∷ 0 ∷ 0 ∷ 2 ∷ 0 ∷ 0 ∷ 0 ∷ 9 ∷ 0 ∷ 0 ∷ 0 ∷ 0 ∷ 0 ∷ 0 ∷ 0 ∷ []) (omega arith)
      (omega arith)

wait_visible_ends_example :
    wait_visible 100 (codes "veth-tmp-abc") 0 refusing []
    ≡ wait_visible 51 (codes "veth-tmp-abc") 0 refusing []
wait_visible_ends_example = wait_visible_ends 100 (codes "veth-tmp-abc") refusing [] (omega arith)
