-- ===== src/Netlink/Bounds.antt =====
-- Whether the requests of src/netlink.c fit the arrays that they are built in.
use docker.Base.{◌≤◌, ◌↔◌, ℤ, Bytes, [], ◌∷◌, length, length-append, arith}
use docker.Netlink.Message.{put_attr, ifinfomsg, veth_request}
use docker.Netlink.Link.{rename_request}

-- For two interface names of at most 15 bytes the request of `nl_create_veth` stays inside its 288
-- bytes (16, 16 and `buf[256]`).
pub veth_request_fits :
    (name1 name2 : Bytes)
    → length name1 ≤ 15
    → length name2 ≤ 15
    → (veth_request name1 name2).len ≤ 288
unfolding veth_request
veth_request_fits name1 name2 h1 h2 = omega (arith, length-append {0})

-- The request of `nl_rename_link` stays inside its 96 bytes (16, 16 and `buf[64]`) exactly for
-- names of at most 59 bytes.
pub rename_request_fits :
    (idx : ℤ) (newname : Bytes) → ((rename_request idx newname).len ≤ 96) ↔ (length newname ≤ 59)
unfolding rename_request put_attr ifinfomsg
rename_request_fits idx newname = (
  λ h. omega (arith, length-append newname (0 ∷ [])),
  λ h. omega (arith, length-append newname (0 ∷ [])),
)
