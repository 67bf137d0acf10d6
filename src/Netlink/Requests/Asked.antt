-- ===== src/Netlink/Requests/Asked.antt =====
-- What a reader of three requests of src/netlink.c finds in them: the type, the interface that they are
-- about, and what is asked for.
use docker.Base.{
  ℕ, ℤ, ◌+◌, ◌%◌, ◌^◌, ◌≡◌, refl, wrap, Bytes, [], ◌∷◌, length, take, drop, get_or, get_u16,
  get_u32, u8, u16, u32, arith, ◌++◌, take-append_length, append_assoc,
}
use docker.Netlink.Message.{in_addr, message, ifinfomsg, ifaddrmsg, put_attr, rtattr}
use docker.Netlink.Message.MessageType
use docker.Netlink.Message.Flags
use docker.Netlink.Message.Attribute
use docker.Netlink.Cidr.{Parsed}
use docker.Netlink.Link.{up_message, rename_request}
use docker.Netlink.LinkMessages.{link_message_lem}
use docker.Netlink.Route.{address_request}
use docker.Netlink.Requests.Sent.{rename_message, add_message}

-- struct ifinfomsg at its offset: that the interface be up, and nothing else.
pub record AsksUp (index : ℤ) (m : Bytes) : Type 0 where
  pub type : get_u16 m 4 ≡ MessageType.newlink
  pub about : get_u32 m 20 ≡ wrap (2 ^ 32) index
  pub flags : get_u32 m 24 ≡ 1
  pub change : get_u32 m 28 ≡ 1

-- That the interface be given a name, which the first attribute holds.
pub record AsksName (newname : Bytes) (index : ℤ) (m : Bytes) : Type 0 where
  pub type : get_u16 m 4 ≡ MessageType.newlink
  pub about : get_u32 m 20 ≡ wrap (2 ^ 32) index
  pub attribute : get_u16 m 34 ≡ Attribute.ifla_ifname
  pub named : take (length newname) (drop 36 m) ≡ newname

-- That the interface get an address, which is local and its own: struct ifaddrmsg and two attributes.
pub record AsksAddress (ip : Bytes) (plen : ℕ) (index : ℤ) (m : Bytes) : Type 0 where
  pub type : get_u16 m 4 ≡ MessageType.newaddr
  pub about : get_u32 m 20 ≡ wrap (2 ^ 32) index
  pub prefix : get_or m 17 0 ≡ plen % 256
  pub local : (get_u16 m 26 ≡ Attribute.ifa_local) × (take 4 (drop 28 m) ≡ in_addr ip)
  pub address : (get_u16 m 34 ≡ Attribute.ifa_address) × (take 4 (drop 36 m) ≡ in_addr ip)

wrap_small : (index : ℤ) → wrap (2 ^ 32) index % 4294967296 ≡ wrap (2 ^ 32) index
wrap_small index = ground arith

pub up_message-AsksUp : (index : ℤ) → AsksUp index (up_message index)
unfolding up_message message ifinfomsg u8 u16 u32
up_message-AsksUp index = record {
  type = refl;
  about = omega (arith, wrap_small index);
  flags = refl;
  change = refl;
}

pub rename_message-AsksName :
    (newname : Bytes) (index : ℤ) → AsksName newname index (rename_message newname index)
unfolding rename_request ifinfomsg u8 u16 u32
rename_message-AsksName newname index =
    rw
      (link_message_lem MessageType.newlink (Flags.request + Flags.ack) 7 (wrap (2 ^ 32) index)
        Attribute.ifla_ifname (newname ++ (0 ∷ [])))
      (record {
        type = refl;
        about = omega (arith, wrap_small index);
        attribute = refl;
        named = rw (append_assoc newname (0 ∷ [])) (take-append_length newname _);
      })

pub add_message-AsksAddress :
    (p : Parsed) (index : ℤ) → AsksAddress p.ip p.plen index (add_message p index)
unfolding message address_request put_attr rtattr ifaddrmsg u8 u16 u32
add_message-AsksAddress p index = record {
  type = refl;
  about = omega (arith, wrap_small index);
  prefix = refl;
  local = (refl, refl);
  address = (refl, refl);
}
