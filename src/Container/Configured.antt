-- ===== src/Container/Configured.antt =====
-- What the container's process asks of the kernel in stage 2 of `container_start` in src/container.c.
use docker.Base.{
  ℕ, zero, suc, ◌+◌, ◌≤◌, ◌≡◌, refl, ◌∙◌, ap, is_neg, leb, true, false, Bytes, List, ◌++◌, ◌∷◌,
  length, codes, Option, none, some, Bool-cases, inl, inr,
}
use docker.Sys.{Kernel, Trace, Call, steps}
use docker.Sys.Alphabet.{Only, Only-if, Only-bind, Only-pure, Only-sys_ret}
use docker.Netlink.Link.{nl_set_up, up_message, nl_rename_link}
use docker.Netlink.Route.{nl_add_addr}
use docker.Netlink.Cidr.{parse_cidr}
use docker.Netlink.Requests.{
  requests, is_mute, requests_mute, AtMostOne, AtMostOne-if, AtMostOne-mute, AtMostOne-before,
  nl_set_up-AtMostOne, nl_add_route-AtMostOne,
}
use docker.Netlink.Requests.Sent.{
  SentFor, rename_message, add_message, nl_rename_link-SentFor, nl_set_up-SentFor,
  nl_add_addr-SentFor,
}
use docker.Netlink.Requests.Asked.{
  AsksUp, AsksName, AsksAddress, up_message-AsksUp, rename_message-AsksName,
  add_message-AsksAddress,
}
use docker.Container.{
  ContainerConfig, configure_network, configure_interface, take_interface, default_route,
  wait_visible, configure_network_of, container_start, set_hostname,
}
use docker.Container.Order.{container_start_order}
use docker.Mount.{mount_set}

-- The requests between two traces, in order: at most one for the loopback interface, then that the
-- interface `tmp` be named `name`, that it get the address of a text, that it be set up, and at most one
-- more, for the route. Each of the three is about the index that the kernel gave for the name, and its
-- bytes read so: the type, that index, and what is asked for stand at the offsets of struct nlmsghdr,
-- struct ifinfomsg, struct ifaddrmsg and the attributes.
pub record Configured (k : Kernel) (tmp name ip : Bytes) (t u : Trace) : Type 0 where
  pub lo : List Bytes
  pub lo_one : length lo ≤ 1
  pub visible : Trace
  pub behind_lo : requests visible ≡ lo ++ requests t
  pub renamed : Trace
  pub rename : SentFor k tmp (rename_message name) visible renamed
  pub rename_reads : AsksName name rename.index (rename_message name rename.index)
  pub parsed_at : Trace
  pub parses : is_neg (parse_cidr ip k parsed_at).0.status ≡ false
  pub addressed : Trace
  pub address : SentFor k name (add_message (parse_cidr ip k parsed_at).0) renamed addressed
  pub address_reads :
      let p = (parse_cidr ip k parsed_at).0 in
      AsksAddress p.ip p.plen address.index (add_message p address.index)
  pub up : Trace
  pub set_up : SentFor k name up_message addressed up
  pub up_reads : AsksUp set_up.index (up_message set_up.index)
  pub route : List Bytes
  pub route_one : length route ≤ 1
  pub behind_up : requests u ≡ route ++ requests up

wait_visible-Mute :
    (fuel : ℕ) (veth_tmp : Bytes) (waited : ℕ) → Only is_mute (wait_visible fuel veth_tmp waited)
unfolding wait_visible
wait_visible-Mute zero veth_tmp waited = Only-pure _
wait_visible-Mute (suc fuel) veth_tmp waited = Only-bind _ _ (Only-sys_ret _ refl) λ idx.
    Only-if _ _ _
      (Only-bind _ _ (Only-sys_ret _ refl) λ r. wait_visible-Mute fuel veth_tmp (waited + 100))
      (Only-pure _)

default_route-AtMostOne :
    (host_ip : Option Bytes) (veth_name : Bytes) → AtMostOne (default_route host_ip veth_name)
unfolding default_route
default_route-AtMostOne none veth_name = AtMostOne-mute _ (Only-pure _)
default_route-AtMostOne (some host_ip) veth_name =
    AtMostOne-if _ _ _ (AtMostOne-mute _ (Only-pure _))
      (AtMostOne-before _ _ (nl_add_route-AtMostOne _ _ _) λ r. Only-pure _)

module _ (config : ContainerConfig) (tmp name ip : Bytes) (k : Kernel) (t : Trace) where
  configured :
      config.veth_tmp ≡ some tmp
      → (configure_interface config name ip k t).0 ≡ true
      → Configured k tmp name ip t (configure_interface config name ip k t).1
  unfolding configure_interface take_interface steps
  configured e h =
      let a = nl_set_up (codes "lo") k t in
      let w = wait_visible 51 tmp 0 k a.1 in
      let r = nl_rename_link tmp name k w.1 in
      let d = nl_add_addr name ip k r.1 in
      let s = nl_set_up name k d.1 in
      let (lo, lo_one, behind_lo) = (nl_set_up-AtMostOne (codes "lo")).sends k t in
      let (route, route_one, behind_up) =
        (default_route-AtMostOne config.host_ip name).sends k s.1 in
      elim (Bool-cases (leb 5000 w.0)) [
        | inl late ↦ absurd (cc (rw (e, late) at h))
        | inr in_time ↦ elim (Bool-cases (is_neg r.0)) [
          | inl bad ↦ absurd (cc (rw (e, in_time, bad) at h))
          | inr taken ↦ elim (Bool-cases (is_neg d.0)) [
            | inl bad ↦ absurd (cc (rw (e, in_time, taken, bad) at h))
            | inr added ↦ elim (Bool-cases (is_neg s.0)) [
              | inl bad ↦ absurd (cc (rw (e, in_time, taken, added, bad) at h))
              | inr raised ↦
                  let (parsed_at, parses, address) = nl_add_addr-SentFor k r.1 name ip added in
                  rw (e, in_time, taken, added, raised)
                    (record {
                      lo = lo;
                      lo_one = lo_one;
                      visible = w.1;
                      behind_lo =
                          requests_mute (wait_visible 51 tmp 0) k a.1 (wait_visible-Mute 51 tmp 0)
                          ∙ behind_lo;
                      renamed = r.1;
                      rename = nl_rename_link-SentFor k w.1 tmp name taken;
                      rename_reads = rename_message-AsksName name _;
                      parsed_at = parsed_at;
                      parses = parses;
                      addressed = d.1;
                      address = address;
                      address_reads = add_message-AsksAddress (parse_cidr ip k parsed_at).0 _;
                      up = s.1;
                      set_up = nl_set_up-SentFor k d.1 name raised;
                      up_reads = up_message-AsksUp _;
                      route = route;
                      route_one = route_one;
                      behind_up = behind_up;
                    })
            ]
          ]
        ]
      ]

configure_network-asked :
    (config : ContainerConfig) (name ip : Bytes)
    → config.veth_name ≡ some name
    → config.container_ip ≡ some ip
    → configure_network config ≡ configure_interface config name ip
unfolding configure_network
configure_network-asked config name ip p q =
    ap (λ n. configure_network_of config n config.container_ip) p
    ∙ ap (λ i. configure_network_of config (some name) i) q

-- If the socket of the container is not negative, the last call of `container_start` is an `execve`, and
-- a network is asked for, then behind the change of the root these requests were sent: at most one,
-- then that the temporary interface be given its final name, that this name get an address which
-- `parse_cidr` took from the text, and that it be set up, and at most one more. The bytes of each of the
-- three, read at their offsets, have the index that the kernel gave for the name, and the name, the
-- address or the flag that is asked for.
pub container_start_connects :
    (config : ContainerConfig) (tmp name ip : Bytes) (k : Kernel) (t : Trace) (path : Bytes)
    (argv : List (Option Bytes)) (rest : Trace)
    → is_neg config.fd ≡ false
    → config.veth_tmp ≡ some tmp
    → config.veth_name ≡ some name
    → config.container_ip ≡ some ip
    → (container_start config k t).1 ≡ Call.execve path argv ∷ rest
    → let u = (mount_set config.mnt k (set_hostname config.hostname k t).1).1 in
      Configured k tmp name ip u (configure_network config k u).1
container_start_connects config tmp name ip k t path argv rest h tmp_given name_given ip_given e =
    let connected = (container_start_order config k t path argv rest h e).1 in
    let u = (mount_set config.mnt k (set_hostname config.hostname k t).1).1 in
    let same = configure_network-asked config name ip name_given ip_given in
    rw same (configured config tmp name ip k u tmp_given (rw same at connected))
