-- ===== src/Netlink/Requests.antt =====
-- The requests that the functions of src/netlink.c send: at most one.
pub mod Sent
pub mod Asked
use docker.Base.{
  ℕ, zero, suc, ap, ℤ, ◌+◌, ◌≡◌, refl, ◌∙◌, is_neg, nonzero, not, true, false, Bytes, List, [], ◌∷◌,
  length, Bool, Bool-cases, inl, inr, arith, Option, none, some, ◌≤◌, ◌++◌, if◌then◌else◌,
}
use docker.Sys.{Kernel, Trace, Call, M, steps, ◌>>=◌, ◌>>◌}
use docker.Sys.Alphabet.{Only, Only-keeps, only_rules, Only-if, Only-bind, Only-pure, Only-sys_ret}
use docker.Netlink.Message.{Request, message}
use docker.Netlink.Message.MessageType
use docker.Netlink.Message.Flags
use docker.Netlink.Socket.{nl_socket, nl_send_recv, wait_loop, wait_for_interface}
use docker.Netlink.Cidr.{Parsed, parse_cidr}
use docker.Netlink.Route.{
  nl_add_addr, address_request, nl_add_route, route_target, put_gateway, put_device, on_some,
}
use docker.Netlink.Calls.{Only-on_some, wait_for_interface-Polls}
use docker.Netlink.Wait.{polls, Outcome, wait_for_interface-Outcome}
use docker.Netlink.Link.{transact, nl_set_up, up_message, nl_rename_link, rename_request}

-- What was sent over sockets, the newest first.
abbrev pub requests : Trace → List Bytes
requests [] = []
requests (Call.sendmsg sock nlh ∷ t) = let rest = requests t in nlh ∷ rest
requests (_ ∷ t) = requests t

abbrev pub is_mute : Call → Bool
is_mute (Call.sendmsg _ _) = false
is_mute _ = true

requests_step : (c : Call) (t : Trace) → is_mute c ≡ true → requests (c ∷ t) ≡ requests t
requests_step c t h = ground arith

pub requests_mute :
    {A : Type 0} (m : M A) (k : Kernel) (t : Trace)
    → Only is_mute m
    → requests (m k t).1 ≡ requests t
requests_mute m k t o =
    Only-keeps (λ k' u. requests u ≡ requests t) m (λ k' u c h e. requests_step c u h ∙ e) o k t
      refl

pub requests-transact :
    (sock : ℤ) (nlh : Bytes) (seq type : ℕ) (k : Kernel) (t : Trace)
    → requests (transact sock nlh seq type k t).1 ≡ nlh ∷ requests t
unfolding nl_send_recv steps
requests-transact sock nlh seq type k t = ground arith

-- A program that sends one request at most.
pub record AtMostOne {A : Type 0} (m : M A) : Type 0 where
  pub sends :
      (k : Kernel) (t : Trace)
      → (later : List Bytes) × (length later ≤ 1) × (requests (m k t).1 ≡ later ++ requests t)

module _ {A : Type 0} where
  pub AtMostOne-mute : (m : M A) → Only is_mute m → AtMostOne m
  AtMostOne-mute m o = record { sends = λ k t. ([], (omega arith), requests_mute m k t o) }

  pub AtMostOne-if :
      (b : Bool) (m n : M A) → AtMostOne m → AtMostOne n → AtMostOne (if b then m else n)
  AtMostOne-if true m n p q = p
  AtMostOne-if false m n p q = q

module _ {A B : Type 0} where
  -- The request comes last.
  pub AtMostOne-bind :
      (m : M A) (f : A → M B) → Only is_mute m → ((a : A) → AtMostOne (f a)) → AtMostOne (m >>= f)
  unfolding steps
  AtMostOne-bind m f o p = record {
    sends = λ k t.
        let (later, few, e) = (p (m k t).0).sends k (m k t).1 in
        (later, few, e ∙ ap (λ rs. later ++ rs) (requests_mute m k t o));
  }

  -- The request comes first.
  pub AtMostOne-before :
      (m : M A) (f : A → M B) → AtMostOne m → ((a : A) → Only is_mute (f a)) → AtMostOne (m >>= f)
  unfolding steps
  AtMostOne-before m f p o = record {
    sends = λ k t.
        let (later, few, e) = p.sends k t in
        (later, few, requests_mute (f (m k t).0) k (m k t).1 (o (m k t).0) ∙ e);
  }

  AtMostOne-on_some :
      (o : Option A) (n : M B) (f : A → M B)
      → AtMostOne n
      → ((a : A) → AtMostOne (f a))
      → AtMostOne (on_some o n f)
  AtMostOne-on_some none n f p q = p
  AtMostOne-on_some (some a) n f p q = q a

transact-AtMostOne :
    (sock : ℤ) (nlh : Bytes) (seq type : ℕ) → AtMostOne (transact sock nlh seq type)
transact-AtMostOne sock nlh seq type = record {
  sends = λ k t. (nlh ∷ [], omega arith, requests-transact sock nlh seq type k t);
}

pub nl_socket-Mute : Only is_mute nl_socket
unfolding nl_socket
nl_socket-Mute = search only_rules depth 40

wait-Mute : (name : Bytes) (timeout_ms : ℕ) → Only is_mute (wait_for_interface name timeout_ms)
wait-Mute name timeout_ms = wait_for_interface-Polls name timeout_ms refl refl

ruleset one_rules = (
  AtMostOne-if, AtMostOne-bind, AtMostOne-on_some, transact-AtMostOne, AtMostOne-mute, only_rules,
  nl_socket-Mute, wait-Mute,
)

pub nl_set_up-AtMostOne : (name : Bytes) → AtMostOne (nl_set_up name)
unfolding nl_set_up
nl_set_up-AtMostOne name = search one_rules depth 40

route_target-Mute : (dest : Option Bytes) → Only is_mute (route_target dest)
unfolding route_target
route_target-Mute dest = search (only_rules, Only-on_some) depth 40

put_gateway-Mute : (gateway : Option Bytes) (r : Request) → Only is_mute (put_gateway gateway r)
unfolding put_gateway
put_gateway-Mute none r = search only_rules depth 40
put_gateway-Mute (some gateway) r = search only_rules depth 40

put_device-Mute : (dev : Option Bytes) (r : Request) → Only is_mute (put_device dev r)
unfolding put_device
put_device-Mute none r = search only_rules depth 40
put_device-Mute (some dev) r = search only_rules depth 40

pub nl_add_route-AtMostOne :
    (dest gateway dev : Option Bytes) → AtMostOne (nl_add_route dest gateway dev)
unfolding nl_add_route
nl_add_route-AtMostOne dest gateway dev =
    search (one_rules, route_target-Mute, put_gateway-Mute, put_device-Mute) depth 40
