-- ===== src/Tests/NetlinkRuns.antt =====
-- The theorems about src/netlink.c at concrete inputs.
use docker.Base.{◌∷◌, [], ◌≡◌, ◌≤◌, ◌↔◌, refl, pos, length, codes, arith, List}
use docker.Sys.{Kernel, Call}
use docker.Netlink.Link.{rename_request}
use docker.Netlink.Socket.{nl_send_recv}
use docker.Netlink.Response.{All, Message, encode_all, verdict, nl_send_recv-verdict}
use docker.Netlink.Bounds.{rename_request_fits}
use docker.Tests.Kernels.{answer}

-- A message to someone else, an acknowledgement, and an error behind it.
abbrev messages : List Message
messages =
    record { type = 2; flags = 0; seq = 8; pid = 4242; word = 5; rest = [] }
    ∷ record { type = 2; flags = 256; seq = 9; pid = 4242; word = 0; rest = 1 ∷ [] }
    ∷ record { type = 2; flags = 256; seq = 9; pid = 4242; word = 5; rest = [] }
    ∷ []

abbrev peer : Kernel
peer n (Call.recvmsg sock size) = answer (pos (length (encode_all messages))) (encode_all messages)
peer n c = answer (pos 20) []

acknowledged : verdict 9 16 messages ≡ pos 0
unfolding verdict
acknowledged = refl

well_formed : All messages
well_formed = (
  (omega arith, omega arith, omega arith, omega arith, omega arith, omega arith),
  (
    (omega arith, omega arith, omega arith, omega arith, omega arith, omega arith),
    ((omega arith, omega arith, omega arith, omega arith, omega arith, omega arith), tt),
  ),
)

nl_send_recv-verdict_example :
    (nl_send_recv (pos 3) (codes "request") 9 16 peer []).0 ≡ verdict 9 16 messages
nl_send_recv-verdict_example =
    nl_send_recv-verdict (pos 3) (codes "request") 9 16 messages peer [] well_formed refl refl refl

rename_request_fits_example :
    ((rename_request (pos 7) (codes "eth0")).len ≤ 96) ↔ (length (codes "eth0") ≤ 59)
rename_request_fits_example = rename_request_fits (pos 7) (codes "eth0")
