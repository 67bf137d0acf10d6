-- ===== src/Lib.antt =====
-- barco, a small container runtime in C: it creates a process in new namespaces, connects it to the
-- host by a pair of virtual interfaces, restricts it and waits for it.
--
-- The program and the model. Every effect of the program is a call of the C library or of Linux.
-- Sys.Defs has the calls with their arguments (`Call`), what a call gives back (`Reply`: value, errno
-- and stored bytes), and a `Kernel`, which is any function from the number of calls so far and the
-- call to a reply. A C function is a program of the monad `M`: it takes a kernel and the trace of the
-- calls made so far, the newest first, and gives its result and the longer trace. Nothing is assumed
-- of the kernel but what a theorem names among its hypotheses. `Settles` in Sys.Descriptors says that
-- a program closes what it opens, descriptors and the streams of popen alike, and besides that each of
-- the descriptors that it owes once; `Only`
-- in Sys.Alphabet, that a program makes no calls but those of an alphabet. Both have rules for each
-- construct of the monad, in a ruleset for search.
--
-- Base holds lists and integers over native numbers, C strings as lists of bytes with atoi, snprintf
-- and %d, and integers in memory, little endian.
--
-- Which file is about which part (paths from the root of the repository):
--   Netlink.Message, Netlink.Socket, Netlink.Cidr, Netlink.Link, Netlink.Route: src/netlink.c, its
--     request buffers byte by byte, nl_socket, nl_send_recv, wait_for_interface, parse_cidr, and the
--     seven public functions nl_*.
--   User: src/user.c and include/user.h, the handshake between user_namespace_init in the child and
--     user_namespace_prepare_mappings in the parent. User.Protocol has a state machine for each end,
--     and what its events are in calls; User.Protocol.Parent and User.Protocol.Child set the two
--     functions against them, and User.Protocol.System joins the two by the socket pair, with every
--     order of their steps. In a system that is `faulty` a read may fail at any time.
--   Cgroups: src/cgroups.c and include/cgroups.h.  Mount: src/mount.c.  Sec: src/sec.c.
--   Container: src/container.c and include/container.h; Container.Start is container_start in four
--     stages (prepare, restrict, execute, and the label fail), Container.Network its network,
--     Container.Configured what that network sends (Netlink.Requests reads requests off a trace),
--     Container.Calls and Container.Descriptors its calls and descriptors from end to end.
--   Barco: src/barco.c; Barco.CommandLine has the table of options and what main reads of the result
--     (its parts 1 and 2), Barco.Names and Barco.Nat are the helpers of main, Barco.Setup its parts 3
--     to 6, Barco.Run its parts 7 to 10, Barco.Main the labels cleanup and exit and main itself. The
--     local variables are the record Locals; a part ends in a Flow, which runs on or jumps to cleanup.
--     Barco.Firewall has iptables, which is not part of the program, as an interface: a record of the
--     tables' states, what a command makes of them, and how often each of three rules is listed, with the
--     texts of the commands written out apart from the functions that print them; its
--     children follow these tables through all of main, and Barco.Links does the same for the host's
--     end of the pair of interfaces (Barco.Links.Table has the kernel's rules for them, by what the bytes
--     of a request say), both by the chain of parts in Barco.Carry. Sec.Capabilities and
--     Mount.Isolation have the kernel's view of capabilities and mounts as such interfaces, where a call
--     has its effect if its reply reports success, and
--     User.Range which ids a user namespace admits.
--     Four subtrees go through the whole of main: Barco.Calls for the calls that it makes,
--     Barco.Processes for the processes that it signals and awaits and what becomes of them,
--     Barco.Descriptors for what it opens and closes, and Barco.Heap for what it allocates and frees.
-- The parts meet in main and in container_start: both call the functions of Netlink, main calls User
-- and Cgroups on the process that container_init gives it, container_start calls Mount, User and Sec.
-- The other files under these names, and Resources, are about those definitions; Tests runs them on
-- concrete kernels.
--
-- Bounds and fuel. The loop of nl_send_recv takes one more round than the response has bytes, and each
-- message takes 16 bytes at least. wait_for_interface takes a round for each millisecond of its
-- timeout, and the loop adds 100 of them at a time. The wait in container_start has 51 rounds, one more
-- than its timeout allows (Netlink.Fuel and Container.Fuel are about these bounds, Barco.Rounds about
-- the next). The loop of main over waitpid has no bound in the source: the rounds are an
-- argument, and a run that uses them up has no exit code. Numbers are native; uint8_t, uint16_t,
-- uint32_t and int values in memory wrap where the source stores them.
--
-- Not modelled. lib/argtable (argtable3) and lib/log (rxi/log.c) are other projects' libraries:
-- arg_parse is a parameter of the command, a function from the table and the arguments to what it
-- stores, arg_freetable is one call, and logging is left out with the printing of help and errors: -v,
-- which sets the level of the log, is read and has no effect in the model. The child does not
-- run inside the parent's trace: container_init records the clone call, and container_start is a
-- program of its own. A pointer that a call returns is a number, 0 for NULL; the heap is modelled by
-- the calls alone. Of iptables only the rules that setup_nat names are in the interface, of the
-- host's links only its end of the pair, and of the socket pair only whole words. Bytes of a
-- response behind the received length read as 0.
pub mod Base
pub mod Sys
pub mod Netlink
pub mod User
pub mod Cgroups
pub mod Mount
pub mod Sec
pub mod Container
pub mod Barco
pub mod Resources
mod Tests
