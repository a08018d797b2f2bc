-- ===== src/Lib.antt =====
-- natporte: a network address and port translator for IPv4 on divert sockets.
--
-- The program takes packets from the LAN and the WAN interface, decides for each of them whether
-- it is dropped, translated or handed to the host, keeps one table entry (`struct node`) for
-- each translated flow in two red-black trees, follows the TCP state of each entry, and patches
-- the checksums of what it translates. New flows go through a ring buffer, `h_send`, to a thread
-- that asks an address pool for a port and puts the packet into a second ring, `h_recv`; another
-- thread takes it from there when the pool answers, makes the entry and sends the packet. Timers
-- end entries: the thread that waits for them puts the entry into `h_send`, and it leaves the
-- table when the pool has taken its port back.
--
-- Which file models what:
--   * Base and its children: bytes, big and little endian words, 32 and 16 bit wrap-around, bit
--     masks, arrays and the Boolean tests. A buffer is a function from offsets to bytes, and the
--     host is little-endian: `htons` and `htonl` swap bytes.
--   * Codes, Packet: the ALIAS_ codes of src/alias.h and the offsets of the header fields.
--   * Alias: the translation of src/alias.h. Alias/Wan2lan has `wan2lan_alias` and Alias/Lan2wan
--     has `lan2wan_alias`, one function for each case of their switches; Alias itself has
--     `tcp_reset_alias`, `other_if_check` and the rewriting of a packet's ends. Each function
--     takes the packet and the globals (`Globals`: table and `icmp_bucket`) and returns its code
--     with both as it leaves them.
--   * Table: the entries behind the pointers and the two trees of src/structure.h, with
--     `s_insert`, the deletions and the lookups. A pointer is a number, so an entry that both
--     trees hold is one entry. Table/Inv says what a good table is: both trees are sorted red-
--     black trees of the same entries, and each entry's keys are those of its ends.
--   * Node: `struct node` of src/structure.h, its 64-bit keys, and `mk_node`.
--   * RbTree: the red-black tree macros of src/structure.h: insertion and removal
--     (RbTree/Remove) with their recolouring, and the searches. The parent pointers above a node
--     are a path, and a null dereference is `none`. RB_REMOVE is given a node; the model looks
--     its place up by the key.
--   * TcpState: `tcp_state_check` of src/alias.h, one clause for each case of its switch.
--   * Checksum: `checksum`, `checksum_ip`, `checksum_transport`, `set_checksum`, `diff_checksum`
--     and `set_diff_checksum` of src/alias.h. The carry fold is a recursion on the sum, which
--     the fold makes smaller.
--   * Filter: the address classes, `is_too_big`, `chk_drop` and `chk_selfaddr` of src/alias.h.
--   * Ring: src/ring.h. `Handler` is `struct ring_handler`, with the depth of the recursive
--     mutex and the number of wake-ups as fields; `ring_push`, `ring_s_push`, `ring_pop`,
--     `ring_s_pop` and the two `condblock` functions have their names. Ring/Queue is the
--     abstract queue.
--   * Fragment: `mk_fn_packet` of src/alias.h, the ICMP answer to a packet that is too big.
--   * System: the state that the threads share (table, rings, timeouts, and what has been handed
--     to the operating system: packets, kevents, messages to the pool), the result of a step
--     (`Outcome`), and the timer calls of src/structure.h (System/Events).
--   * Divert: `loop_divert` of src/divert.h. `act` has one clause for each code of the
--     translation.
--   * Timer: the event loop at the end of `main` in src/main.cpp.
--   * Pool: src/addrpool.h. Pool/Sender has `addrpool_sender`, Pool/Receiver what
--     `addrpool_receiver` does with each message, Pool/Step its loop over the lines it reads,
--     and Pool/Lines the function `split` of src/utils.hpp that cuts them.
--   * Program: the state that `main` of src/main.cpp sets up, and the steps of all four threads
--     in any order.
--   * Samples and System/Samples: packets, entries and states for the tests. A test stands in a
--     module Examples beside what it tests.
--
-- How a thread is modelled: what it does between two waits for input is one step, a function
-- from the state to an `Outcome`: it is done, it waits, the program exits, or there is a fault,
-- a bad pointer or an exception. A step is indivisible, so the order of steps is that of the
-- locks; what interleaves inside a step, under two locks in turn, is not seen. A push that the
-- code repeats until the ring has room is a step for each try, with the block kept in the
-- thread's own field (`divert`, `timer`, `sender`). The answers of `sendto`, `kevent` and
-- `send`, what `recvfrom` and `recv` give, the time, the memory that `malloc` gives, the node on
-- the stack and the JSON parser are arguments of the steps.
--
-- Memory: an entry is what its pointer leads to, and it is freed when it leaves the table. The
-- steps that are handed a pointer through a ring test whether the table still has it and it is not
-- freed (Table/Live); reading a freed entry, freeing it again, or reading a block that holds the
-- other kind of payload, is a fault. When the pool discards a block with an entry, the entry is
-- freed while the trees still lead to it: `dangling` in System has these entries, `malloc` may give
-- their memory again, and such a state is no longer a good one. What the program does when it then
-- walks over the trees is undefined in C; the model goes on with what the memory held.
--
-- The model is that of the Makefile's options WAIT_TIME_DELETE, DIFF_CKSUM and NATIVE_LOCK,
-- without OPT_HOSTID, IP_CHECKSUM and DEBUG. Log output and printing are left out. Loops are
-- recursions on what they count; only the loop of `split` has fuel, the length of its text, and
-- the theorem on `split` shows that it is enough.
--
-- Not modelled: the tree macros that step to a neighbour, which only the table dump uses;
-- sockets, threads and locks as such; `addrpool_initialize` and `open_addrpool`, which greet the
-- pool once; the host-id options, which the Makefile leaves off; command line, interfaces,
-- logging, printing, and the tools around the program.
pub mod Alias
pub mod Base
pub mod Checksum
pub mod Codes
pub mod Divert
pub mod Filter
pub mod Fragment
pub mod Node
pub mod Packet
pub mod Pool
pub mod Program
pub mod RbTree
pub mod Ring
pub mod Samples
pub mod System
pub mod Table
pub mod TcpState
pub mod Timer
