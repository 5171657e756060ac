-- ===== src/Lib.antt =====
-- pdrad is a router advertisement daemon for Linux: it asks a DHCPv6 server on the WAN interface for a
-- prefix (DHCPv6-PD), or takes a static one, and announces it on the LAN interface by ICMPv6 Router
-- Advertisements. This library models its packet code byte by byte, its threads step by step, and
-- proves what they compute.
--
-- The program's parts, and where they are modelled:
--
-- - Prelude and its children: shared names, Boolean tests, lists over the native numbers.
-- - Memory: the machine that the C code runs on. A block is the list of its bytes, a pointer to a block
--   of its own is `Ptr`, an access outside a block or through NULL is a `fault`, and so is a log message
--   that reads an argument that it was not given. `read` and `write` are
--   `memcpy`, `load16`, `store16` and so on are loads and stores of a little-endian machine with 64-bit
--   `size_t` (the target of CMakeLists.txt is aarch64), `htobe16` and `htobe32` are the byte swaps that
--   the C library does there. `malloc` is a parameter (`Malloc`): it answers NULL or a block of the size
--   asked for, with any content. Memory/Laws and Memory/Access have the laws, Memory/Ensures
--   is about runs that return, Memory/Samples has a `malloc` for the tests.
-- - Dhcp/Options: the constructors of DHCPv6 options (Src/dh_options.c, Inc/dh_options.h); Format is the
--   layout of an option in memory and on the wire, Layout what each constructor leaves.
-- - Dhcp/Codes: `enum dh_options` (Inc/dh_options.h).
-- - Dhcp/Packets: `dh_createPacket` and the Solicit packets (Src/dh_packets.c, Inc/dh_packets.h); Wire
--   and Solicit hold them against the format. `timespec_get` and `random` are the parameter
--   `Environment`, the allocations of one run are numbered, the optional arguments are a list with the
--   count that the caller gives.
-- - Dhcp/Parse: `dh_parseOptions` (Src/dh_packets.c). The buffer may be longer than the packet; a
--   pointer into it is an offset, `base` the address of its first byte, so that the comparison of
--   addresses is that of the code. The loop takes fuel, `size` rounds and one: Total shows that it is
--   enough. Safe says where the parser stays in the buffer, Reads and RoundTrip what it finds in a
--   well-formed packet, Prefix and Edges what it does with others.
-- - Ndp/Options: the constructors of Neighbour Discovery options (Src/ndp_options.c, Inc/ndp_options.h);
--   Format is the layout of RFC 4861 and RFC 4191.
-- - Ndp/Checksum: `ndp_checksumCalCore` and `ndp_checksum` (Src/ndp_packets.c). Laws compares them with
--   the sum of RFC 1071; the `int` sums stay below 2 ^ 17, so that they do not wrap.
-- - Ndp/Packets: `ndp_createRAPacket` (Src/ndp_packets.c, Inc/ndp_packets.h).
-- - Address: the macro `htobe_inet6` and the multicast addresses (Inc/global.h).
-- - Collection: `Utils_MixedList` (Src/collection.c), which nothing uses yet. A unit is told by its place
--   in the chain; Index is about the element that an index leads to.
-- - Daemon/Advertise: `sendRouterAdv` (Src/test.c), up to the message that `sendmsg` gets; Wire is that
--   message, Only says that there is no other.
-- - Daemon/Request: `requestAndReceiveDhcp` and `print_memory_hex` (Src/test.c). The results of `sendto`
--   and `recvfrom` are the parameter `Network`; Exchange is about the reply, Sent about the request, Delegated
--   about a request that is answered with a lease.
-- - Daemon/Listen: `ReceiveSrcAddrFromRouterSolicit` (Src/test.c), on the results of `recvfrom` in turn;
--   First holds it against the first solicitation, Heard tells whom it can answer, Safe when it stays in
--   its buffer.
-- - Daemon/Lease: a round of `Thread_requestDhcpPrefix` and one of `Thread_sendRouterAdv` (Src/test.c)
--   on the prefix that they share, in the order request, announcement; Rounds is about each, Announced
--   about both, Shared about what is read of the prefix.
-- - Interface: the queries of Src/utils.c on the state that they share, `utils_handler`, `utils_request`
--   and the descriptors that it and the rest of the process have open. Calls is about any calls, Closed about those after a failure, Query about
--   `utils_getHardwareAddressByName` after `utils_Init`, Sizes about the sizes of the arrays.
-- - Daemon/Threads: the loops of the three threads, the creation of the two that announce and the signal
--   handler `handle` (Src/test.c) as a step relation on the prefix, the mutex, the flags and the state of
--   Interface; a step is one access to these or one call of Src/utils.c. Invariant, Rounds and Preserved
--   are about all reachable states, Holders about the mutex; Assigned, Owner and Fit are about sizes and
--   the owner of the mutex, Ready and Release about the steps that can be made, Progress joins them;
--   Source is about the interface, Adverts about the messages; Static is about the threads without DHCP,
--   Leased about those with one lease, Exact about the messages that announce one prefix.
-- - Daemon/Setup: what the threads do before their loops (Src/test.c), with the results of the system
--   calls as arguments; Descriptors is about the descriptors that stay open.
-- - Daemon/Start: the command line of `main` (Src/test.c); `inet_pton` and `atoi` are the parameter
--   `Texts`; Arguments is about what it leads to.
-- - Daemon/Process: the process of Src/test.c as a state, and the accesses at which a thread of it can run
--   into a fault.
-- - Daemon/Program: the process of Src/test.c as a relation on Daemon/Threads together with where `main`
--   and each thread stand, the sockets that are open, and the buffer of the requests; the set-ups are
--   those of Daemon/Setup. Kinds tells which thread makes a step, Simulation holds the process against
--   Threads, Adverts is about what it sends, Stuck and Ending about `main`, Sending and Prepared about
--   runs that send, Stolen about one that closes a socket in use, Asked and Leased about the requests of
--   a run and what it sends when each brings the same lease, Faults and Killed about how it can crash.
-- - Daemon/Main: `main` from the command line to the state that the process starts in, by Start
--   and Interface; Reached is about all that the program comes to, Sends about its way to a message,
--   Robbed and Shut about its ways to a closed socket, Announces and Leased about what it announces with a static
--   prefix and with a leased one, Killed about its way to a crash.
--
-- A function of the source that fails with NULL or -1 returns that as a value (`none`, `minus_one`), not
-- as a fault. Names follow the source: `dh_createOption_IA_PD` is `create_option_ia_pd` of Dhcp/Options.
--
-- Not modelled: logging (Lib/log.c, a copy of rxi's library, whose calls only print), the kernel
-- behind the sockets (what it answers is an argument), and time: a thread that sleeps may go on at
-- any moment. Two calls of Src/utils.c at the same time, which the threads do not rule out, are taken
-- one after the other. The freeing of blocks leaves no trace, but for `utils_request`. A read of one field of the prefix
-- by `main` without the mutex is taken to be whole. An access outside of the memory or
-- to an argument that was not given, which C leaves undefined, is taken to end the process.
-- `pthread_mutex_lock(_prefixMutex)` and its unlock in `Thread_requestDhcpPrefix` (Src/test.c), which pass
-- the mutex by value and do not compile, are read as calls on `&_prefixMutex`, as the other threads have
-- them; a missing semicolon and missing sizes of `inet_ntop` there are read as if they stood.
pub mod Prelude
pub mod Memory
pub mod Dhcp
pub mod Ndp
pub mod Address
pub mod Collection
pub mod Interface
pub mod Daemon
