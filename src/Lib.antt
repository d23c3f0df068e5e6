-- ===== src/Lib.antt =====
-- A user-space TCP on DPDK: a receive loop on each core (src/tcp/tcp.c) takes packets from its
-- queue, finds the connection in the core's hash table, and calls the handler of the connection's
-- state (src/tcp/tcp_*.c); the handlers answer through `tcp_tx_packets` and `send_p`
-- (src/nic/nic.c). A command line (src/cli, src/config/conn.c) opens, closes and feeds connections
-- from another thread.
--
-- Which file models what:
--   Base        shared names; tests on numbers; lists; C's unsigned words; faults as outcomes
--   Seq         `wrapping_lt`, `is_between_wrapped` of src/tcp/tcp.c
--   Segment     `segment_check` of src/tcp/tcp.c
--   Flags       the TCP flag bits and C's operators on them
--   Connection  the structs of headers/tcp/tcp.h, field by field
--   Tcp         `struct tcp` and `struct nic`, what a core sends, and a core's view of memory
--   Dpdk        DPDK as a record of operations, and its documented behaviour as a record of laws
--   Tx          `send_p` of src/nic/nic.c and `tcp_tx_packets` of src/tcp/tcp.c
--   Handlers    src/tcp/tcp_listen.c, tcp_syn_recv.c, tcp_establish.c, tcp_last_ack.c,
--               tcp_syn_sent.c, tcp_fin_wait1.c, tcp_fin_wait2.c, tcp_close_wait.c
--   Rx          `tcp_rx_packets` of src/tcp/tcp.c, from the frame to the dispatch
--   Active      `active_connect`, `active_close`, `active_send_data` of src/tcp/tcp.c
--   Listing     `dump_connection` and `dump_hashtable` of src/tcp/tcp.c; Safety is about the latter
--   Invariant   what holds of a core's table and memory between two calls. Its children: Sessions,
--               Cases, Receive and Commands take the handlers and the calls one by one; Calls,
--               Moves and Reach a packet, what it changes, and sequences of them; Handshake and
--               Data the answers to single segments; Passive and Closing how a connection
--               starts and ends; FinWait how our FIN is acknowledged
--   Link        two hosts that run the program, and a wire between them, which is no code: it hands
--               over the last frame that a host has sent. Ends is what a host has of a connection,
--               Packets what it reads off a frame, Sending what it sends; Opening, Talking and
--               Closing are the segments of each phase; Handshake, Messages, Conversation and
--               Session the phases and the whole
--   Utility     src/utility/utility.c: Dotted is about `string_to_ip`, Colons about `string_to_mac`;
--               Dump is `DumpHex`, Rows and Whole its text row by row, Text how a row reads
--   Parser      src/cli/parser.c: the tokenizer; its children Numbers, Hex, Labels, Address (IPv4),
--               Address6, Ethernet and CpuCore are the readers, each with its theorems
--   Cli         `cli_process` and `cmd_help` of src/cli/cli.c; Flow is its loop over the cores
--   Conn        src/config/conn.c; Setup is `conn_init` and `conn_free`
--   Config      `parse_args` of src/config/config.c, and how it reads the configuration file
--   Port        `port_init` of src/config/config.c
--   Startup     `initialize_tcp` of src/tcp/tcp.c, and the rest of `config_init`
--   Main        src/main.c: the loop over the control connection, and the cores and the signal
--               handler beside it; Safety is about the whole program, Exit about the end of the loop
--   Tests       a platform to run on, runs, and the theorems at concrete inputs
--
-- Numbers are native, with the wrap-around of each C type written out; an `int` is the bit pattern
-- of its 32 bits. Fields in network order hold the big-endian value, and the conversions are
-- DPDK's. `send_p` gives each buffer back with `rte_mbuf_raw_free` (src/nic/nic.c:80) right behind
-- the burst, when the driver may have it: the model keeps that as an effect, the list `raw_freed`
-- of a core, and what the driver then does with the buffer is no fault of the model. Memory from
-- `rte_malloc` is a map from addresses to connections, so that a read through a dangling pointer
-- is a fault of its own; fresh memory holds arbitrary contents. A copy or a checksum beyond the
-- end of an object is a fault too. The hash table, the checksums, the buffers and the memory
-- allocator are parameters. The padding bytes of `struct quad`, which the table compares with the
-- rest, are a field of the quad and an input of each packet and each command; those of the
-- commands of one run of Main are the same. What other threads and the clock supply is input too.
-- A packet is called sane if its IPv4 length covers its headers, its data lie in the buffer, and
-- they are at most 100 bytes, as many as the checksum of an answer can read; what a longer SYN or
-- FIN does is an overrun in the model too.
--
-- The loops recur on their input: the list of bursts, the packets of a burst, the cores, the bytes
-- that were read, the events; the tokenizer and the readers on the number of tokens, labels or
-- groups that they have room for. The loop of `parse_cpu_core` takes fuel, as much as the text is
-- long, and each round takes a character off it.
--
-- A packet and a command are one step each: what two threads do to a connection in the middle of
-- such a step is not modelled. Each core has a memory of its own, which holds the connections of
-- its table. A C string is the list of its bytes, and `strtok_r`, `strtol` and `sscanf` are
-- definitions; the system calls of the control connection return what the input says, and what
-- they do is kept as a list.
--
-- On the wire of Link nothing is lost, doubled or overtaken, and each side has seen the last frame
-- of the other before it sends the next one. A buffer to send is taken to be free there, and the
-- padding bytes of the quad to be the same in every lookup of a host, by its command line and by
-- its receive loop, which the code does not see to.
--
-- Not modelled: console output but for the data of the peer, the listing of a table and the text
-- of the hex dump, which the receive loop prints of each frame; timers; the calls of the device
-- set-up whose results the code does not look at; what `main` does behind its loop; and the raw
-- layout of headers in a buffer, which are records here.
pub mod Base
pub mod Seq
pub mod Flags
pub mod Connection
pub mod Dpdk
pub mod Tcp
pub mod Tx
pub mod Segment
pub mod Handlers
pub mod Rx
pub mod Active
pub mod Invariant
mod Tests
pub mod Parser
pub mod Utility
pub mod Cli
pub mod Conn
pub mod Config
pub mod Port
pub mod Listing
pub mod Link
pub mod Startup
pub mod Main
