-- ===== src/Lib.antt =====
-- l2tvpp is a VPP plugin that terminates L2TPv2 data sessions, with an XDP program that spreads the
-- packets of a LAC over CPUs. This library models the packet paths and the tunnel and session tables
-- of the C code, and states what they promise.
--
-- Objects and Header: plugin/l2tvpp/l2tvpp.h. The records of tunnels and sessions, l2tvpp_parse_hdr,
-- l2tvpp_session_key and l2tvpp_handoff_worker, which every node shares.
-- Vpp: what the plugin calls of VPP to keep its state (pools, the 8-8 bihash, addresses) as records
-- with the documented behaviour as laws.
-- Registry: plugin/l2tvpp/l2tvpp.c. l2tvpp_tunnel_add_del and l2tvpp_session_add_del as functions from
-- a state and arguments to an API error or a state with the calls into vnet. Registry/Ghost is a list
-- of sessions, and Registry/Represents says when pool, key table, interface vector and tunnel counts
-- stand for it.
-- Input: plugin/l2tvpp/node.c. input_packet is one round of the loop of l2tvpp_input_node, from the
-- bytes of a buffer to the next node, the counter and the change of the buffer; Input/Node is the
-- loop with its batched counters.
-- Handoff: plugin/l2tvpp/handoff.c, the thread of each packet by its session.
-- Flow: plugin/l2tvpp/flow_handoff.c. classify is l2tvpp_flow_classify; Flow/Node is the choice of a
-- worker and the loop of the node; Flow/Enable is l2tvpp_flow_handoff_enable_disable. crc32c and the
-- helpers on IPv4 headers are parameters.
-- Encap: plugin/l2tvpp/l2tvpp.c and encap_fastpath.c. l2tvpp_route_add_del with the cache of
-- adjacencies and the locks that it takes, and l2tvpp-encap-fastpath, which reads the cache.
-- Settings: plugin/l2tvpp/l2tvpp.c. l2tvpp_set_handoff, l2tvpp_handoff_queue_nelts and
-- l2tvpp_handoff_default.
-- Rewrite: plugin/l2tvpp/l2tvpp.c. l2tvpp_build_rewrite_i, l2tvpp_fixup on the bytes of a packet and
-- l2tvpp_update_adj with its calls into the adjacency module; VPP's checksums are a record of laws.
-- System: the states that tunnel calls, session calls and adjacency updates reach from the empty one,
-- as a step relation, and the tables that the nodes read in them.
-- Steer: xdp/l2tp_steer.bpf.c, the whole program, with its maps as functions.
-- Loader: xdp/l2tp_steer.c. Loader/Run is main from the options to the exit code, with libc, libbpf and
-- the kernel as records of answers; Loader/Steering runs the XDP program on the maps that it leaves.
-- Api and Cli: plugin/l2tvpp/l2tvpp_api.c, l2tvpp_cli.c and the commands of the other files. A message
-- has numbers in network order, with VPP's conversions as a record of laws; a line of the CLI is the
-- list of options that unformat finds in it. Cli/Commands runs both on the states of System.
-- Sync: syncd/l2tvppd.py, the class Syncd of the session daemon, over the plugin as an interface and the
-- host's addresses, prefixes and sets as a record of laws. Sync/Dictionary is a dict of Python.
-- Sync/Laws is what a pass relies on in the plugin, and Sync/OverRegistry fills it with Registry;
-- Sync/Endpoints merges the sessions with the tunnels of the kernel.
-- Examples: the theorems at concrete inputs.
--
-- The nodes meet in the buffer: l2tvpp-flow-handoff and udp-local leave it at the L2TP header, and
-- l2tvpp-handoff and l2tvpp-input parse that header again. Input reads the tables that Registry writes.
--
-- Where docs/design.md and plugin/l2tvpp/l2tvpp.api say otherwise than the code, on data packets with
-- the S or O bit and on the flags acfc and pfc of a session, the models follow the code.
--
-- Bytes in memory are a list of numbers, and a read outside it is none: a theorem that the code
-- returns says that every read is inside. Offsets are numbers that do not wrap; numbers that the code
-- lets wrap keep a remainder. Every loop is structural on the frame, on a list, or on the room left in
-- one, so that there is no fuel.
--
-- Not modelled: prefetches and trace records; what unformat and the generated message code do with
-- text and bytes; the show commands and the counters that the loader prints; the parsers, the state
-- file and the loop of the Python daemon.
mod Common
pub mod Objects
pub mod Vpp
pub mod Registry
pub mod Header
pub mod Input
pub mod Handoff
pub mod Steer
pub mod Flow
pub mod Encap
pub mod Settings
pub mod Rewrite
pub mod System
pub mod Loader
pub mod Api
pub mod Cli
pub mod Sync
mod Examples
