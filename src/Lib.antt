-- ===== src/Lib.antt =====
-- zcmesh: telemetry frames from an edge node, over TCP or a UDP mesh, to a receiver. This library models
-- the C++ engine of the repository (core-engine/, shared/).
--
-- The parts and how they interact. An edge (core-engine/src/main.cpp) packs samples into 24-byte frames
-- (core-engine/src/frame.cpp), collects them in a batch (core-engine/src/batch.cpp), and flushes the
-- batch to the operator over TCP, or frame by frame over UDP through the mesh router
-- (core-engine/src/router.cpp), whose skip masks a control datagram sets (core-engine/src/ctl.cpp). A
-- relay (core-engine/src/hop.cpp) checks, stamps and forwards frames; a receiver
-- (core-engine/src/capture.cpp) finds frames in a TCP stream or in datagrams and writes them to a file
-- (shared/zcm_file.h), which core-engine/src/inspect.cpp checks with the statistics of
-- core-engine/include/zcm_analyze.hpp and core-engine/src/replay.cpp sends again.
--
-- Files:
--   Base            shared names, Boolean tests, lists over native numbers, machine words
--   Bits            digits, exclusive or and masks of native numbers
--   Wire            shared/wire_frame.h and frame.cpp: Frame (struct, `frame_bytes`, `of_bytes`), Crc
--                   (`crc32` and its table), Pack (`pack_frame_into`, `verify_frame`,
--                   `apply_hop_stamp`, `nibble_pack_i32`)
--   Net             core-engine/src/net.cpp: Api (the sockets as their users see them, with the laws
--                   `IsTcp`), Client and Udp (`TcpClient` and `UdpSocket` over the system calls),
--                   Endpoints (`parse_endpoint`), Host (what a program that opens its own sockets
--                   has of the system; Host.Ledger keeps the descriptors that it holds)
--   Options         the loop over `argv` that hop.cpp, capture.cpp, inspect.cpp and replay.cpp share
--   Arena           core-engine/src/arena.cpp: `allocate` on addresses
--   Batch           batch.cpp: `FrameBatch` and its operations; `flush_loop` is the loop of `flush_tcp`
--   Router          router.cpp: `RouteEntry`, `MeshRouter`; `forward_route` is `forward_udp` after `find`;
--                   Router.Deliver is `deliver`, Deliver.Handed follows its bytes
--   Control         shared/mesh_control.h, `poll_control` of main.cpp and the message of ctl.cpp;
--                   Command is `main` of ctl.cpp
--   Edge            main.cpp: `ReconnectGate`, the flushes, `flush_batch` (`flush_over_tcp`,
--                   `flush_auto` and `fail_over` are its branches); Loop is its main loop: `run` is the
--                   whole loop, `iterate` one turn of it, Loop.Owed and Loop.Delivery follow the bytes
--                   over a run, Loop.ToCapture puts a receiver behind it;
--                   Loop.Sampled and Loop.Carried say which reading a frame carries;
--                   Arguments are the options of main.cpp, Start its routes at the start, Launch
--                   the set-up of `main` and the whole of it (`edge_main`), Samples what it reads of
--                   a file or the standard input
--   Capture         capture.cpp: `find_magic`, `decode_tcp_stream`, the client session, datagrams;
--                   Capture.Resync describes the decoding by rules; Capture.Select is the rest of
--                   `main`, with the file before and after the loop; Capture.Arguments are its
--                   options, Capture.Start its sockets and the whole of it (`capture_main`)
--   Zcm             shared/zcm_file.h, `rewrite_header`, and `fwrite`, `fread` and `fseek` on a file that
--                   has room for a number of bytes
--   Inspect         inspect.cpp: the loop over the frames (`read_frames`), the checks (`check_report`);
--                   Arguments are its options with `parse_raws`, and the whole (`inspect_main`)
--   Hop             hop.cpp: a turn of its loop (`relay`); Arguments are its options, Start its sockets
--                   (`start_hop`) and the loop behind them (`serve`)
--   Analyze         zcm_analyze.hpp: `observe`, its gap statistics and totals
--   Replay          replay.cpp: `delta_ns`, `load`, and the loop over a file's frames
--                   (`replay_all`); Arguments are its options, Start the pauses between two
--                   frames and the whole (`replay_main`)
--   Bench           bench.cpp without its clock, and `pack_frame` of frame.cpp
--   Tests           test data and each theorem at a concrete input; Programs has the command lines
--
-- How the code is read. An unsigned field holds its bit pattern as a native number, also `raw_value`; a
-- counter wraps as written (`inc64`, `add64`). Memory on the heap is a list with the struct's own
-- bounds; a pointer into the route table is an index. Sockets, the clock, the file and the system calls
-- are parameters over a state `W` of the world, passed on explicitly; `recorded`, `logged`, `taped`,
-- `watched`, `taped_file`, `taped_host`, `recorded_host` and `ledger` are the same parameters with
-- what they are given, or what is held, recorded; `linked` adds how many connections there were and
-- the bytes of the last one, since a receiver drops its stream with each new client. What is relied on of them are the laws `IsTcp` and
-- `IsSystem`. An option that the code turns into a double is kept as its text, and what is compared
-- with it is a parameter. A number that atoi or atoll reads is kept as it is written, also where it does
-- not fit its type, for which C leaves the result open.
--
-- Fuel. `flush_loop` has one unit more than the bytes of the batch, and each round sends a byte or
-- ends. `decode_loop` has the stream's length, and each turn moves the position.
-- `deliver_loop` has one unit more than its bytes. `raws_loop` and `stdin_loop` have the length of
-- their text, of which each turn reads at least a character. `send_frame` of a replay waits as long as
-- the socket would block, so its fuel is a parameter. All other loops recurse on what they walk over, or
-- on the attempts left.
--
-- Not modelled: the pacing of the edge, printing and the statistics lines of the programs; the value of
-- what is read as a double; select, and when the receiver's seconds are over; the memory of the arena, since a
-- slab is an address; the buffer of the C library, so a write fails where the disk is full and not later
-- in fseek, and what a receiver leaves on a full disk is not said; a send of 2^31 bytes or more, whose
-- length send_nb casts to an int; the C++ tests; the Java operator node and the
-- scripts.
pub mod Base
pub mod Bits
pub mod Wire
pub mod Net
pub mod Options
pub mod Batch
pub mod Router
pub mod Control
pub mod Edge
pub mod Capture
pub mod Analyze
pub mod Hop
pub mod Replay
pub mod Zcm
pub mod Arena
pub mod Inspect
pub mod Bench
pub mod Tests
