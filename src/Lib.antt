-- ===== src/Lib.antt =====
-- The time synchronisation of ESP32 boards: a server broadcasts packets with its time, each board's
-- radio stamps them and the beacons of its access point, and the client turns these observations into
-- a server time for any local time.
--
--   Packet      crates/clock-sync/src/lib.rs, SyncPacket: its bytes, parsing and the search in a frame.
--   Isqrt       the same file, isqrt_u128: Newton's loop by recursion on accessibility, with no fuel.
--   Window      the same file: the array, head and count that Estimator and LinearTracker share,
--               against the list of the samples, oldest first.
--   Estimator   the same file, Estimator: the window, refit with its loops, and the queries.
--   AlphaBeta   the same file, AlphaBetaFilter.
--   Tracker     the same file, LinearTracker.
--   Client      crates/clock-sync-client/src/lib.rs: the statics as one record, rx_cb, one round of
--               each task (Client/Tasks), the conversions and the queries of the handle; install is in
--               Client/Install. Client/Session and Client/Agreement put boards, packets, beacons and an
--               event together.
--   Server      crates/clock-sync-server/src/main.rs: the datagrams of the loop of main, when they leave
--               (Timing), and bind_to_device with what comes before the loop (Setup).
--   Capture     crates/clock-sync-test/src/mcpwm_cap.rs: the capture timer's statics as one record, its
--               polls, calibration and conversions; Capture/System has the loop of the software capture
--               as steps of any number of contexts.
--   TestRig     crates/clock-sync-test/src/main.rs: the pulse schedule, the lines of both tasks, and
--               the parsing of a BSSID. TestRig/Verdict puts two boards and the skew meter together.
--   Firmware    crates/clock-sync-firmware/src/main.rs: read_line on what its reads return, and the
--               lines of the heartbeat; Firmware/Connection has the rounds of connection, and
--               Firmware/Boot the prompt of main with the address of the server.
--   SkewMeter   crates/skew-meter/src/main.rs: the loop of main on its events, DirStats (Stats),
--               parse_line (Parse), the printed lines (Report), the readers of the ports
--               (Reader), and main with its clock, its channel and its prints (Loop).
--   Text        the string functions of Rust's library that these programs use, on code points.
--   Prelude     shared names, tests, lists, signed integers and machine words.
--
-- A method that changes its object returns the new state. A number is native; an i128 or i64 is a ℤ
-- in its range. Checked arithmetic, divisions and indices go through Exec, whose panic stands for what
-- Rust does with overflow checks; a theorem without panic holds for builds without the checks too.
-- Wrapping and saturating operations and casts are written out. The client's callback runs the packet
-- search of Packet, feeds two filters and the channel; the consumer feeds the two estimators. The test
-- rig asks the client for the time of an edge that Capture has found and prints a line for it, which
-- the skew meter parses and matches with the edges of the other board.
--
-- Not modelled: the radio driver, clocks and sockets, whose readings are arguments; logging, the
-- start of the boards' hardware and network, the console, the capture timer's registers, which the
-- hardware latches, and the command line. The client's channel is code of embassy_sync: its
-- try_send is a parameter with its documentation as the hypothesis IsTrySend, and receive takes the
-- oldest of the events that wait. The square root of an f64 is a parameter of the statistics, and the
-- index of the percentile is the quotient of whole numbers. A read of several statics in one query is
-- one step.
-- Samples in range are server times below 2^72 ns and local times below 2^62 µs, within which no
-- intermediate result leaves its type. A frame's timestamp is taken for the 32 low bits of the TSF
-- that the callback reads, as the code does; a comment in rx_cb says that on the ESP32 the two are
-- different clocks, and the theorems say nothing of how far the time so found is from the reception.
-- The filters of the client are ready for some thousand beacons from a new one, whatever these say.
pub mod Prelude
pub mod Packet
pub mod Text
pub mod Isqrt
pub mod Window
pub mod Estimator
pub mod AlphaBeta
pub mod Tracker
pub mod Capture
pub mod Client
pub mod SkewMeter
pub mod TestRig
pub mod Firmware
pub mod Server
