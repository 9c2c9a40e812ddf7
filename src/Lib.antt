-- ===== src/Lib.antt =====
-- UDPing measures one-way delay and loss between hosts with a stream of UDP packets. The client
-- (src/client.cc) keeps one session per source port and sends the sessions' packets in turn as raw
-- Ethernet frames; the server (src/server.cc) receives them on a UDP socket, keeps a session for
-- each guid, and reports a session's statistics when it has been silent for the keepalive time.
--
-- The parts, their files here and the code they model:
--
-- - Constants: include/constants.h. Packet: `packet` and `paddedPacket` of include/protocol.h, as
--   records and as the bytes of the struct. Checksum and Frame: `checksum`, `udp4_checksum2`,
--   `buildFrame` of src/protocol.cc, with `struct frame` of include/protocol.h.
-- - Stats: src/stats.cc. Session: `ServerSession` of src/serversession.cc; `record_seq` is
--   `recordSeq`, `target_count` what `writeStats` sets.
-- - Manager: `ServerSessionManager` of src/serversession.cc; `get_server_session`,
--   `sweep_server_sessions`, `receive_ping` and `handle_alarm` are the methods of these names, and
--   Manager/Socket has `readNextPacket`. The sessions lie on a heap by address, so that a read
--   through a pointer to a deleted session is a fault; addresses are not used again. Map is
--   std::map as a sorted association list. Manager/Reachable has the server's runs: datagrams and
--   alarms in any order; Manager/Swept says what a sweep does, and Manager/Expiry that it does it.
-- - Manager/Events: the server's runs as lists of events, an accepted packet or an alarm each, and
--   Manager/Serving: the loop of `main` in src/server.cc over datagrams and signals, with its
--   faults in Manager/Serving/Faults. Tracking, Awake, Recording and Stream follow one session
--   through a run; Closing and Reporting its report, Counters what the report holds; Beginning,
--   Measured and Measure put these together, from a session's first packet to its report.
-- - Manager/Ledger: an account of the events by guids, sources and times alone; Manager/Faultless
--   has the runs that it accepts, and ServerMain/Loop the whole server on them.
-- - Manager/Interrupt: `receivePing` statement by statement, the counting of the packet first, with
--   alarms in front of, between and behind them; the lookup of the session and the sweep are one
--   step each.
-- - Mac: `MacList` of src/maclist.cc, where an empty text is read past its end, with the conversions of sscanf that it uses in Mac/Scan.
-- - Client: `ClientSession` and `getNextSession` of src/clientsession.cc, `sendMessage` of
--   src/protocol.cc, and the rounds of `main` in src/client.cc as `send_round`. Ports: the source
--   ports that the constructor of `ClientSessionList` reads, and the sessions it makes.
-- - Program: how a run of the start of a program ends: with a result, with an exit status, or in
--   undefined behaviour. Options: `Options` of src/options.cc over the results of getopt.
--   IfInfo: `getIfInfo` of src/ifinfo.cc. Host: `getSockAddr` and `makeSocket` of src/protocol.cc,
--   and the change of the user in both `main` functions.
-- - ClientMain: `main` of src/client.cc up to its loop, with the constructor of
--   `ClientSessionList`; ClientMain/Loop has the loop with its pauses. ServerMain: `main` of
--   src/server.cc up to its loop; the reports of a manager go through `write_reports` to the writer.
-- - StatsWriter: the constructor of src/statswriter.cc; an address that it does not set holds what
--   the memory held. StatsWriter/Report: `writeStats` and the texts of the three kinds of report.
-- - Delay: src/delay.cc, the timer and the random pause, whose loop ends when the sleep is complete
--   or fails.
-- - Text: decimal printing and `atoi` of the C library.
-- - Base: the lemmas and operators that the parts share. Tests: concrete inputs.
--
-- The client's frames and the server meet in Client/Delivery: the payload of a frame is the receive
-- buffer of `readNextPacket`. Client/Arrivals has the server's loop over any frames of the client.
-- ClientMain/Frames joins the client's start to its loop, and ServerMain/Start and ServerMain/Loop
-- the server's start to the runs of its manager.
--
-- Conventions. The host is x86-64 Linux: little-endian, LP64, and `sizeof(packet)` is 56. Machine
-- integers are native numbers with their wrap-around written out; an `int` that only counts
-- (`Stats::count`, `intervalPacketsReceived`) is held as its 32 bits. A string is the list of its
-- bytes. Parameters of the model: the operations and the printing of `double`, the clocks, the
-- outputs of `rand`, the name service, what recvfrom leaves, the results of getopt, and the answers
-- of the system calls that the start makes (records Host and Net). A result type says what is
-- undefined in the code: `fault` in Manager, `none` in Client, `overrun` in Ports, `crashes` in
-- Program. Loops are structural recursion, or recursion on accessibility for decimal printing;
-- only the loop of the pause runs on fuel, and one more than the calls that may be interrupted is
-- enough.
--
-- Not modelled: sockets, signals and sleeping themselves, the messages on the console other than
-- the server's reports, and the seed of the random numbers. Outside Manager/Interrupt an
-- alarm is taken between two packets. The controller, the agent and the telemetry exporter are
-- deployment tools around the two programs.
mod Base
pub mod Constants
pub mod Packet
pub mod Checksum
pub mod Frame
pub mod Stats
pub mod Text
pub mod Map
pub mod Program
pub mod Options
pub mod IfInfo
pub mod Session
pub mod Manager
pub mod Mac
pub mod Client
pub mod Ports
pub mod Host
pub mod ClientMain
pub mod StatsWriter
pub mod ServerMain
pub mod Delay
mod Tests
