-- ===== src/Lib.antt =====
-- Verification library of proxifyre, an application-level proxy for Windows. The program takes
-- packets from a network driver, finds the process behind each, turns those of chosen processes
-- around to a local transparent proxy by rewriting ports and swapping addresses, and relays them to
-- a SOCKS5 server. The proxy asks the router which destination a connection or a flow had.
--
-- Which file models which part (paths of the repository):
--   src/router/mod.rs         Router/Mappings (UdpMappings, the peer index), Router/State
--                             (SocksLocalRouter), the two queries of add_socks5_proxy in Router/Flow;
--                             Router/Lifecycle (proxies, start, stop, filter table, notifications);
--                             Router/Selection (new, refresh_adapter_name, the callback)
--   src/router/flow.rs        Router/State and Router/Choice (get_proxy_port_*), Router/Flow
--                             (process_tcp_payload, process_udp_payload,
--                             cleanup_stale_udp_endpoints). `step` and `run` are the packets and the
--                             cleanup in the order of src/router/adapter.rs
--   src/router/packet.rs      Router/PacketInfo (the header fields that are used), Router/Packet
--                             (parse_packet_info, apply_rewrite and what they call, on bytes),
--                             Router/Wire (the interface of the wire module of smoltcp),
--                             Router/Flow/Rewritten (the fields after a rewrite, without the bytes);
--                             process_packet is in Router/Adapter
--   src/router/adapter.rs     Router/Adapter (a batch of packets), Router/Adapter/Loop
--                             (run_packet_loop), Router/Selection (select_best_adapter_name,
--                             find_adapter_handle)
--   src/router/filters.rs     Router/Filters
--   src/proxy/transparent_proxy.rs
--                             Proxy/Listener (new, start, stop), Proxy/Handler
--                             (handle_tcp_connection), Proxy/Queue (accept_udp_connections and
--                             udp_worker_loop), Proxy/Associations with
--                             Proxy/Readers (the map and the handles, each section under a lock a
--                             function), Proxy/Datagram (handle_udp_packet at its beginning and
--                             end), Proxy/Answer (what a reader does with a datagram of the
--                             relay), Proxy/Associations/Worker (worker and readers as a step
--                             relation in which they interleave), Proxy/Pool
--   src/proxy/socks5.rs       Proxy/Dialer, Proxy/Endpoint (parse_socks5_endpoint, Socks5Dialer::new),
--                             Proxy/Codec (datagrams and addresses), Proxy/Session
--                             (handshake, requests, replies) over Proxy/Stream (dialogues: what is
--                             written and read, on the bytes that the peer sends); Proxy/Stream/Conn
--                             has the interface of the stream that a dialogue runs on;
--                             Proxy/Protocol has the messages of RFC 1928 and RFC 1929 as bytes, apart
--                             from the code that writes and reads them
--   src/windows/process.rs    Process (the caches of sessions and of paths; Process/Owners describes
--                             the rows of the system's tables, apart from the code)
--   src/windows/stats.rs      Stats (the CPU sampler and the snapshot)
--   src/tui.rs                Tui (the traffic sampler, format_time), Tui/Screen (Tui::run), Tui/Bar (the
--                             lines and the status bar), Tui/Drawn (the status bar from draw to
--                             draw)
--   src/logging.rs            Logging (the lines that are kept and written), Logging/Start (init)
--   src/app.rs, src/config.rs App (the settings are handed to the router), App/Run (run)
-- Relay joins router, proxy and client for one TCP connection, Router/Adapter/Events joins the
-- packet loop and the router, Relay/Batches joins all four, and
-- Relay/Datagrams does so for a UDP datagram; Relay/Replies and Relay/Answers are the way back.
-- Prelude, HashMap and Net hold what these share: lists, bytes and text, results, std's HashMap as an association list, std's addresses.
-- Tests runs the model on concrete inputs; Tests/Wire is a small wire format that keeps the laws of
-- Router/Wire.
--
-- Numbers are natural numbers. Ports, bytes and identifiers keep the ranges that their types give
-- them where a statement needs it (`IsAddr`); the counters of bytes wrap around at 2 ^ 64. Times are
-- milliseconds since some start, where a file does not say otherwise, and a
-- difference stops at 0 as in `duration_since`. The loops of the source are recursion on a list (of
-- packets, of rounds or of events), and
-- on fuel in `reap_loop`, where the number of handles is proved to be enough, and in `decimal`, where it
-- is above the number of digits.
--
-- Parameters: in the router, the look-up of the process behind a packet (which may answer differently
-- from one time to another; its caches are in Process), the readers and setters of packet headers,
-- what the driver reads and lists; name resolution, the parser of IP addresses and lossy text, the
-- stream, binding of sockets, the driver's filter table, and the tables and notifications of the
-- operating system. A mutex is a section that runs as one step; what another task does between two
-- sections is a step of its own. The flags that the packet loop shares with other tasks are what it
-- sees of them in each round.
--
-- In Tui/Bar floating-point numbers are a parameter, and in Stats and Tui quotients are left as their
-- parts. App/Run has what the packet loop and the notifications do while the program waits as a list
-- of activities.
--
-- Not modelled: the widgets, borders and colours of the terminal interface, the
-- parser of the settings, the scheduling of threads, the calls of the driver and of the operating
-- system themselves, and the text of messages.
pub mod Prelude
pub mod App
pub mod HashMap
pub mod Logging
pub mod Net
pub mod Process
pub mod Proxy
pub mod Relay
pub mod Router
pub mod Stats
pub mod Tests
pub mod Tui
