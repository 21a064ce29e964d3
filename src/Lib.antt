-- ===== src/Lib.antt =====
-- GoodLink joins two computers over a tunnel through NAT: one side forwards local TCP and UDP
-- ports, the other side serves them. The tunnel is a QUIC or KCP connection with many streams;
-- a STUN server tells each side the address under which the network sees it.
--
-- The parts, and the files that model them:
--   * Base, Wire, Net, Dict: what all share. Base has the outcome of Go code (a value, an error, a
--     panic, or fuel that ran out) and the slices; Wire has io.ReadFull and the big-endian numbers;
--     Net has addresses; Dict has Go's maps, as lists of entries.
--   * Proxy/Frame: proxy/proxy_io.go. The tunnel is a stream of bytes, so each UDP datagram goes
--     in a frame of two bytes of length and the payload: `write_frame`, `read_frame`, and the two
--     loops of `RelayUDPIdle` as `tunnel_to_udp` and `udp_to_tunnel`. The idle timer and the
--     writers are parameters.
--   * Proxy/Header: `handleConn` of proxy/proxy_l.go and `process_stream` of proxy/proxy_r.go, with
--     the calls on streams and sockets as a list of events.
--   * Proxy/Sessions: the table of sessions of `ForwardUDPClient` in proxy/proxy_l.go: `admit`,
--     `store`, `drop_session`, `close_all_sessions`, `sweep`. Proxy/Sessions/Threads has the steps
--     of the goroutines: each section under the mutex is one step, and so is each close.
--   * Proxy/Serve: the loops `Serve` of both listeners in proxy/proxy_l.go, on what `Accept` and
--     `ReadFrom` return in turn.
--   * Proxy/Manager: `ForwardManager` of proxy/forward_mgr.go: `apply` with its three loops,
--     `set_quic`, `stop_builtin_proxy` and `close_manager`; Proxy/Manager/Builtin has
--     `start_builtin_proxy`. Whether a new listener can be opened, and its address, are parameters.
--   * Stun/Message, Stun/Server: stun2/svr.go, the messages, and the handler with its table of
--     transactions. Stun/Client: stun2/cli.go, the reading of a response.
--     Stun/Exchange joins the two sides.
--   * Config/Version: `VersionsCompatible` of config/version.go. Config/Args:
--     `ParseSelfUpdateArgs` of config/args.go, and what ui2/upgrade.go passes to it.
--     Config/Launch: `ParseUILaunchArgs` of config/args.go.
--   * Config/Services: config/uiconfig.go. Config/Services/Check has `NormalizeAndValidate`
--     as `normalize_and_validate`, on the list of services; Config/Services has the
--     allocation of addresses, which `fill_tun_ip` of Config/Services/Check calls. Texts are
--     lists of runes (Config/Text). `unicode.ToLower` is modelled on the runes whose lower
--     case is an ASCII letter; the texts that are lowered are only compared with ASCII words.
--   * Peer: pro/comm.go, pro/local.go, pro/remote.go, how two ends agree on a session. Peer/Local and
--     Peer/Remote have the handlers and the switches of both loops; Peer/Steps has the session as
--     steps, where each read and each write of the store is a step; Peer/Stage has the protocol
--     that the steps refine. Peer/Store has the functions on the store; Peer/Probe has
--     `GetUDPAddr`; Peer/Attempts has `RunLocal`. A tunnel is known by its direction, its session
--     and its transport.
--   * Panel: ui2/start.go, the child process of one service: `start_cmd`, `stop_service` and
--     `wait_exit` are the sections under the lock of `startCmdProcess`, `stopServiceProcess` and
--     `waitForProcessAndHandleExit`; Panel/Steps has the steps of the goroutines, with the start of
--     the child before the section and `StopCmdProcess`. Panel/Start has
--     `HandleStart` up to the start of the child, on the services of Panel/Services. Panel/Edits has
--     the other handlers of the configuration: `HandleForwards`, `HandleSetAutoStart`,
--     `HandleUpdateConfig`, `HandleRename`, `HandleCreateService` and `HandleDeleteService`.
--     Panel/Messages has the lines that the child prints (pro/log.go), what the interface makes of
--     them, and `HandleStop`. Panel/Import has `HandleImportConfig` of ui2/ui.go, and Panel/Overview
--     `aggregateStatus` of ui2/state.go. Panel/Views has what the browser is shown of a service.
--   * Upgrade: ui2/upgrade.go, the updater. Upgrade has the files and the requests of the operating
--     system; each request works, is refused or, where it writes, breaks off, as a parameter says.
--     Upgrade/Replace has `replaceFile`; Upgrade/Archive the entries of the zip and their sums;
--     Upgrade/Install `extractTo` and `applyZip`; Upgrade/Restart `RunSelfUpdate` and
--     `restoreAndRestart`. That a file is there is asked by `os.Stat`, which is taken to answer.
--     Upgrade/Download has `runDownload` in pieces and the handlers of it; Upgrade/Loads their
--     steps; `handle_upgrade_apply` takes what its first read has found, and the state at its
--     second one. Upgrade/Releases has the choice of a release and the times of the checks, ui2/footer.go.
--   * Web: `authorize` of ui2/server.go and `appendRing` of ui2/log.go.
--
-- Fuel: the scan of attributes and the loop from the tunnel take fuel; one round more than there
-- are bytes is enough for both, which is shown below. The search for a free name has one round
-- more than there are names, which is enough, as shown below. `RunLocal` runs on the rounds that it
-- meets. Time is in nanoseconds, and a clock that goes backwards gives an age of zero. Numbers of a
-- fixed width keep their wrap-around, but for the 64-bit generations of Panel and the 64-bit count
-- of the bytes of a download.
--
-- Not modelled: the sockets, the timers and the transports (QUIC, KCP and gVisor are third-party),
-- the routes and the event streams of the web interface, the TUN devices, UPnP, winipcfg (a copy of
-- another project), and so far the reading and writing of the configuration file. Sealing and
-- digests of the session messages are parameters, and so are the zip and the hash library.
pub mod Base
pub mod Config
pub mod Dict
pub mod Net
pub mod Panel
pub mod Peer
pub mod Proxy
pub mod Stun
pub mod Upgrade
pub mod Web
pub mod Wire
