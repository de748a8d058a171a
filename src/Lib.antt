-- ===== src/Lib.antt =====
-- WireGuide Plus, a multi-tunnel WireGuard client: a model of its automation core, with proofs.
--
-- The program runs a privileged helper (internal/helper) that brings tunnels up and down by rules on
-- the network (internal/wifi). Each tunnel has an ordered list of rules and a Default State; the
-- helper samples the network, evaluates the rules of every tunnel, passes the wanted state through
-- gates (exemption, address-conflict pause, unknown SSID, manual latches, policy blocks, back-off)
-- and connects or disconnects. The reconnect monitor and the preview ask the same decision layer.
--
--   Common         booleans, lists, Go strings as code points, strconv.Atoi, maps, sorting
--   Wifi.Model     Automation, Rule, Condition, NetworkContext of internal/wifi/automation.go
--   Wifi.Clock     parseClock, validateTimeWindow, timeMatches
--   Wifi.Mac       canonicalMAC
--   Wifi.Conditions  Condition.Validate, Rule.Validate, conditionMatches, Rule.matches
--   Wifi.Evaluate  Evaluate, EvaluatePolicy, EvaluateDetail, EvaluatePolicyDetail, conditionValue
--   Wifi.Normalize Normalize, PolicyTunnelNames, TunnelNames
--   Helper.Decision  internal/helper/decision.go, with reconcileAction and ssidBlind
--   Helper.State   the helper's maps: back-off, address-conflict pause, EvaluateTunnelDecision
--   Helper.Mailbox  requestAutomationEval and coalesceEvalLoop of internal/helper/automation_eval.go,
--     as a relation between states, one event at a time
--   Helper.Engine  reevaluateAutomation, automationConnect, disconnectAutoManaged
--   Config.Model   WireGuardConfig, InterfaceConfig, PeerConfig of internal/domain/config.go
--   Config.Parser  Parse of internal/config/parser.go
--   Config.Printer  Serialize of internal/config/parser.go
--   Config.Validator  Validate of internal/config/validator.go
--   Policy.Prefix  Classify, Contains, rangesIntersect of internal/policy/prefix.go
--   Policy.Report  ParsePrefixes, AnalyzeRoutes, rank
--   Policy.Protection  AnalyzeProtection of internal/policy/protection.go
--   Policy.Dns     AnalyzeDNS of internal/policy/dns.go
--   Policy.Analysis  Analyze, Empty, ForTunnel, Severity, Blocking of internal/policy/policy.go
--   Reconnect.Backoff  reconnectWithBackoff of internal/reconnect/monitor.go, round by round
--   Reconnect.Slots  triggerReconnectTunnel, CancelRetry, CancelRetryFor, GetState; a trigger is its
--     locked part and, as steps of their own, its cancels of old retries
--   Reconnect.Health  the tick of monitorLoop, healIfNeeded
--   Ipc.Frame      WriteFrame, ReadFrame, ReadFrameRaw of internal/ipc/framing.go
--   Endpoint.Pick  Normalize, Measure, Best, Better of internal/endpoint/pick.go
--   Endpoint.Switch  maybeSwitchEndpoint of internal/helper/endpoint_switch.go, one tunnel of
--     evaluateDynamicSwitches of internal/helper/endpoint_dynamic.go, and the accessors that they
--     read of internal/storage/settings.go and internal/storage/tunnels.go
--   Config.Accessors  HasScripts, Scripts, IsFullTunnel, Endpoints of internal/domain/config.go
--   Tunnel.Trace, Tunnel.Phases  connectPhases and disconnectPhases of
--     internal/tunnel/connect_phases.go, as the calls that they make
--   Tunnel.Manager  the locked parts of ConnectWithContext and DisconnectTunnel of
--     internal/tunnel/manager.go; Tunnel.Manager.Threads has their interleavings
--   Storage.History  the session log of internal/storage/history.go
--   Update.Version  isNewerVersion of internal/update/checker.go
--   Update.Checksums, Update.Download  parseExpectedHash, downloadUpdate and what it calls
--   Update.Scheduler  internal/update/scheduler.go and the state of internal/update/state.go
--   Update.Persistence  save and load of internal/update/state.go, which may fail, and the runs of
--     the program over them
-- The other modules below Tunnel, Storage, Update, Wifi, Helper, Policy, Config, Reconnect, Ipc and Endpoint hold proofs, and
-- Tests the tests.
--
-- Go maps are association lists. A string type with named constants is a data type with one more
-- constructor for any other string. A nil error is `none`. Loops are recursions on the list that
-- they range over, so no fuel is used. Sorting is insertion sort: for a total order the result does
-- not depend on the algorithm, and where the key of a conflict list leaves ties, the statements do
-- not depend on their order. The record Wifi.Model.Platform holds what the Go standard library
-- answers (net.ParseCIDR, net.ParseIP, strings.EqualFold) and the clock, and Policy.Report.Netip
-- how netip reads and prints prefixes; Policy.Dns takes strings.ToLower as an argument,
-- and Config.Parser unicode.ToLower outside ASCII; Config.Validator.NetLib holds net and base64; every
-- statement is for any such record. Helper.State.Reads holds what the engine reads from other
-- components (the sidecar flag, policyBlockFor, the DNS path check), and Helper.Engine.World how an
-- attempt to connect or disconnect ends. Reconnect.Backoff.Round is what one round of the reconnect
-- loop meets outside, for any sequence of rounds. Endpoint.Pick.Float stands for float64, and a
-- theorem on the choice supposes that no latency is NaN; encoding/json is a pair of functions, of
-- which Ipc.Stream.IsJson says that they read back what they write.
--
-- Tunnel.Phases.World says how each call of a connect ends, those included that only log an error, and
-- when its context is cancelled, for any such record. Tunnel.Release.Held counts what a call opens
-- from the call on, also if it failed halfway, until a call that releases it succeeds. Durations of
-- the endpoint switch wrap around in 64 bits as in the source; a negative one stands as 0. Update.Download.Services is the network, SHA-256, Ed25519 and the URL checks. The
-- scheduler's random numbers are a function of which only its range is supposed.
--
-- Not modelled: the JSON format, files, sockets, logs and broadcasts, locks (the engine runs its
-- evaluations one at a time), the platform back ends, the texts of
-- messages, the user interface and the release tools.
pub mod Common
pub mod Wifi
pub mod Config
pub mod Endpoint
pub mod Helper
pub mod Ipc
pub mod Policy
pub mod Reconnect
pub mod Storage
pub mod Tunnel
pub mod Update
pub mod Tests
