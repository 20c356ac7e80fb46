-- ===== src/Lib.antt =====
-- ocpp-cli: a command line client and a simulated charge point for OCPP 1.6 (JSON over WebSocket).
--
-- The program's parts. `main` passes the arguments to `Run` of internal/cli/app.go, which finds the
-- command. Most commands read the flags and the configuration (internal/config/config.go), make a
-- client (internal/ocppclient/client.go), connect, send one request (operations.go), render the
-- answer and close the connection; the error that a command returns becomes the exit code
-- (internal/cli/exit_codes.go). The command `run` instead keeps a charge point in memory
-- (internal/ocppclient/simulator*.go): connectors, configuration keys, reservations, a local
-- authorization list, charging profiles and the progress of uploads and updates. The central system
-- calls its handlers (`OnReserveNow` and the like), its `Run` sends the boot, the heartbeats and the
-- meter values, and handlers start goroutines that send messages and then change the state again. All
-- of it shares one state under one mutex, and reports through a channel of at most 256 events, which
-- the command `run` prints as a stream.
--
-- The files:
--   Prelude          names of the library, Go's `int` (Prelude/Int), maps as lists of entries in the
--                    order in which `range` visits them (Prelude/Maps), lists, Boolean tests
--   Ocpp             the enumerations of the OCPP library that the code names
--   Text             the functions of strings and strconv that the code calls
--   Config           internal/config/config.go; Config/Validate, Config/Load
--   Errors           internal/ocppclient/errors.go and internal/cli/exit_codes.go: errors by what they
--                    wrap and their text, results that may be an error
--   Client           internal/ocppclient/types.go (Client/Types), operations.go (Client/Operations),
--                    client.go (Client/Setup)
--   Cli              internal/cli: the host, the effects and the commands. Cli/Flags: flags.go,
--                    formats.go; Cli/Render: render.go and internal/output; Cli/Words, Cli/Connection:
--                    helpers.go; Cli/Station, Cli/Meter, Cli/Extended (with Security), Cli/Checks,
--                    Cli/Run: the commands_*.go files; Cli/Stream: stream.go; Cli/App: app.go,
--                    completions.go. What is proved of them: Cli/Lifecycle (over Cli/Traces),
--                    Cli/Safety, Cli/Rejections, Cli/Bounds, Cli/Config, Cli/Alias, Cli/Stream/Laws,
--                    Cli/Stream/Document
--   Station          the state of simulator.go and simulator_types.go as records;
--                    Station/Emit: `emit`, `notifyStatus`, `notifyStatusAsync`
--   Invariant        what holds between two steps, and the parts of handlers that keep it
--   Startup          `NewSimulator`
--   Reservations     `idleStatusLocked`, `reservationAccessLocked`,
--                    `selectRemoteStartConnectorLocked`; Reservations/Handlers: `OnReserveNow`,
--                    `OnCancelReservation`, `expireReservations`
--   Transactions     simulator_handlers.go: remote start and stop with their goroutines;
--                    Transactions/Reset: `OnReset`, `OnChangeAvailability`, `OnUnlockConnector`
--   Configuration    `OnChangeConfiguration`, `OnGetConfiguration`, `OnClearCache`, `OnDataTransfer`
--   LocalAuth        `OnGetLocalListVersion`, `OnSendLocalList`
--   Charging         the smart charging handlers
--   Firmware, Logs   the diagnostics, firmware, log and signed firmware handlers and goroutines
--   Certificates     `OnCertificateSigned`, `OnInstallCertificate`, `OnDeleteCertificate`,
--                    `OnGetInstalledCertificateIds`
--   Telemetry        `sendBootNotification`, `sendInitialStatuses`, `sendHeartbeat`,
--                    `sendMeterValues`, `sendTriggeredStatuses`, `sendTriggeredMeterValues`
--   Triggers         `OnTriggerMessage`, `OnExtendedTriggerMessage` and what they start
--   System           the whole simulator as a step relation; System/Control: `Run` and `close`, from
--                    the start of the connection to the closing of the channel of events
--   Examples         the theorems at concrete stations, requests, hosts and files
--
-- How the code becomes definitions. A handler is a function from the state to the state and the
-- reply; its locked part, its events and the goroutines that it starts are one step. `Option` stands
-- for code that may dereference a nil pointer: `none` is the panic. A goroutine is a value of `Task`,
-- cut where it waits for a timer, or for an answer of the central system after which it reads or
-- writes the state; a request is recorded with its answer, and so is the event that reports the two.
-- `System.Step` lets any waiting goroutine go on, with any answer, or end, between any two requests.
-- The requests of `Run` itself (boot, first statuses, heartbeat, samples) are one step each: their
-- loops read nothing of the state between two answers. Reading the clock, the connection and the
-- answers is an argument (`Env`, `Answer`); one step reads the clock once. `int` is ℤ; the meter's sum
-- and the heartbeat's interval wrap at 64 bits. Loops are recursion on the list, on the number of
-- rounds or on what a `select` receives, so no fuel is needed.
--
-- A command is the error that it returns and the list of its effects in order: a client is made, the
-- connection is tried, a request is sent, an output is written, the connection is closed, the context
-- cancelled. What a command takes from outside (the flag parser, the output and safety libraries,
-- files, the clock, JSON, the network and the central system's answers) is a field of `Host`, `Central`
-- or `Certificates`. The part of a command before it connects is its plan, an `Outcome`. An error is
-- the list of the sentinels that `errors.Is` finds in it, its text, and whether it is an OCPP or a
-- network error, which is all that `classify` and `mapExitCode` ask.
--
-- Not modelled: the libraries (OCPP, WebSocket, TLS, YAML, base64, URLs, durations, the flag parser
-- and the shared command, output and safety libraries), which are parameters where the code reads
-- their results; the wording of an error of the configuration; the periods of timers; the pointers
-- that a reply shares with the state; the help texts and the registry that describes the commands; the
-- starting configuration file's text; logging.
pub mod Prelude
pub mod Ocpp
pub mod Station
pub mod Text
pub mod Config
pub mod Reservations
pub mod Transactions
pub mod Invariant
pub mod Configuration
pub mod Startup
pub mod LocalAuth
pub mod Charging
pub mod Firmware
pub mod Logs
pub mod Telemetry
pub mod Triggers
pub mod Certificates
pub mod System
pub mod Errors
pub mod Client
pub mod Cli
pub mod Examples
