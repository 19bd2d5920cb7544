-- ===== src/Lib.antt =====
-- sparstrowgen: one chat window for the coding agents on a person's computers. The server
-- (server/cmd/server) keeps browsers and computers connected and passes messages between them; the
-- daemon (server/cmd/daemon) runs the agents' turns on a computer and keeps itself updated. This
-- library models the parts of both that decide something, and proves what makes them correct.
--
-- The parts, and the files that model them:
--
-- Hub (server/internal/hub: hub.go, updates.go, machines_in_workspace.go, files.go). `Hub/State`
-- has the struct Hub as a record, its maps as association lists whose order stands for the order
-- of a `range`, and `Sys`, the hub with a log of the payloads written and the sockets closed. Each
-- method is a function of the same name on `Sys`, atomic as far as other calls are concerned:
-- `Hub/Browsers` has AddClient, RemoveClient, DisconnectUser, DisconnectSession and BroadcastTo;
-- `Hub/Routing` what is read, from DaemonOnline and Providers to Target; `Hub/Machines` the calls
-- that change what is known of a machine and those that send one something; `Hub/Requests` Ask,
-- AskMachine, AskIn and Deliver, a request being two steps, before its `select` and from there on.
-- `Hub/Steps` is every sequence of calls. `Hub/Isolation`, `Hub/Revocation`, `Hub/Replies`,
-- `Hub/Supersede`, `Hub/Routes`, `Hub/Steps/*` and `Hub/Targets` hold the proofs. The record
-- `World` stands for what is not the hub's: JSON encoding, whether a write succeeds,
-- strconv.FormatUint, and protocol.MinDaemonProtocol; every theorem is about all of them.
--
-- Protocol (server/internal/protocol): the messages, as far as the hub and the updater read them.
--
-- Auth (server/internal/auth/throttle.go): `Auth/Throttle` has Begin, Wait, Failed, Succeeded and
-- their helpers, with the clock as an argument, in nanoseconds; the proofs are about delays,
-- sweeping and admission.
--
-- Daemon (server/cmd/daemon): `Daemon/Turns` is turns.go, with a context.CancelFunc as a number;
-- `Daemon/Updater` is the part of update.go that decides when to install. The goroutine `activate`
-- has a phase for each place where other goroutines can come in between; an event is a step of it,
-- a turn's beginning or end, a stop, a setting, or what follows a check. What a check found is
-- given with the event; `Daemon/Check` is the check itself, `Daemon/Download` its fetch and its
-- download, over what the HTTP client answers (`Daemon/Web`), the file system's answers and
-- SHA-256 as the parameter `Outside`.
--
-- Release (server/internal/release/release.go): versions and manifests. JSON, net/url and
-- strings.EqualFold are the parameters `Codecs`; `Text` has the functions of Go's strings and
-- strconv that the code calls, on lists of code points.
--
-- Agent (server/internal/agent/fed.go): `Agent/Protobuf` is the reader of protobuf's wire format,
-- on lists of bytes, with a panic as a result of its own. `Agent/Fed` has the pieces of what an
-- agent was fed, in the struct fed with its list, its index and its marks; `Agent/Fed/Texts` their
-- names, `Agent/Fed/Documents`, `Agent/Fed/Codex` and `Agent/Fed/Agy` the readers of the three
-- agents' documents, and `Agent/Fed/Context` FedContext. The readers reach the pieces through the
-- interface `Ops`, which `fed_ops` fills with the code's operations and `list_ops` with those of a
-- plain list; the proofs compare the two. JSON, regular expressions, base64 and the conversion of
-- bytes to text are the parameter `Decoder`.
--
-- Store (server/internal/store/title.go): `Store/Title` names a conversation, on lists of code
-- points; unicode.IsLetter and IsDigit are one argument.
--
-- Agent (server/internal/agent/report.go): `Agent/Report` is the reading of a record's lines, with
-- the usage counts of claude.go, codex.go and agy.go on int64. json.Unmarshal is the parameter
-- `Decoder`.
--
-- Daemon (server/cmd/daemon/exchange.go and main.go): `Daemon/Exchange` is the record of a turn on
-- its way to the server, `Daemon/RunTurn` is runTurn, from its refusals to its ending, as a
-- function of what the computer answers, what the CLI prints and when the timers fire, and of the
-- calls that other goroutines make meanwhile. It answers with the messages sent. `Daemon/Serve` is
-- a round of serve's loop, on the two files of credentials of endpoints.go.
--
-- Agent (server/internal/agent): `Agent/Record` is the splitter of record.go, `Agent/Claude`,
-- `Agent/Codex` and `Agent/Agy` are the parsers of claude.go, codex.go and agy.go, as functions of
-- what each line is decoded to; `Agent/Command` has the arguments of the three, what their exits
-- are made into, and agy's catalogue of models.
--
-- Api (server/internal/api/api.go): `Api/Post` is postMessage, part by part, with its calls of the
-- store as a second interface. `Api/State` has the turns in flight, with the hub and the store;
-- `Api/Turns` has handleDaemonMessage, recordExchange and finishTurn, `Api/Closing` has
-- abandonTurns and stopTurn. `Api/Sockets` is daemonSocket of sockets.go: who is let in, the
-- opening and the closing of a machine's socket, and a round of its read loop. The store is an
-- interface, the record `Store`, and every theorem is about all stores. The proofs in
-- `Api/Closing/Ended` and `Api/Closing/Kept` put the daemon's runTurn and the server together.
--
-- Api (server/internal/api/accounts.go and auth.go): `Api/Access` has what these handlers read and
-- write, `Api/Access/Gate` the gate between emails, `Api/Access/Emails` the messages,
-- `Api/Access/Register` the handlers of addresses, links and forgotten passwords,
-- `Api/Access/Sessions` signing in and out and the change of a password. A handler is a function
-- of the decoded body, the time and the client's address; what a goroutine is left to do is a job,
-- which `run_job` runs at any later time. The store, the mail server and the lower case of a text
-- are the parameter `Outside`. The gate's times never go back.
--
-- Daemon (server/cmd/daemon/files.go, main.go and update.go): `Daemon/Files` downloads and
-- prepares a turn's files on a disk, a map from paths to contents, with a success or a failure for
-- each call of the file system, and `Daemon/Files/Prompt` has what the prompt says of them and of
-- the catch-up; `Daemon/Install` is runUpdate, on the two files and the running copies of the
-- daemon, with a success or a failure given for each call of the operating system. The loop that
-- waits for the new version has a round for each time that the clock is before the deadline, in
-- which the new copy may exit before the file is read or after.
--
-- Most loops of the source run over lists or over calls, and recursion is on those. The loop of
-- pbFields has as much fuel as there are bytes, each round reading one, and the loop of
-- stripMarkers as much as there are characters, each round but the last taking one away.
-- pbVarintAt has its ten shifts. `print` in `Text/Decimal` divides with as much fuel as the
-- number. Machine integers that can wrap, as the request counter, do so in the model (`% 2 ^ 64`);
-- Atoi refuses numbers past 64 bits.
--
-- Not modelled: the handlers of server/internal/api for machines, workspaces, settings and files,
-- the SQL of server/internal/store and server/internal/db, how the single agents are started and
-- found, the session files of server/internal/sessionstore, mail, the hash of a password and of a
-- token (parameters), the daemon's sockets, collect, send and the folder pane of
-- server/cmd/daemon/files.go, the daemon's processes, and the TypeScript applications: they are
-- calls of the outside, or are left out. Logging is left out.
pub mod Prelude
pub mod Protocol
pub mod Hub
pub mod Auth
pub mod Text
pub mod Release
pub mod Daemon
pub mod Agent
pub mod Api
pub mod Store
