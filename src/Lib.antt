-- ===== src/Lib.antt =====
-- nde, a node of a VPN panel: users are synced from the panel over gRPC and passed on to proxy
-- processes (xray, sing-box, hysteria2).
--
-- Prelude: Boolean tests, lists, keys and finite maps over the native numbers.
-- Models (internal/models/models.go): users and inbounds.
-- Storage (internal/storage/memory.go): the in-memory maps of users and inbounds. Storage/IsWell
--   has the invariant, Storage/Lookups what the readers return, Storage/Listing the listing that a
--   loop goes through while it removes users, Storage/Calls all sequences of calls.
-- Backend (internal/backend/backend.go): what the service asks of a proxy, as a record of operations
--   over a world that they change, and the errors.
-- Storage/Inbounds: the loops in which xray and sing-box register the inbounds of a configuration and
--   take them out again.
-- Service (internal/service/service.go): the update of one user under its lock. Service/Tags and
--   Service/Apply say what an update leaves in the storage, Service/Ledger what the service
--   needs of its backends: for users with the names and keys that the panel gives their ids, a call that
--   succeeds adds or removes the id on that inbound and nothing else; Ledger/Passwords has it for
--   hysteria2, which knows users by password. Service/Serving, Service/Agree, Service/Sync and Service/Resync what the backends then serve.
--   Service/Retry has attempts and timeouts, Service/Stream SyncUsers and RepopulateUsers,
--   Service/Reliable backends that report no error, Service/Stats FetchUsersStats, Service/Queries the
--   handlers that ask one backend, Service/Locks the mutex of each user with its count of references,
--   as steps of any number of goroutines.
-- Util/LogBus (internal/util/logbus.go): the lines of a proxy's log and their subscribers.
-- Util/Retry (internal/util/retry.go): attempts at a call with doubling delays.
-- Util/Json (internal/util/jsonc.go): a configuration given as text or as a path.
-- Text: what the program uses of Go's strings, strconv, fmt and encoding/base64, on texts.
-- Auth (internal/auth/generator.go): the secrets of a user. Auth/Identifier has the text that names a
--   user in the proxies, and how it is read back.
-- Health, and Health in Hysteria2, Singbox and Xray (monitorHealth in internal/backend/*/backend.go):
--   the loops that restart a proxy which does not answer; Health has what the three share.
-- Hysteria2 (internal/backend/hysteria2/backend.go): the users by password, the auth handler and the
--   usages. Hysteria2/Config (internal/backend/hysteria2/config.go) has the configuration with the node's
--   entries, Hysteria2/Lifecycle Start, Stop and Restart with the auth server, and Lifecycle/Running
--   what they leave running. Hysteria2/Runner (internal/backend/hysteria2/runner.go) has the process and
--   its temporary file as steps, Runner/Files which files are there.
-- Singbox/Config (internal/backend/singbox/config.go): accounts in a configuration, which is a tree of
--   Go's any values (Models/Objects). Config/Accounts has one addition or removal, Config/Undo both.
-- Singbox/Config/Inbounds (internal/backend/singbox/config.go): applyAPI and resolveInbounds.
-- Singbox/Files (internal/backend/singbox/backend.go): saveConfig, and the parameters of the backend.
-- Singbox/Updates (internal/backend/singbox/backend.go): AddUser, RemoveUser and the worker that applies
--   them to the running proxy; Updates/Loaded says which configuration was saved and loaded last.
-- Singbox/Lifecycle (internal/backend/singbox/backend.go, config.go): Start, Stop and Restart.
--   Lifecycle/Users says which accounts addStorageUsers leaves in the configuration, Lifecycle/Served
--   with which configuration sing-box is started and which inbounds the storage has.
-- Singbox/Runner (internal/backend/singbox/runner.go): the process and its exit as steps; Runner/Exits
--   says when the exit is in the channel.
-- Singbox/Stats (internal/backend/singbox/stats.go): the client of the statistics.
-- Models/Named: what both resolveInbounds keep of an inbound in its settings.
-- Xray/Config (internal/backend/xray/config.go): applyAPIConfig and mergeMap. Config/Merge and
--   Config/Api say what a merged configuration has, Config/Inbounds and Config/Resolved which inbounds
--   are made of it, Config/Load has LoadConfig.
-- Xray/Api (internal/backend/xray/api.go): Api/Pool has the shared connection and the semaphore as
--   steps of any number of calls, with their invariant in Pool/Inv and Pool/Safety; Api/Calls has each
--   call on its own, Calls/Served an xray that answers as documented, Api/Usages the loop over the
--   statistics, Api/Account the accounts.
-- Xray/Runner (internal/backend/xray/runner.go): the process and the goroutine that waits for its
--   end, as steps, with their invariant in Runner/Inv and whose exit a Start reports in Runner/Startup.
-- Xray/Repopulate (internal/backend/xray/backend.go): the backend's AddUser and RemoveUser, and the loop
--   that gives the users of the storage to a new xray.
-- Xray/Lifecycle (internal/backend/xray/backend.go): Start, Stop and Restart. Lifecycle/Registered and
--   Lifecycle/Serving say which inbounds the storage has then, Lifecycle/Failing what a failed start
--   leaves.
-- Settings (internal/config/config.go): the settings and their defaults.
-- Logutil (internal/logutil/logutil.go, redact.go): which handler and level logging has, and what is
--   redacted. Logutil/Pretty (internal/logutil/pretty_handler.go) has the lines of the pretty handler,
--   Logutil/Hidden what they tell of a secret.
-- Tls (internal/tlsutil/tls.go): the key pair of the server and the check of a client's certificates;
--   Tls/Trust says which clients pass it.
-- Startup (cmd/marznode/main.go, and NewBackend in internal/backend/*/backend.go): the backends that the
--   settings enable, started on one storage, and in Startup/Registered the inbounds that they register.
--
-- A call that changes state takes the state and returns the new one beside its result. An error is
-- a value, and the state that it leaves stands beside it. The order of a `range` over a map is the
-- order of the entries. The sets of tags that an update compares are ranged over in the order in
-- which they were filled. The goroutines of a bulk run apply the messages in an order that is a
-- parameter. Loops recurse on their list or on the number of attempts that is left; the only other
-- bound is that on the blocks of a PEM text, and what is proved of it asks for as many as there
-- are. Ids are natural numbers; where one is read back from a text it is below 2^32. Usages wrap
-- around at 2^64.
--
-- The generation of a connection is a 64-bit word; the statement that needs it not to come round says
-- so. A decimal number is written with at most 20 digits, which is enough for 64 bits.
--
-- A backend's Start and Stop take those of its runner as parameters, and what a proxy was started with
-- is read off the call that made the world; what a runner does is modelled by itself.
--
-- Not modelled: the gRPC transport with its generated code and the interceptors of main, which log; the
-- handlers of log/slog; how a certificate is made; the signals that the runners of sing-box and
-- hysteria2 send; the log streams, pipes and versions of the runners; and the loops that restart a
-- process which has ended (monitorFailures).
pub mod Prelude
pub mod Models
pub mod Storage
pub mod Backend
pub mod Service
pub mod Util
pub mod Auth
pub mod Text
pub mod Logutil
pub mod Settings
pub mod Tls
pub mod Health
pub mod Hysteria2
pub mod Singbox
pub mod Xray
pub mod Startup
