-- ===== src/Lib.antt =====
-- Ashan FRP: the management plane of frp tunnels, a Go server under frp-backend/.
--
-- The program. A browser or a script talks to the HTTP layer (frp-backend/internal/http), which
-- authenticates it (middleware/middleware.go, handlers/auth.go) and serves the tunnels, the nodes, the
-- website mappings, the frpc process and the DNS records of a Cloudflare zone (handlers/tunnel.go,
-- node.go, website_mapping.go, frpc.go, dns.go). The rows live in SQLite behind
-- frp-backend/internal/repository. Long work is a row of the table of jobs, which a worker polls and
-- executes (frp-backend/internal/worker/runner.go); others watch the failover pool (failover.go) and
-- the nodes (node_sync_worker.go). A command of the program gives the administrator a new password
-- (frp-backend/internal/admincli). frp-backend/internal/frpc renders the configuration of frpc and
-- supervises its process. frp-backend/internal/integration calls Cloudflare, ChmlFrp and 1Panel, and
-- frp-backend/internal/observability writes the log.
--
-- The files. All paths are under frp-backend/internal.
-- - Base: the tests, texts, lists, integers and results that the others share. Base/Text follows Go's
--   `strings` (ToLower, ToUpper, TrimSpace, Contains, ReplaceAll, `%q`, `%d`), and
--   Base/Atoi `strconv.Atoi`.
-- - Domain: the rows of domain/types.go and domain/model_types.go. A time is a number of nanoseconds,
--   a pointer to one an `Option`. The floating-point numbers of a node are a type of their own, `F`.
-- - Repository: repository/repository.go over a `Table`, the calls of gorm that it makes; `IsTable`
--   states what gorm documents of them, `IsApart` that two tables do not overlap, and Memory and Parts
--   show that both can hold. A finder returns a `Lookup`, a pointer and an error: the pointer is that
--   of the zero row where nothing is found, or nil for nodes and website mappings.
-- - Frpc: frpc/config.go (Config: Render, proxyName, proxyType), the TOML text (Toml) and
--   frpc/manager.go (Manager: NewManager, Start, Stop, Restart, Reload, Healthcheck, monitor). The
--   processes, the contexts and the files of the operating system are the record `System` and the
--   answers of `Os`; Manager/Invariant has the histories of a manager, with Restart in the parts
--   between which other calls can come.
-- - Http: handlers/frpc.go (Frpc), handlers/tunnel.go (Tunnels: Create, List, Get, Update, Delete,
--   Provision, SetFailoverPool, ListFailoverPool, and SyncChmlFrp in Tunnels/Remote), handlers/auth.go
--   (Auth: Login, Logout, Session, ChangePassword, ListTokens, RevokeToken), middleware/middleware.go
--   (Access: AuthMiddleware), handlers/dns.go (Dns: List, Create, Update, Delete, Claim, Unclaim),
--   handlers/node.go (Nodes: List, Get, Create, Update, Sync, SpeedTest, SpeedTestAll,
--   SetPreferredPool), handlers/website_mapping.go (Websites: List, Get, Create, Update, Sync) and
--   handlers/settings.go (Settings: ConfigureCloudflare, Update in Settings/Update, what
--   settingsMapToView writes in Settings/View, and the verification of the stored credential in
--   Settings/Verify). A handler takes the database and gives a `Reply`: the database after it, the
--   status and error code, and the value answered.
-- - Worker: runner.go (Queue: loop, processNext, execute, cleanupAuditLogs) over any work of a job,
--   failover.go (Failover: CheckFailoverPool) and node_sync_worker.go with MeasureNodeSpeed of
--   integration/chmlfrp/speedtest.go (Nodes: MonitorInUseNodes, SyncChmlFrpNodes,
--   EnsureEmergencyBestNodeSelection) over what the nodes answer, and the works of a job over what the
--   services answer: provisionTunnel (Provision), deprovisionTunnel (Deprovision), reconcile
--   (Reconcile), refreshNodes and syncWebsiteMapping (Works, which also chooses the work of a job).
--   Queue/Lifecycle has the life cycle of a job as a relation.
-- - Admin: admincli/service.go (ResetPassword) and repository/admin_credentials.go, in a
--   transaction (Repository/Transactions).
-- - Security: security/security.go over bytes as numbers; Hex follows Go's encoding/hex.
-- - Cloudflare: integration/cloudflare/client.go. Answer has readBody and the reading of an answer,
--   Payload has recordPayload, Paging the loop of ListRecords and ListZones, Client the rest, with
--   VerifyToken in Client/Verify. The transport and the decoder of JSON are the record `Api`.
-- - Chmlfrp: integration/chmlfrp/client.go and helpers.go: GetTunnels, CreateTunnel and DeleteTunnel,
--   over the record `Remote` of what ChmlFrp answers.
-- - Observability: logger.go, redactAttr and TokenMask, the rotating writer (Rotation) and the
--   removal of old files (Cleanup).
-- - Examples: the definitions and the theorems at concrete inputs, over a database in memory.
--
-- Bounds. The only loop of the program that is not over a list is that over the pages of a list: it
-- has fuel, and `list_pages-collect` says how much is enough. The numerals of `%d` carry the number
-- itself as fuel, which is more than its digits. Counters (attempts, sizes, times) are natural numbers:
-- they start at 0, go up by one or by the length of a write, and stay far below 2^63.
--
-- What is a parameter. The database, the operating system, HTTP, JSON, Argon2, SHA-256, AES, the clock
-- and the identifiers and bytes that are drawn. The handlers and workers take the hashes of passwords
-- and tokens and the decryption of secrets as arguments.
--
-- What is not modelled. The goroutines: each call stands for one that holds its lock throughout, and
-- orders of calls are explicit where they matter. The messages of the errors of HTTP answers; their
-- codes are. The view of the settings, but for what building it writes, the OAuth flow of ChmlFrp,
-- the dashboard, the rest of the client of ChmlFrp, that of 1Panel, the prompts of the command line
-- and the web page.
pub mod Base
pub mod Domain
pub mod Frpc
pub mod Repository
pub mod Chmlfrp
pub mod Cloudflare
pub mod Observability
pub mod Worker
pub mod Http
pub mod Security
pub mod Admin
mod Examples
