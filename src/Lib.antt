-- ===== src/Lib.antt =====
-- A FideX edge node: it signs, encrypts and delivers business documents to trading partners, takes
-- theirs in, and exchanges receipts (J-MDN) about them.
--
-- A document enters through transmitHandler (internal/api/internal_handlers.go), which puts it into
-- the table of messages as a QUEUED row. The worker (internal/queue/worker.go) polls the table, and
-- posts each due row to its partner: signed, then encrypted by the engine (internal/crypto). The
-- partner's inboundHandler (internal/api/external_handlers.go) opens and verifies it, stores it, and
-- queues a J-MDN job, which its own worker posts back to the first node's receiptHandler. Partners are
-- registered by discovery (internal/discovery), and operators log in through internal/auth. Documents
-- also enter as files of a directory (internal/watcher). Operators change users, partners and keys
-- through the settings routes, and watch the node on the dashboard, whose browsers are clients of a
-- websocket hub (internal/dashboard). The configuration (internal/config) is read once at the start.
--
-- Files:
-- Errors: internal/errors/errors.go. `Result` is Go's pair of a value and an error.
-- Json: encoding/json as the handlers use it, on JSON values: what a decoder into a struct does with
--   members that are missing, null, unknown, repeated, or of another type. A request body is a value,
--   or a text that is no JSON.
-- Domain: internal/domain and internal/constants/jobtypes.go.
-- Crypto (Negotiate, Keys, RoundTrip): internal/crypto/as5_engine.go. go-jose, SHA-256 and the
--   randomness are the record `Jose`, a parameter; the lists of algorithms that the engine accepts
--   are arguments of its parsers.
-- Wire: the JSON documents that nodes exchange and queue.
-- Store (Table, Messages, Partners, Users, Sessions): internal/repository. A table is its rows in the
--   order of insertion; every statement takes what the driver reports of it as an argument.
-- Queue (Deliver, Process): internal/queue/worker.go. `business_request` and `jmdn_request` are
--   deliverBusinessDocument and deliverJMDN up to the request, `process_queue` is processQueue.
-- Api (Inbound, Receipt, Transmit): internal/api. A handler takes the table of messages and returns it
--   with its reply. `inbound_handler` is inboundHandler, `receipt_handler` receiptHandler, and
--   `transmit_handler` transmitHandler.
--   Settings (Ids, Accounts, Routes) is settings_handlers.go, `serve` its router; Dashboard (Discover,
--   Qr) is dashboard_handlers.go and internal/dashboard/qrcode.go; Access (Addresses) is middleware.go
--   with the parts of package net that it calls. Published (Discovery) is as5ConfigHandler and
--   jwksHandler.
-- Auth: internal/auth, and the handlers of internal/api/auth_handlers.go.
-- Discovery (Tokens, Config, Service): internal/discovery. `initiate_partner_handshake` is
--   InitiatePartnerHandshake, `handle_webhook_registration` HandleWebhookRegistration.
-- Strconv: strconv.Atoi.
-- Config (Overrides, Load, Keys, Saved): internal/config/config.go. `load` is Load, `save` Save.
-- Watcher (Laws, Requeued, Conservation): internal/watcher/fs_worker.go. `watch_turn` is one turn of
--   watchLoop, `process_file` processFile.
-- Hub (Follows, Sending, Steps, Streams): internal/dashboard/websocket.go. `step` is one event: a turn
--   of Run, a send of Broadcast, ServeWs, or a turn of writePump.
-- Examples: a toy engine, small tables, and the theorems applied to them.
--
-- Bounds: the loops of the source run over lists of rows, keys, tokens, clients or characters, and are
-- structural recursion here. Two functions count down: `decimal` has more steps than its number has
-- digits, and the loop of parseIPv6 has 8, one for each group of an address. Times are natural
-- numbers of nanoseconds, without Go's bound of 2^63; the ids in the settings' paths, the number of a
-- page, and the minutes of the back-off wrap around at 2^64 as the source's ints do. In one round of
-- the worker, one request, and one turn of the watcher the clock has one value.
--
-- Not modelled: logging and the wiring in internal/container and cmd/fidex-node; the pages and assets
-- that are sent as files; which middleware chi puts before which route, but for the allowlist; reading
-- a body from the network (io.ReadAll), which is taken to succeed; writes to the log, and
-- bestEffortVerifyJWS, which does nothing else. The handlers and the worker each run to the end of
-- their database statements without another one in between.
pub mod Common
pub mod Errors
pub mod Json
pub mod Domain
pub mod Crypto
pub mod Wire
pub mod Store
pub mod Queue
pub mod Api
pub mod Auth
pub mod Discovery
pub mod Strconv
pub mod Config
pub mod Watcher
pub mod Hub
pub mod Examples
