-- ===== src/Lib.antt =====
-- The update chain of PhotoOS: how the server finds, checks, downloads, hands over and installs an
-- update, from a signed channel manifest to the request that makes the update Agent install it; and
-- the notifications of the server.
--
-- The parts and their files (the sources are under server/src):
--   * State: `UpdateStateStore` of update_state.rs. Its four SQLite tables are finite maps by their
--     keys (State/Db), its SQL statements are functions on the tables that a constraint can refuse
--     (State/Sql), and its methods are chains of statements that may fail one by one, with
--     transactions that roll back (State/Store). State/Requests runs lists of method calls.
--   * Distribution: update_distribution.rs, which URLs, file names, redirects and sizes are allowed.
--   * Trust: update_trust.rs, the pinned Ed25519 key and detached signatures under it.
--   * Discovery: update_discovery.rs. It fetches a manifest and its signature (Discovery/Fetch),
--     verifies and validates it (Discovery/Manifest, over Trust and Distribution), records it in the
--     store and compares versions (Discovery/Service). Discovery/Origin says where a manifest comes
--     from: which bytes were served, were signed, and are its text.
--   * Download: update_download.rs. It follows redirects (Download/Http), streams the package into a
--     `.partial` file and renames it after all checks (Download/Stage) on a disk on which every
--     operation can fail, also in the middle of a write (Download/Files).
--   * Agent: update_agent.rs and update_agent_flow.rs. The flow uploads the staged package to the
--     Agent, has it verified, and asks for its installation after approval. Runs keep the log of the
--     requests that the code has sent; the Agent may answer anything.
--   * Updates: handlers/updates.rs, the HTTP handlers that join these parts. A handler is a chain of
--     calls with early returns on the database, the log of requests to the Agent, and the files of
--     the downloads (Updates/Server). Updates/Access tests for an administrator and reads the Agent's
--     token; Updates/Proxy passes requests on to the Agent; Updates/Channel has the channel and the
--     check; Updates/Target, Download, Staged, Verify, Operation and Install have the way of an update
--     from the offered manifest over the staged file, the verification and the saved operation to the
--     installation. Updates/Visits runs lists of requests that arrive. The other files below Updates
--     prove: Moves, Runs, Rules and Refine relate handlers to runs of the store; Ends, Downloaded,
--     Reread, Located and Verified say what has happened when a handler comes to its end; Installs,
--     Once, Claimed, Progress and Allowed are about installations; Guards, Kept and Silent about what
--     requests leave alone.
--   * Notifications: handlers/notifications.rs. The files of the producers are read and put in their
--     normal form (Notifications/Item, Producers), and counted in one aggregate
--     (Notifications/Aggregate); what a WebSocket sends of it, and the loop of its task over a list of
--     events, are in Notifications/Socket and Session. Notifications/Store writes and reads the
--     aggregate's file. Severity describes the order of notifications without the code's comparison;
--     Order, Kinds and Totals prove what the aggregate says, Whole how its file changes, Lasting what
--     a session remembers.
--   * Prelude, Text and Version hold what the parts share: results, tests and lists; `str` as its
--     UTF-8 bytes, with the methods that the code calls; versions and their order. Tests applies the
--     theorems to concrete inputs.
--
-- Functions keep the names of the source; a helper of the model stands for a block of its function,
-- which its comment or its place names. `Result` has the source's error types; what such an error
-- carries only for its message is left out, and a statement of sqlx fails as `unavailable` or by a
-- constraint.
--
-- Other crates are parameters: chrono's RFC 3339 parser (State/Db, `Env`), reqwest's URL parser and
-- requests, ring's Ed25519, sha2's digest, serde_json (Discovery/Types, `Crates`; Download/Http,
-- `Net`), and the Agent (Agent/Transport, `AgentEnv`). For the handlers they are gathered, with
-- jsonwebtoken's decoder, the roles of the `users` table, the environment file, the file system, uuid,
-- the clock and the settings, in `Site` of Updates/Server; each request that arrives has its own.
--
-- Machine integers: `u64` numbers are read with a bound of 2^64, a running total that would reach
-- 2^64 is the error of `checked_add`, and a package size that does not fit `i64` is refused, all as
-- in the source. The redirect loop runs on a fuel of 4, one more than the redirects it may follow.
--
-- The log of the Agent has the requests that the code hands to reqwest. A redirect that reqwest
-- follows is part of its request, and a request that it cannot build stands in the log without an
-- answer.
--
-- Handlers run one after another: a request is handled to its end before the next one starts. What a
-- background task sends is in the log from the moment the task is spawned.
--
-- Not modelled: the rest of the server (storage, backups, photos, users, system reports); the choice
-- of the notification aggregate's path, the timer of its refresh and the lists of the producers'
-- files; interleavings of two requests or of two calls of the store, in particular between the
-- SELECT and the upsert of `observe_manifest`; the constructors for tests with their own URLs; the
-- texts of messages in answers and logs.
pub mod Prelude
pub mod Text
pub mod Version
pub mod State
pub mod Distribution
pub mod Trust
pub mod Discovery
pub mod Agent
pub mod Download
pub mod Updates
pub mod Notifications
pub mod Tests
