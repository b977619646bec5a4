-- ===== src/Lib.antt =====
-- Roomler: a collaboration server with video rooms and remote control of desktop agents.
--
-- The repository has a server (crates/) and an agent (agents/roomler-agent) that runs on a host
-- that is controlled. The parts that are modelled, and where:
--
-- - RemoteControl: crates/remote_control/src. An agent and a controller are connected to the
--   server's hub, which opens a session on a controller's request, asks the agent for consent,
--   forwards the WebRTC signalling of the two and ends the session. Models and Signaling are
--   models.rs, error.rs and signaling.rs; Session is session.rs with the slot of consent.rs;
--   TurnCreds is turn_creds.rs; Audit is the batching task of audit.rs; Hub is hub.rs. Hub/State
--   has the state and the channels, Hub/Connect the functions register_* and unregister_*,
--   Hub/Lifecycle the functions create_session, terminate, deliver_consent and
--   handle_consent_outcome, with the spawned task that waits for consent (poll_watcher), and
--   Hub/Dispatch the functions forward_* and dispatch. Hub/Trace is any sequence of calls.
-- - Agent: agents/roomler-agent/src. Codecs is pick_best_codec of encode/caps.rs. Config is the
--   crash-loop detector of config.rs and the bookkeeping of main.rs around a run. Files is
--   files.rs with the handlers of peer.rs for the channel of file uploads: Files/Names has
--   sanitize_filename and unique_path, Files/Handler the type FilesHandler and the replies.
--   Watchdog is the type Watchdog of watchdog.rs with its loop. Updater is updater.rs: versions,
--   the choice of a release and of its asset, the checks of a download, check_once and pin_version.
--   Signaling is signaling.rs: handle_server_msg on one connection to the server, and in
--   Signaling/Loop the loops of connect_once and run. The peers' media is not modelled.
-- - Media: crates/services/src/media. Rooms is room_manager.rs and worker_pool.rs.
-- - Sockets: crates/api/src/ws/storage.rs, the connections of each user.
-- - Conference: crates/services/src/dao/room.rs, the rooms, their members and the participants of a
--   room's call in the database.
-- - Server: what a browser's socket does, over one state of the registry (Sockets), the media rooms
--   (Media), the hub (RemoteControl) and the database (Conference). Server is
--   crates/api/src/ws/dispatcher.rs; Ice, Media and Socket are crates/api/src/ws/handler.rs, Remote
--   is crates/api/src/ws/remote_control.rs, Calls is call_start, call_join, call_leave and call_end
--   of crates/api/src/routes/room.rs. Server/Reach is any sequence of their calls.
-- - Invites: crates/services/src/dao/invite.rs and crates/api/src/routes/invite.rs. Routes has the
--   routes that ask for a permission, Race two requests whose reads and writes interleave, and Uses
--   any order of whole requests and single writes.
-- - Dao: crates/services/src/dao/base.rs, the pages of a query. The database leaves the order of
--   rows with one sort key open for each query; here a query sorts the documents stably, in the
--   order in which it is given them (Dao/Ties).
-- - Messages: crates/services/src/dao/message.rs and the routes of crates/api/src/routes/message.rs.
--   Rows has the queries and updates, Reactions is crates/services/src/dao/reaction.rs, Notify is
--   crates/services/src/dao/notification.rs with crates/api/src/routes/helpers.rs, Routes has the
--   routes that read or post and Edits the others. Messages/Reach is any sequence of requests.
-- - Tasks: crates/services/src/background/task_store.rs, a cache before the database. Refines
--   compares it with one map.
--
-- How the code corresponds. A struct is a record, an enum a data type, a method a function from the
-- state to its result and the new state; a DashMap or a HashMap is an association list
-- (Prelude/Maps) and the order in which it is iterated is the list's. A lock or an await is not a
-- step of its own: interleavings are of whole calls, but in Invites. An identifier, a connection
-- and a channel are opaque numbers; a text is a list of code points. Logging is left out.
--
-- What is a parameter: the clock (one reading for a call), new identifiers, whether a bounded
-- channel takes a message, HMAC with base64 (Hub/State.Env), the operating system's answers on
-- files (Agent/Files/Handler.Host), mediasoup (Media/Rooms.Engine), the network, SHA-256 and the
-- temporary directory in a check for an update (Agent/Updater.Host), whether the database answers
-- (Tasks.Call), what the socket and WebRTC answer (Agent/Signaling.Answers,
-- Agent/Signaling/Loop.Attempt), and what a request finds outside (Server.World,
-- Messages/Routes.Context). Elsewhere a collection of the database is a list or an association
-- list whose unique indexes hold, and an operation on one document is a step that succeeds.
--
-- Bounds. Machine integers are natural numbers with the source's saturation written out where an
-- operation can reach it (u32 and u64 in Agent); the hub's u8 counter of sessions is only raised
-- below its u8 limit, so its addition cannot overflow. No definition runs on fuel but the printing
-- of a number (Prelude/Texts.decimal), which has one round more than the number, the search for a
-- free file name, which has the 998 rounds of the source's loop, and the removal of a repeated
-- prefix of a tag (Agent/Updater.trim_prefix), which has as many rounds as the tag has characters.
--
-- Not modelled: capture, encoders, input and WebRTC on the agent, and how it starts an installer;
-- the server's other HTTP routes and collections, OAuth, cloud storage and export, which call
-- services and libraries; the JSON form of messages; the vendored rtp library; the user interface.
pub mod Agent
pub mod Conference
pub mod Dao
pub mod Invites
pub mod Media
pub mod Messages
pub mod Prelude
pub mod RemoteControl
pub mod Server
pub mod Sockets
pub mod Tasks
