-- ===== src/Lib.antt =====
-- VortexPortal lets a user reach their own devices from a browser. A hub (hub/) keeps accounts,
-- devices and locks in a database and holds one WebSocket for each device that is online; an agent
-- (agent/) on the device carries out the hub's requests. Several hubs may share one database and
-- tell each other by presence rows which of them holds a device.
--
-- What models what:
--
-- Db: hub/db.py. Db/Schema.antt has the twelve tables as lists of rows in the order of their
--   rowids. A function of db.py is one function here, under the same name, in the file of its
--   section: Users, Passwords, Sessions, Pairing, Devices, Tokens, Nodes, Audit, Theft, Locks, Purge.
--   It is its statements in their order, and each is committed on its own: one that breaks a UNIQUE
--   or REFERENCES constraint raises, which is `integrity_error`, changes nothing itself, and leaves
--   what the statements before it did. Nothing of another connection comes between the statements of
--   a call, except where the code relies on it: the SELECT and the INSERT of `acquire_lock` are the
--   steps `ask_lock` and `write_lock`, and a rival registration may spend the invite that
--   Hub/Accounts.antt has checked. The field `foreign_keys` of `Db` tells whether the backend
--   enforces the REFERENCES clauses and cascades. Time, random draws and `hash_token` (SHA-256) are
--   arguments.
-- Auth: hub/auth.py. Auth/RateLimit.antt is the limiter on failed logins, over clock ticks with
--   `second` ticks to the second; Auth/Cookies.antt is `login`, `logout` and the cookie checks.
-- Router: hub/ws_router.py. Router/Connection.antt is `AgentConnection`; a coroutine that waits is
--   two functions, up to the wait and from it on. Router/Registry.antt is `Registry`, with the
--   connections in a heap, since the registry compares them by identity.
-- Config: hub/config.py. Config/Env.antt reads KEY=value files, Config/Store.antt is the store of
--   settings. The environment and the stored file are arguments.
-- Agent: agent/agent.py. Agent/Session.antt is `Session`, Agent/Requests.antt is
--   `_handle_request`, over the tables of operations as parameters, and Agent/Upload.antt is
--   `op_write_file` on the queue that the session fills. Agent/Files.antt is the other direction,
--   `op_stat` and `op_read_file_stream`, Agent/Nodes.antt the search for a node of the hub, and
--   Agent/Bridges the frames that agent/camera_bridge.py and agent/input_bridge.py exchange with the
--   driver over a local socket, which is a parameter with the promises of `recv`.
--   Agent/Pairing.antt is agent/pairing.py, how an agent comes by its configuration, and
--   Agent/Direct.antt the server by which a browser reaches the agent without the hub.
-- Hub: hub/app.py. Hub/Accounts.antt has the login and the two registrations, Hub/Enrolment.antt
--   how a device gets credentials, Hub/Agents.antt the life of an agent's socket (`ws_agent`),
--   Hub/Files.antt the download of a file, Hub/Theft.antt, Hub/Capture.antt and Hub/TheftLoop.antt
--   Theft Mode, and Hub/Relay.antt the relay of a request to the node that holds the device,
--   Hub/Devices.antt the pages and calls about one device with
--   what they send to its agent, and Hub/DeviceApi.antt what a device gets
--   for its own credentials; Hub/Direct.antt hands the owner the ticket of a direct connection.
-- Base: Python's texts, dictionaries, JSON values and sorting, and the statements on a table.
-- Samples: the theorems at concrete inputs.
--
-- The handlers of Hub use the functions of Db, Auth and Router the way app.py does; Agent and Router
-- meet in the frames that one sends and the other receives. Every function is total. `read_loop` and
-- `frames` of Agent/Bridges and `read_chunks` of Agent/Files run on fuel: each round of `read_loop`
-- takes a byte at least, so that the bytes to read are enough, a round of `frames` takes a frame,
-- and a round of `read_chunks` a byte of the file at least.
--
-- Bounds: numbers are unbounded, as in Python. A JSON number is an integer; no code that is modelled
-- reads a fraction. A time before the epoch is cut off at 0.
--
-- Not modelled: the adapters to SQLite, libSQL and the Turso protocol and the migration of the
-- schema, which are input and output around other libraries; PBKDF2, which is a parameter of
-- Db/Passwords.antt; the pages of hub/templates.py; the other handlers and loops of hub/app.py; the
-- wake-lock request of Theft Mode, which changes no state of the hub; the
-- device operations and the PC bridges of the agent; the legacy app_v1.py; the Android
-- driver and the scripts.
pub mod Base
pub mod Db
pub mod Auth
pub mod Router
pub mod Config
pub mod Agent
pub mod Hub
mod Samples
