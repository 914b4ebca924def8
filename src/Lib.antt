-- ===== src/Lib.antt =====
-- Tunnara, a tunnelling service with a desktop and web console. This library models the logic of
-- the console's Rust code.
--
-- The parts, with paths from the repository's root:
-- License is apps/console/src-tauri/generic-license-tauri, which decides whether a company's
--   device may run the console. License/Models.antt has the records of src/models.rs,
--   License/Error.antt the errors of src/error.rs, License/Cache.antt the offline cache of
--   src/cache.rs, and License/Legacy.antt and License/Service.antt the functions
--   `evaluate_legacy`, `try_offline_cache_or_fail` and `check` of src/service.rs. An `async`
--   function is a function on the state of the environment that returns a result and the new
--   state (License/World.antt); a continuation after an `.await` that has branches is a function
--   of its own (`after_register`, `after_status`, `after_get`). License/Client.antt is the API
--   client of src/client.rs, with the documents that it sends in License/Payloads.antt and its
--   readers of answers in License/Answers.antt and License/Normalize.antt. The service takes its
--   operations as the record `LicenseApi`, which `client` fills. What the code calls and does
--   not implement is a record of operations: `World` (clock, file system, hash, JSON codec),
--   `Http` (requests and responses), `Json` (the view of a JSON value and how one is built) and
--   `Formats` (upper case and the calendar's date formats).
--   `evaluate_legacy` calls itself after a registration, without a bound in the source: here it
--   takes the number of rounds and answers `running` when they are spent, and
--   License/Legacy/Termination.antt says when three rounds are enough and when no number is.
--
-- License/Device.antt is src/device.rs as it is compiled for Linux, over what it reads of its
--   `Machine`; License/Registration.antt is src/registration.rs, over the `Host` that it reads
--   and the libraries that decode and verify; License/Prepare.antt puts the two together as
--   `check` does, and is what the service's parameter `prepare` stands for. Both read their
--   machine; that they leave the environment as it was is how they are modelled.
--
-- WebSocket is apps/console/src-tauri/src/native_websocket. WebSocket/Hub.antt is the registry of
--   clients of hub.rs: its static map is a list of entries that the operations take and return,
--   in an order that stands for that of an iteration; as in a `HashMap`, the keys are distinct. An
--   operation is one step; the lock, which
--   a broadcast releases between sending and unregistering, is not modelled.
-- NetBind is apps/console/src-tauri/src/net_bind.rs, which binds a service to its port, over the
--   system's sockets as a record `Net`; the loop of ten attempts counts down from 10.
--
-- Database is apps/console/src-tauri/src/db.rs and the tables of migrations.rs that the commands
--   of Access and Company use (Database/Tables.antt; of the licences only what a constraint
--   reads): a table is the list of its rows, a flag is the number in
--   its column, a time is the text that the code writes. Database/Command.antt has the commands:
--   functions on the tables and the state of the environment. Each SQL statement of the source is
--   one function on the tables, with the constraints of the schema (unique columns, foreign keys
--   and what they delete), and the engine may refuse any of them; nothing is undone then, since
--   the source opens no transaction. An `ON DELETE` into a table that is not modelled is left out.
--   The clock, identifiers, Argon2, `to_lowercase` and the file of the log are operations of the
--   record `Engine`.
-- Value.antt is serde_json's `Value` as the payloads have it; the order of an object's fields is
--   that in which the source writes them. Logs.antt is what db.rs hides in the log.
-- Security.antt is the hashing of passwords of security.rs.
-- Access is apps/console/src-tauri/src/commands/auth.rs (Access/Sessions.antt, Access/Login.antt)
--   and commands/access.rs (Access/Payload.antt, Access/Policy.antt, Access/Profiles.antt,
--   Access/Users.antt, Access/Save.antt), with their statements in Access/Rows.antt and
--   Access/Statements.antt. A command starts with the paths of the application and the
--   connection; a part that follows a check or a `match` is a function of its own
--   (`start_session`, `accept_session`, `check_user`, `write_user`, `delete_as`).
--
-- Company is apps/console/src-tauri/src/commands/companies.rs: its readers of payloads
--   (Company/Payload.antt), documents and registrations (Company/Document.antt), saving and
--   deleting (Company/Save.antt), the limit of requests and the cache (Company/Limiter.antt), the
--   parsers of the services' answers (Company/Answers.antt) and the lookups
--   (Company/Lookup.antt, Company/Lookup/Steps.antt). A `HashMap` is the list of its entries,
--   and times are seconds as natural numbers. The static runtime of the lookups is part of the
--   environment: a block that holds its lock is one step, and a request may change it as other
--   lookups do meanwhile. HTTP, the JSON parser and the lock are operations of the record `Services`.
-- Entity is the second half of commands/entities.rs beside it: the commands that send texts of
--   SQL with parameters to a database provider, which is the record `Provider` of operations, as
--   the trait of src/core/database/provider is one. Entity/Definitions.antt has the tables that
--   they may touch, Entity/Sql.antt the texts.
--
-- Not modelled: the listings of users, profiles and companies, the labels of the permissions, the
--   console's other commands (the older half of entities.rs, licences, settings), its web
--   servers, the command line, the encryption of secrets, the tunnel crates and services
--   under crates/ and services/, and what is not Rust.
--
-- Texts are the native ones, points in time are integers, `u32` and `usize` are natural numbers.
pub mod Prelude
pub mod License
pub mod WebSocket
pub mod NetBind
pub mod Value
pub mod Logs
pub mod Database
pub mod Access
pub mod Security
pub mod Company
pub mod Entity
