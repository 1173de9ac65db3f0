-- ===== src/Lib.antt =====
-- dsvn, a Subversion-compatible server over content-addressed storage, of which this library models
-- the crate dsvn-core and the handlers of the crate dsvn-webdav.
--
-- The parts, and the files that model them:
--   - the object model (dsvn-core/src/object.rs): Object. Blobs, trees, commits and delta trees are
--     records with the fields of the structs; an id is the SHA-256 of what is serialised.
--   - the repository (dsvn-core/src/sqlite_repository.rs): Sqlite. The struct SqliteRepository is
--     the record Repository of Sqlite/Repo: the two SQLite tables (Sqlite/Table), the files of its
--     directory (Sqlite/Files), `refs/head`, the current revision and the cache of reconstructed
--     trees (Sqlite/Cache). The operations that stage and commit are in Sqlite/Repo, those that
--     read, and `initialize`, in Sqlite/Read, and `get_tree_at_rev` in Sqlite/Reconstruct, over the
--     changes of Sqlite/Delta. Each keeps its name; `commit` and `commit_sync` share `commit_with`,
--     which collects the pending changes and calls the hooks (dsvn-core/src/hooks.rs: Hooks).
--   - packfiles (dsvn-core/src/packfile.rs): Packfile, with `PackReader::open` as `open_pack`.
--   - authorization (dsvn-core/src/authz.rs): Authz, and its file format in Authz/Parse.
--   - the replication protocol (dsvn-core/src/replication.rs): Replication.
--   - authentication (dsvn-core/src/auth.rs): Auth.
--   - the state and the log of a synchronisation (dsvn-core/src/sync.rs): Sync.
--   - the in-memory repository (dsvn-core/src/repository.rs): Memory. Its methods have the prefix
--     memory.
--   - tiered storage (dsvn-core/src/storage.rs): Storage. The methods of the three stores have the
--     prefixes hot, warm and tiered.
--   - the property stores (dsvn-core/src/properties.rs and `SqlitePropertyStore` of
--     dsvn-core/src/sqlite_repository.rs): Properties. Their methods have the prefixes set, store and
--     sqlite.
--   - the WebDAV server: WebDav. The state of dsvn-webdav/src/handlers.rs is the record Server of
--     WebDav/Transactions: the repository, its property store, the table of transactions and their
--     counter. The handlers that make, fill and commit transactions are in WebDav/Transactions, those
--     of activities in WebDav/Activities, GET and HEAD in WebDav/Reads, the texts of requests in
--     WebDav/Xml and `decode_svndiff` in WebDav/Svndiff. WebDav/PropPatch models
--     dsvn-webdav/src/proppatch.rs, and WebDav/Registry the registry of repositories with
--     dsvn-webdav/src/repo_management.rs. A request is its path and its body.
--     WebDav/Dump models dsvn-webdav/src/dump_handlers.rs: the parameters and the text of a dump
--     (Dump/Params, Props, Md5, Write), its parser (Dump/Read, Load) and `handle_load` (Dump/Load).
--     WebDav/SyncEndpoints models `handle_delta` of dsvn-webdav/src/sync_handlers.rs.
-- Prelude, Bytes, Text, Decimal, LittleEndian and SortedMap hold what the parts share: native
-- numbers, texts as lists of bytes, `str` and integer methods of the language's library, and maps
-- whose keys are sorted, with which hash maps, B-tree maps and tables with a primary key are
-- modelled. Examples applies the theorems to concrete inputs.
--
-- The specification of a repository is a history: a function from the revisions to trees. IsRepo
-- (Sqlite/Commit) says that the files, the cache, `refs/head` and the tables describe a history.
--
-- Parameters: `bincode`, SHA-256, `serde_json`, `zstd`, `hex`, bcrypt, SHA-1, base64, the LRU
-- cache, SQLite's LIKE, the dates of `chrono`, and how a hook script ends, each with its
-- documented behaviour as named hypotheses (IsLawful, IsCache, IsSound, IsZstd, IsRead, IsJson,
-- IsLossless). The long texts of answers, the clock, and how a repository is opened are arguments of
-- the handlers.
--
-- Fuel: the walk of `get_tree_at_rev` down the chain of deltas has one step for each revision
-- below, and the loop over the parents of a path one for each byte of the path. The loops over the
-- elements of a text and the windows of an svndiff document, each of which consumes a byte at least,
-- have one step for each byte.
--
-- Not modelled: the requests PROPFIND, REPORT and OPTIONS, the endpoints of
-- dsvn-webdav/src/sync_handlers.rs but `/sync/delta`, the persistent repositories, the crates
-- dsvn-admin-cli and dsvnsync-cli, failures of the disk and of SQLite, locks (each operation is
-- atomic under them), the migrations of old directories, other crates, and the network. Texts are
-- bytes; white space and case are taken of ASCII. Sums of the lengths that an svndiff document or a
-- dump names are not wrapped at 2 ^ 64.
pub mod Prelude
pub mod Bytes
pub mod SortedMap
pub mod Decimal
pub mod Hooks
pub mod Object
pub mod Sqlite
pub mod LittleEndian
pub mod Packfile
pub mod Text
pub mod Authz
pub mod Replication
pub mod Storage
pub mod Examples
pub mod Auth
pub mod Sync
pub mod Memory
pub mod Properties
pub mod WebDav
