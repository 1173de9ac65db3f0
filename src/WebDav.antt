-- ===== src/WebDav.antt =====
-- The WebDAV server (the crate dsvn-webdav). Its handlers are functions of the state of the server
-- and the parts of a request that they read.
pub mod Xml
pub mod Svndiff
pub mod PropPatch
pub mod Transactions
pub mod Activities
pub mod Reads
pub mod Registry
pub mod Dump
pub mod SyncEndpoints
