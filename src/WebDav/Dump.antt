-- ===== src/WebDav/Dump.antt =====
-- Dumping a repository and loading a dump (dsvn-webdav/src/dump_handlers.rs).
pub mod Params
pub mod Md5
pub mod Props
pub mod Write
pub mod Read
pub mod Load
pub mod Headers
pub mod Steps
pub mod Nodes
pub mod FileNode
pub mod RevisionRecord
pub mod Stream
