-- ===== src/Examples.antt =====
-- Concrete inputs: lossless codecs, a setting, repositories and files, and the theorems applied to
-- them.
mod Formats
mod Settings
mod Repositories
mod Histories
mod Packs
mod Access
mod Frames
mod Stores
mod Accounts
mod Syncs
mod Memories
mod Registries
mod Sessions
mod Texts
mod Dumps
