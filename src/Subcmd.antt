-- ===== src/Subcmd.antt =====
-- cmd/subcmd: the start of the server, and the commands that work on the file system while none runs.
pub mod Prune
pub mod ListCache
pub mod Serve
