-- ===== src/HttpTools.antt =====
-- src/AmmServerlib/tools/http_tools.c: the pure helpers on requests, paths and content types.
pub mod Base64
pub mod ContentType
pub mod Paths
pub mod Unescape
mod Examples
