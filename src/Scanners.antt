-- ===== src/Scanners.antt =====
-- The scanners for fixed words of src/AmmServerlib/stringscanners, one child each.
pub mod Words
pub mod HttpHeader
pub mod TextFiles
pub mod ImageFiles
pub mod VideoFiles
pub mod AudioFiles
pub mod ApplicationFiles
pub mod ArchiveFiles
pub mod PostHeader
pub mod FirstLines
mod Examples
