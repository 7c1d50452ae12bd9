-- ===== src/DropFs.antt =====
-- common/file_rpc/np_drop_fs.c: dropped files of the host as a FUSE file system of the guest. Requests are
-- handled one after the other.
pub mod State
pub mod Names
pub mod Table
pub mod Host
pub mod Lookup
pub mod Change
pub mod Attributes
pub mod OpenFiles
pub mod Listing
pub mod Dispatch
pub mod Attr
pub mod Paths
pub mod Valid
pub mod Kept
pub mod Inside
pub mod Handlers
pub mod Making
pub mod Reading
pub mod Listed
pub mod Handled
pub mod Renames
pub mod Removal
pub mod Sizes
pub mod Stable
mod Tests
