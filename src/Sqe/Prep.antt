-- ===== src/Sqe/Prep.antt =====
-- The `io_uring_prep_*` helpers of src/include/liburing.h, by what they work on.
pub mod File
pub mod Rw
pub mod Net
pub mod Event
pub mod Open
pub mod Path
pub mod Msg
pub mod Xattr
