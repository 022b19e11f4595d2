-- ===== src/Abi.antt =====
-- The constants of the kernel interface and of the library, a child for each family.
pub mod Setup
pub mod Enter
pub mod Feat
pub mod Shared
pub mod IntFlag
pub mod Errno
pub mod Op
pub mod Register
pub mod Sqe
