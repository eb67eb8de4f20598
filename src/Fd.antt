-- ===== src/Fd.antt =====
-- The file descriptors and their system calls (kernel/fs/fd.hpp, kernel/fs/fd.cpp).
pub mod Table
pub mod Open
pub mod Calls
pub mod Indices
pub mod Errors
pub mod Offsets
pub mod Creation
