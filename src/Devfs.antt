-- ===== src/Devfs.antt =====
-- Partitions of mass storage devices and the files of the partitions (kernel/fs/devfs.hpp,
-- kernel/fs/devfs.cpp).
pub mod Partitions
pub mod Entries
pub mod Scan
