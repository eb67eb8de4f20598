-- ===== src/Tests.antt =====
-- Runs of the code at small inputs, and the theorems applied to them.
mod Apic
mod Devfs
mod Nvme
mod Memory
mod Pmm
mod Vmm
mod Mmap
mod Slab
mod Sched
mod Text
mod Ramfs
mod Ext2
mod Containers
mod Vfs
mod Fd
mod Tty
mod Inodes
