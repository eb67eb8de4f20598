-- ===== src/Nvme.antt =====
-- The queues of commands of an NVMe device (kernel/drivers/nvme/nvme.hpp,
-- kernel/drivers/nvme/nvme.cpp).
pub mod Queue
pub mod Laps
pub mod Sync
pub mod Runs
