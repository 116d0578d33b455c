-- ===== src/Nvme.antt =====
-- nvme/bdev_nvme.c, the NVMe bdev module as this repository patches it.
pub mod Paths
pub mod Reset
pub mod ResetIo
pub mod Retry
pub mod Io
pub mod Qpairs
