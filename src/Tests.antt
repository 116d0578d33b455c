-- ===== src/Tests.antt =====
-- Concrete runs of the modelled functions, and the theorems at concrete inputs.
mod Data
mod Paths
mod Registry
mod Traffic
mod Exchange
mod Devices
mod NvmePaths
mod NvmeReset
mod Attempts
mod Resets
mod Systems
mod Qpairs
