-- ===== src/Monitor.antt =====
-- Proyecto1/kernel-linux: the system calls of kernel/usac (syscall1.c to syscall3.c) and the module
-- modules/mem_and_cpu_info_202110206.c.
pub mod Snapshot
pub mod Track
pub mod Counting
pub mod IoStats
pub mod CpuInfo
mod Tests
