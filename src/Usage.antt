-- ===== src/Usage.antt =====
-- Proyecto2/p2-kernel-linux/kernel/usac: the system calls that report memory use (pidstats.c,
-- pidstatsv2.c, globalstats.c) and the allocator (tamalloc.c).
pub mod PidStats
pub mod Score
pub mod Report
pub mod Global
pub mod Tamalloc
mod Tests
