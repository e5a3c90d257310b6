-- ===== src/Mlfq.antt =====
-- The scheduler of XV6 Multilevel feedback queue/xv6-riscv/kernel/proc.c.
pub mod Table
pub mod Kernel
pub mod Enqueue
pub mod Dispatch
pub mod Sleep
pub mod Life
pub mod Trap
pub mod Calls
pub mod Invariant
pub mod System
mod Tests
