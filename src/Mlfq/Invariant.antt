-- ===== src/Mlfq/Invariant.antt =====
-- What holds of the scheduler of XV6 Multilevel feedback queue/xv6-riscv/kernel/proc.c between its
-- operations: the processes in the queues are those that are runnable.
pub mod Defs
pub mod Enqueue
pub mod Wake
pub mod Dispatch
pub mod Boost
pub mod Life
