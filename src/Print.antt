-- ===== src/Print.antt =====
-- Printing, in the kernel (XV6 Scheduler/xv6-riscv/kernel/printf.c) and in user programs
-- (XV6 Scheduler/xv6-riscv/user/printf.c). What is printed is the list of the bytes that `consputc`
-- or `putc` get; a string is the list of its bytes, without the NUL; an int is its 32-bit pattern.
pub mod Numbers
pub mod Format
pub mod Bounds
pub mod Numeral
pub mod Spec
pub mod Typed
pub mod Agree
mod Tests
