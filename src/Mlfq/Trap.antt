-- ===== src/Mlfq/Trap.antt =====
-- The timer interrupt in XV6 Multilevel feedback queue/xv6-riscv/kernel/trap.c.
use cs.Common.{ℕ, ◌+◌, Option, some, if◌then◌else◌}
use cs.Common.Int.{negsuc}
use cs.Mlfq.Kernel.{is_running, Chan, Kernel}
use cs.Mlfq.Sleep.{wakeup, yield}
use cs.Mlfq.Life.{exit}

-- `clockintr`; `clock` is the address of `ticks`.
unfoldable pub clockintr : (clock : Chan) → Kernel → Kernel
clockintr clock k = wakeup clock (record k { ticks = k.ticks + 1 })

-- `usertrap` on a timer interrupt in user mode, with process `i` running.
unfoldable pub user_timer : ℕ → (clock : Chan) → Kernel → Option Kernel
user_timer i clock k =
    let k1 = clockintr clock k in
    if (k1.procs i).killed
    then exit i (negsuc 0) k1
    else some (yield i (record k1 { time = k1.time + 1 }))

-- `kerneltrap` on a timer interrupt while the kernel runs for process `i`.
unfoldable pub kernel_timer : ℕ → (clock : Chan) → Kernel → Kernel
kernel_timer i clock k =
    let k1 = clockintr clock k in
    let k2 = record k1 { time = k1.time + 1 } in
    if is_running (k2.procs i).state then yield i k2 else k2
