-- ===== src/Mlfq/Calls.antt =====
-- The system calls `sys_startlog`, `sys_getlog` and `sys_nice` of
-- XV6 Multilevel feedback queue/xv6-riscv/kernel/proc.c.
pub mod Nice
use cs.Common.{ℕ, Bool, true, ◌&&◌, not, Option, none, some, ◌==◌, if◌then◌else◌}
use cs.Common.Int.{ℤ, pos, negsuc, ltb_ℤ, ◌+ℤ◌}
use cs.Mlfq.Table.{remove_from_queue}
use cs.Mlfq.Kernel.{Proc, LogEntry, Kernel, set_proc}
use cs.Mlfq.Enqueue.{nice_above, enqueue}

-- `sys_startlog`; `none` stands for -1.
unfoldable pub sys_startlog : Kernel → Option ℕ × Kernel
sys_startlog k = if k.is_logging then (none, k) else (some 0, record k { is_logging = true })

-- `sys_getlog`; `copied` says whether `copyout` succeeds, and then the caller has the whole array.
unfoldable sys_getlog : (copied : Bool) → Kernel → Option (ℕ × (ℕ → LogEntry))
sys_getlog copied k = if copied then some (k.num_logged, k.schedlog) else none

-- The new nice value of `sys_nice`.
unfoldable pub clamp_nice : ℤ → ℤ
clamp_nice n =
    let n1 = if ltb_ℤ (pos 19) n then pos 19 else n in
    if ltb_ℤ n1 (negsuc 19) then negsuc 19 else n1

-- `tempQueue` of `sys_nice`; `none` stands for -1.
unfoldable pub temp_queue : Proc → Option ℕ
temp_queue p =
    if nice_above p (pos 10)
    then some 0
    else if ltb_ℤ p.nice (negsuc 9) && not (nice_above p (pos 10))
    then some 1
    else if not (nice_above p (negsuc 9))
    then some 2
    else none

abbrev pub is_level : Option ℕ → ℕ → Bool
is_level none i = Bool.false
is_level (some j) i = j == i

-- `sys_nice`, called by the running process `i`.
unfoldable pub sys_nice : ℕ → ℤ → Kernel → ℤ × Kernel
sys_nice i inc k =
    let p = k.procs i in
    let p' = record p { nice = clamp_nice (p.nice +ℤ inc) } in
    let k1 = set_proc k i p' in
    (
      p'.nice,
      if is_level (temp_queue p') p'.queue
          then k1
          else enqueue i (record k1 { qtable = remove_from_queue i k1.qtable }),
    )
