-- ===== src/Log/Tests.antt =====
-- The theorems about log.c on concrete states.
use cs.Common.{◌≡◌, refl, true, ◌⊎◌, [], ◌∷◌, take, update, arith}
use cs.Log.{
  Disk, LogState, booted, initlog, commit, finish_op, begin_op, end_op, log_write, log_capacity,
  max_op_blocks,
}
use cs.Log.Writes.{replay}
use cs.Log.Commit.{LogInv, Agrees, crash_disk}
use cs.Log.Atomic.{Committed, commit-Committed, crash_atomic, recovery_crash, Logged}
use cs.Log.Space.{LogGood}

-- A log of 40 blocks from block 2 on, with nothing logged.
abbrev quiet_log : LogState
quiet_log = booted 2 40 (record { head = []; blocks = λ b. b })

-- The same while one call runs, which has changed block 50 to 7.
abbrev busy_log : LogState
busy_log = record quiet_log {
  outstanding = 1;
  lh = 50 ∷ [];
  view = update (λ b. b) 50 7;
  pins = update (λ _. 0) 50 1;
}

busy-LogInv : LogInv busy_log
busy-LogInv = record {
  home = (refl, tt);
  room = omega arith;
  empty = refl;
  clean = λ b out no. ground (arith, no);
}

busy-LogGood : LogGood (9 ∷ []) busy_log
busy-LogGood = record {
  inv = busy-LogInv;
  fits = omega arith;
  distinct = (refl, tt);
  pinned = λ b. ground arith;
  calls = refl;
  reserved = omega arith;
  small = (omega arith, tt);
  quiet = λ q. absurd (ground (arith, q));
}

abbrev ending_log : LogState
ending_log = record busy_log { outstanding = 0; committing = true }

ending-LogGood : LogGood [] ending_log
ending-LogGood = record {
  inv = record { home = (refl, tt); room = omega arith; empty = refl; clean = busy-LogInv.clean };
  fits = omega arith;
  distinct = (refl, tt);
  pinned = busy-LogGood.pinned;
  calls = refl;
  reserved = omega arith;
  small = tt;
  quiet = λ q. refl;
}

commit-Committed_example : Committed busy_log (commit busy_log)
commit-Committed_example = commit-Committed busy-LogInv

-- Two of the four writes of the commit are done: the log block and the header.
crash_atomic_example :
    let d = (initlog 2 40 (crash_disk 2 busy_log)).disk in
    Agrees 2 40 d busy_log.disk.blocks ⊎ Agrees 2 40 d busy_log.view
crash_atomic_example = crash_atomic busy-LogInv 2

-- A disk whose header names block 50, with 7 in the log for it.
abbrev committed_disk : Disk
committed_disk = record { head = 50 ∷ []; blocks = update (λ b. b) 3 7 }

committed-Logged : Logged 2 40 (50 ∷ []) (update (λ b. b) 50 7) committed_disk
committed-Logged = record {
  head = refl;
  slots = (refl, tt);
  rest = λ b out no. ground (arith, out, no);
}

recovery_crash_example :
    Agrees 2 40
      (initlog 2 40 (replay (take 1 (initlog 2 40 committed_disk).trace) committed_disk)).disk
      (update (λ b. b) 50 7)
recovery_crash_example =
    recovery_crash 2 40 committed_disk (update (λ b. b) 50 7) (omega arith) (refl, tt)
      committed-Logged 1

-- The commit of `busy_log` writes block 3, the header, block 50 and the header.
commit-trace : (commit busy_log).disk.blocks 50 ≡ 7
unfolding commit cs.Log.write_log cs.Log.write_log_from cs.Log.install_trans cs.Log.install_from
commit-trace = refl
