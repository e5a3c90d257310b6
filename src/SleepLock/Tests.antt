-- ===== src/SleepLock/Tests.antt =====
-- The theorem about sleeplock.c on a run of two processes.
use cs.Common.{refl, true, false, update}
use cs.SleepLock.{acquire_sleep, init_sleep_lock, release_sleep}
use cs.SleepLock.Exclusion.{Users, go_in, go_out, Reach, start, next}

-- Process 3 goes in and out, and then process 5 goes in.
abbrev five_inside : Users
five_inside = record {
  lock = record { locked = true; pid = 5 };
  inside = update (update (update (λ _. false) 3 true) 3 false) 5 true;
}

five-Reach : Reach five_inside
unfolding acquire_sleep init_sleep_lock release_sleep
five-Reach =
    next (next (next start (go_in 3 {lk = record { locked = true; pid = 3 }} refl)) (go_out 3 refl))
      (go_in 5 {lk = record { locked = true; pid = 5 }} refl)
