-- ===== src/SleepLock/Exclusion.antt =====
-- Mutual exclusion by the sleep locks of sleeplock.c, for processes in any order of steps.
use cs.Common.{ℕ, ◌≡◌, refl, Bool, true, false, inl, inr, some, update, arith, Bool-cases}
use cs.SleepLock.{SleepLock, init_sleep_lock, acquire_sleep, release_sleep, holding_sleep}

-- A lock, and which processes are between `acquiresleep` and `releasesleep`, by pid.
pub record Users : Type 0 where
  pub lock : SleepLock
  pub inside : ℕ → Bool

-- One process goes in, or one that is inside goes out; a process that sleeps takes no step.
pub data Step : Users → Users → Type 0 where
  go_in :
      (pid : ℕ) {u : Users} {lk : SleepLock}
      → acquire_sleep pid u.lock ≡ some lk
      → Step u (record { lock = lk; inside = update u.inside pid true })
  go_out :
      (pid : ℕ) {u : Users}
      → u.inside pid ≡ true
      → Step u (record { lock = release_sleep u.lock; inside = update u.inside pid false })

pub data Reach : Users → Type 0 where
  start : Reach (record { lock = init_sleep_lock; inside = λ _. false })
  next : {u v : Users} → Reach u → Step u v → Reach v

acquired :
    (pid : ℕ) (l lk : SleepLock)
    → acquire_sleep pid l ≡ some lk
    → (l.locked ≡ false) × (lk ≡ record { locked = true; pid = pid })
unfolding acquire_sleep
acquired pid l lk e = elim (Bool-cases l.locked) [
  | inl busy ↦ absurd (ground (arith, e, busy))
  | inr free ↦ (free, ground (arith, e, free))
]

-- In every reachable state a process is inside exactly if `holdingsleep` says so.
holding_sleep-inside : {u : Users} → Reach u → (pid : ℕ) → holding_sleep pid u.lock ≡ u.inside pid
unfolding holding_sleep init_sleep_lock release_sleep
holding_sleep-inside start pid = refl
holding_sleep-inside (next {u} r (go_in p {lk = lk} e)) pid =
    let (free, got) = acquired p u.lock lk e in
    rw (got) (ground (arith, free, holding_sleep-inside r pid))
holding_sleep-inside (next {u} r (go_out p e)) pid =
    ground (arith, e, holding_sleep-inside r pid, holding_sleep-inside r p)

-- At most one process is inside.
exclusive : {u : Users} → Reach u → (p q : ℕ) → u.inside p ≡ true → u.inside q ≡ true → p ≡ q
unfolding holding_sleep
exclusive r p q a b = ground (arith, a, b, holding_sleep-inside r p, holding_sleep-inside r q)
