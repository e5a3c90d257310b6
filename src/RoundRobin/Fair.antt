-- ===== src/RoundRobin/Fair.antt =====
-- Bounded waiting in the round robin scheduler of XV6 Scheduler/xv6-riscv/kernel/proc.c.
use cs.Common.{
  Succeeds, IfSome, IfSome-map, subst, ◌≢◌, ◌||◌, ℕ, zero, suc, ◌+◌, ◌-◌, ◌<◌, ◌≤◌, ◌≡◌, refl, Bool,
  true, false, ◌⊎◌, inl, inr, none, some, ◌==◌, leb, if◌then◌else◌, arith, Bool-cases, Option-cases,
}
use cs.Mlfq.Table.{nproc}
use cs.Mlfq.Kernel.{is_runnable, cur_is}
use cs.RoundRobin.{Scheduler, scan, schedule, run, log_dispatch}

-- What the scan finds is a runnable process of the rest of the table.
pub record Found (k : Scheduler) (rest : ℕ) (j : ℕ) : Type 0 where
  pub from : nproc - rest ≤ j
  pub below : j < nproc
  pub ready : is_runnable (k.procs j).state ≡ true

pub scan-Found : (rest : ℕ) (k : Scheduler) → rest ≤ nproc → IfSome (Found k rest) (scan rest k)
unfolding scan
scan-Found zero k le = tt
scan-Found (suc rest) k le = elim (Bool-cases (is_runnable (k.procs (nproc - suc rest)).state)) [
  | inl now ↦ rw (now) (record { from = omega arith; below = omega (arith, le); ready = now })
  | inr later ↦ rw (later) (
      IfSome-map (scan rest k)
        (λ j f. record { from = omega (arith, f.from); below = f.below; ready = f.ready })
        (scan-Found rest k (omega (arith, le))))
]

-- It finds one that does not stand behind a given runnable process.
scan_first :
    (rest : ℕ) (k : Scheduler) (i : ℕ)
    → rest ≤ nproc
    → nproc - rest ≤ i
    → i < nproc
    → is_runnable (k.procs i).state ≡ true
    → Succeeds (λ j. j ≤ i) (scan rest k)
unfolding scan
scan_first zero k i le from lt r = absurd (omega (arith, from, lt))
scan_first (suc rest) k i le from lt r =
    elim (Bool-cases (is_runnable (k.procs (nproc - suc rest)).state)) [
      | inl now ↦ rw (now) from
      | inr later ↦
          let ne : nproc - suc rest ≢ i = λ e.
            absurd
              (ground (arith, subst (λ n. is_runnable (k.procs n).state ≡ false) e later, r)) in
          rw (later) (scan_first rest k i (omega (arith, le)) (omega (arith, le, from, ne)) lt r)
    ]

-- An upper bound of the rounds before the one that chooses process `i`, from place `at` on: at most
-- `nproc` for places in the table.
abbrev turns : (at i : ℕ) → ℕ
turns at i = if leb at i then i - at else nproc + 1 + i - at

-- Whether process `i` is chosen in one of the first `n` rounds. `others` is what happens between two
-- rounds: the chosen process runs and gives up the CPU, and interrupts change other processes.
pub runs_within : (n at i : ℕ) → (others : Scheduler → Scheduler) → Scheduler → Bool
runs_within zero at i others k = false
runs_within (suc n) at i others k =
    let (at', k') = schedule at k in
    let later = runs_within n at' i others (others k') in cur_is (scan (nproc - at) k) i || later

-- One round: the process is chosen, or it stays as it is and its turn comes nearer.
record Nearer (at i : ℕ) (k : Scheduler) (at' : ℕ) (k' : Scheduler) : Type 0 where
  place : at' ≤ nproc
  nearer : turns at' i < turns at i
  still : is_runnable (k'.procs i).state ≡ true

run-others : (i j : ℕ) (k : Scheduler) → (j == i) ≡ false → (run j k).procs i ≡ k.procs i
unfolding run log_dispatch
run-others i j k ne = ground arith

schedule-none : (at : ℕ) (k : Scheduler) → scan (nproc - at) k ≡ none → schedule at k ≡ (0, k)
unfolding schedule
schedule-none at k e = rw (e, schedule) refl

schedule-some :
    (at j : ℕ) (k : Scheduler) → scan (nproc - at) k ≡ some j → schedule at k ≡ (j + 1, run j k)
unfolding schedule
schedule-some at j k e = rw (e, schedule) refl

schedule-Nearer :
    (at i : ℕ) (k : Scheduler)
    → at ≤ nproc
    → i < nproc
    → is_runnable (k.procs i).state ≡ true
    → (cur_is (scan (nproc - at) k) i ≡ true) ⊎ Nearer at i k (schedule at k).0 (schedule at k).1
schedule-Nearer at i k place lt r =
    let first : leb at i ≡ true → Succeeds (λ j. j ≤ i) (scan (nproc - at) k) =
      λ le. scan_first (nproc - at) k i (omega arith) (ground (arith, le)) lt r in
    elim (Option-cases (scan (nproc - at) k)) [
      | inl e ↦
          rw (e, schedule-none at k e)
            (inr (record {
              place = omega arith;
              nearer = elim (Bool-cases (leb at i)) [
                | inl le ↦ absurd (subst (Succeeds (λ j. j ≤ i)) e (first le))
                | inr gt ↦ ground (arith, gt)
              ];
              still = r;
            }))
      | inr (j, e) ↦
          let f : Found k (nproc - at) j =
            subst (IfSome (Found k (nproc - at))) e (scan-Found (nproc - at) k (omega arith)) in
          elim (Bool-cases (j == i)) [
            | inl same ↦ inl (rw (e) same)
            | inr other ↦
                rw (e, schedule-some at j k e)
                  (inr (record {
                    place = omega (arith, f.below);
                    nearer = elim (Bool-cases (leb at i)) [
                      | inl le ↦
                          let near : j ≤ i = subst (Succeeds (λ j. j ≤ i)) e (first le) in
                          ground (arith, le, near, other, f.from)
                      | inr gt ↦ ground (arith, gt, f.from)
                    ];
                    still = rw (run-others i j k other) r;
                  }))
          ]
    ]

-- Bounded waiting: a runnable process is chosen within any number of rounds above `turns`, whatever
-- happens between the rounds that leaves it runnable.
pub runs_within-turns :
    (others : Scheduler → Scheduler) (i : ℕ)
    → ((k : Scheduler)
        → is_runnable (k.procs i).state ≡ true
        → is_runnable ((others k).procs i).state ≡ true)
    → i < nproc
    → (n at : ℕ) (k : Scheduler) → at ≤ nproc
    → is_runnable (k.procs i).state ≡ true
    → turns at i < n
    → runs_within n at i others k ≡ true
unfolding runs_within
runs_within-turns others i keeps lt zero at k place r enough = absurd (omega (arith, enough))
runs_within-turns others i keeps lt (suc n) at k place r enough =
    elim (schedule-Nearer at i k place lt r) [
      | inl now ↦ ground (arith, now)
      | inr near ↦ ground (
        arith,
        runs_within-turns others i keeps lt n (schedule at k).0 (others (schedule at k).1)
            near.place (keeps _ near.still) (omega (arith, near.nearer, enough)),
      )
    ]
