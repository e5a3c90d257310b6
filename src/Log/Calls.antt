-- ===== src/Log/Calls.antt =====
-- The operations of log.c that file system calls use, in every order: what each does to the space
-- that is reserved, and what holds of every state, crashes included.
use cs.Common.{
  Succeeds, IfSome, ℕ, suc, ◌+◌, ◌-◌, ◌*◌, ◌≡◌, refl, ◌∙◌, true, false, ◌⊎◌, inl, inr, List, [],
  ◌∷◌, ◌++◌, ltb, ◌==◌, if◌then◌else◌, update, length, has, Distinct, arith, Bool-cases, ==_iff,
}
use cs.Log.{LogState, finish_op, begin_op, end_op, log_capacity, max_op_blocks}
use cs.Log.Writes.{in_log}
use cs.Log.Crash.{unpin_all}
use cs.Log.Atomic.{commit-Committed}
use cs.Log.Space.{LogGood, total-middle, length-middle, total_bound, Small-middle, not-empty}

-- `begin_op` reserves the space for a whole call, or sleeps.
begin_op-LogGood :
    (left : List ℕ) (s : LogState)
    → LogGood left s
    → IfSome (LogGood (max_op_blocks ∷ left)) (begin_op s)
unfolding begin_op
begin_op-LogGood left s g =
    by_cases (Bool-cases s.committing)
      (Bool-cases (ltb log_capacity (length s.lh + (s.outstanding + 1) * max_op_blocks)))
  where
    by_cases :
        (s.committing ≡ true) ⊎ (s.committing ≡ false)
        → (ltb log_capacity (length s.lh + (s.outstanding + 1) * max_op_blocks) ≡ true)
          ⊎ (ltb log_capacity (length s.lh + (s.outstanding + 1) * max_op_blocks) ≡ false)
        → IfSome (LogGood (max_op_blocks ∷ left)) (begin_op s)
    by_cases (inl c) r = rw (c) tt
    by_cases (inr c) (inl r) = rw (c, r) tt
    by_cases (inr c) (inr r) =
        rw (c, r)
          (record {
            inv = record {
              home = g.inv.home;
              room = g.inv.room;
              empty = g.inv.empty;
              clean = g.inv.clean;
            };
            fits = g.fits;
            distinct = g.distinct;
            pinned = g.pinned;
            calls = omega (arith, g.calls);
            reserved = ground (arith, r, g.calls, total_bound left g.small);
            small = (omega arith, g.small);
            quiet = λ q. absurd (ground (arith, c, q));
          })

-- One call may write one block less, and the others keep their allowances.
module _ (xs : List ℕ) (n : ℕ) (ys : List ℕ) (s : LogState) (g : LogGood (xs ++ suc n ∷ ys) s)
    (b c : ℕ) (out : in_log s.start s.size b ≡ false) where
  changed : LogState
  changed = record s { view = update s.view b c }

no-calls : (ns : List ℕ) → length ns ≡ 0 → ns ≡ []
no-calls [] e = refl
no-calls (x ∷ ns) e = absurd (omega (arith, e))

-- `end_op` gives back what the call has left of its allowance; the last call commits.
end_op-LogGood :
    (xs : List ℕ) (n : ℕ) (ys : List ℕ) (s : LogState)
    → LogGood (xs ++ n ∷ ys) s
    → Succeeds (λ r. LogGood (xs ++ ys) r.1 × (r.0 ≡ r.1.committing)) (end_op s)
unfolding end_op
end_op-LogGood xs n ys s g =
    by_cases (Bool-cases s.committing) (Bool-cases (s.outstanding - 1 == 0))
  where
    by_cases :
        (s.committing ≡ true) ⊎ (s.committing ≡ false)
        → ((s.outstanding - 1 == 0) ≡ true) ⊎ ((s.outstanding - 1 == 0) ≡ false)
        → Succeeds (λ r. LogGood (xs ++ ys) r.1 × (r.0 ≡ r.1.committing)) (end_op s)
    by_cases (inl c) r = absurd (not-empty xs n ys (g.quiet c))
    by_cases (inr c) (inl r) =
        rw (c, r)
          (
            record {
              inv = record {
                home = g.inv.home;
                room = g.inv.room;
                empty = g.inv.empty;
                clean = g.inv.clean;
              };
              fits = g.fits;
              distinct = g.distinct;
              pinned = g.pinned;
              calls = omega (arith, g.calls, length-middle xs n ys);
              reserved = omega (arith, g.reserved, total-middle xs n ys);
              small = (Small-middle xs n ys g.small).1;
              quiet = λ q. no-calls (xs ++ ys) (ground (arith, r, g.calls, length-middle xs n ys));
            },
            refl,
          )
    by_cases (inr c) (inr r) =
        rw (c, r)
          (
            record {
              inv = record {
                home = g.inv.home;
                room = g.inv.room;
                empty = g.inv.empty;
                clean = g.inv.clean;
              };
              fits = g.fits;
              distinct = g.distinct;
              pinned = g.pinned;
              calls = omega (arith, g.calls, length-middle xs n ys);
              reserved = omega (arith, g.reserved, total-middle xs n ys);
              small = (Small-middle xs n ys g.small).1;
              quiet = λ q. absurd (ground (arith, c, q));
            },
            refl,
          )

unpin_all-pinned :
    (bs : List ℕ) (pins : ℕ → ℕ)
    → Distinct bs
    → ((b : ℕ) → pins b ≡ (if has b bs then 1 else 0))
    → (b : ℕ) → unpin_all bs pins b ≡ 0
unpin_all-pinned [] pins d p b = p b
unpin_all-pinned (x ∷ bs) pins d p b =
    unpin_all-pinned bs (update pins x (pins x - 1)) d.1
      (λ a. ground (arith, p a, p x, d.0, ==_iff x a)) b

-- The commit at the end of the last call keeps the invariant, drops all pins and lets calls begin
-- again.
finish_op-LogGood : (s : LogState) → LogGood [] s → LogGood [] (finish_op s)
unfolding finish_op
finish_op-LogGood s g =
    let c = commit-Committed g.inv in
    record {
      inv = record {
        home = c.inv.home;
        room = c.inv.room;
        empty = c.inv.empty;
        clean = c.inv.clean;
      };
      fits = omega (arith, c.size, g.fits);
      distinct = rw (c.lh) tt;
      pinned = λ b. rw (c.lh, c.pins) (unpin_all-pinned s.lh s.pins g.distinct g.pinned b);
      calls = c.calls ∙ g.calls;
      reserved = rw (c.lh) (omega arith);
      small = tt;
      quiet = λ q. refl;
    }
