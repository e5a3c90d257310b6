-- ===== src/Journal/Pipeline/Safety.antt =====
-- No step of the threads of Metadata journaling service/journal.c breaks the invariant or follows a
-- null pointer.
use cs.Common.{ℕ, zero, suc, ◌≡◌, ◌≢◌, refl, List, [], ◌∷◌, arith, subst}
use cs.Journal.Ring.{Request}
use cs.Journal.Ring.Fifo.{dequeue_lem, zero_ring-IsRing}
use cs.Journal.Pipeline.{
  Stage, Last, Client, System, Outcome, sem_wait, write_step, commit_step, checkpoint_step,
  request_step, Thread, step, init_journal,
}
use cs.Journal.Pipeline.Inv.{Lists, Inv}
use cs.Journal.Pipeline.Keeps.{
  nonempty, write_take-Inv, write_put-Inv, commit_take-Inv, commit_put-Inv, checkpoint_take-Inv,
  complete-Inv, request_put-Inv,
}

-- The outcome of a step: it is no crash, and where it leads the invariant holds.
abbrev Fine : List Request → Outcome → Type 0
Fine rs Outcome.blocked = Unit
Fine rs Outcome.crashed = ⊥
Fine rs (Outcome.moved s) = (l : Lists) × Inv rs s l

-- A wait is fine if what follows it is.
wait-Fine :
    (rs : List Request) (n : ℕ) (go : ℕ → System)
    → ((m : ℕ) → n ≡ suc m → Fine rs (Outcome.moved (go m)))
    → Fine rs (sem_wait n go)
wait-Fine rs zero go h = tt
wait-Fine rs (suc m) go h = h m refl

module _ (rs : List Request) (s : System) (l : Lists) (v : Inv rs s l) where
  write_step-Fine : (st : Stage) → s.writer ≡ st → Fine rs (write_step st s)
  unfolding write_step
  write_step-Fine Stage.await_item at = wait-Fine rs _ _ (λ m e. (l, ground arith))
  write_step-Fine Stage.await_lock at = wait-Fine rs _ _ (λ m e. (l, ground arith))
  write_step-Fine Stage.take at =
      let (wr, rest, e) = nonempty l.requested (ground arith) in
      rw ((dequeue_lem wr rest (rw e at v.ring1)).0, write_step)
        (_, write_take-Inv rs s l v at wr rest e)
  write_step-Fine (Stage.unlock wr) at = (l, ground arith)
  write_step-Fine (Stage.post_space wr) at = (l, ground arith)
  write_step-Fine (Stage.await_space wr) at = wait-Fine rs _ _ (λ m e. (l, ground arith))
  write_step-Fine (Stage.await_put wr) at = wait-Fine rs _ _ (λ m e. (l, ground arith))
  write_step-Fine (Stage.put wr) at = (_, write_put-Inv rs s l v wr at)
  write_step-Fine Stage.post_first at = (l, ground arith)
  write_step-Fine Stage.post_second at = (l, ground arith)

  commit_step-Fine : (st : Stage) → s.committer ≡ st → Fine rs (commit_step st s)
  unfolding commit_step
  commit_step-Fine Stage.await_item at = wait-Fine rs _ _ (λ m e. (l, ground arith))
  commit_step-Fine Stage.await_lock at = wait-Fine rs _ _ (λ m e. (l, ground arith))
  commit_step-Fine Stage.take at =
      let (wr, rest, e) = nonempty l.journalled (ground arith) in
      rw ((dequeue_lem wr rest (rw e at v.ring2)).0, commit_step)
        (_, commit_take-Inv rs s l v at wr rest e)
  commit_step-Fine (Stage.unlock wr) at = (l, ground arith)
  commit_step-Fine (Stage.post_space wr) at = (l, ground arith)
  commit_step-Fine (Stage.await_space wr) at = wait-Fine rs _ _ (λ m e. (l, ground arith))
  commit_step-Fine (Stage.await_put wr) at = wait-Fine rs _ _ (λ m e. (l, ground arith))
  commit_step-Fine (Stage.put wr) at = (_, commit_put-Inv rs s l v wr at)
  commit_step-Fine Stage.post_first at = (l, ground arith)
  commit_step-Fine Stage.post_second at = (l, ground arith)

  checkpoint_step-Fine : (st : Last) → s.checkpointer ≡ st → Fine rs (checkpoint_step st s)
  unfolding checkpoint_step
  checkpoint_step-Fine Last.await_item at = wait-Fine rs _ _ (λ m e. (l, ground arith))
  checkpoint_step-Fine Last.await_lock at = wait-Fine rs _ _ (λ m e. (l, ground arith))
  checkpoint_step-Fine Last.take at =
      let (wr, rest, e) = nonempty l.committed (ground arith) in
      rw ((dequeue_lem wr rest (rw e at v.ring3)).0, checkpoint_step)
        (_, checkpoint_take-Inv rs s l v at wr rest e)
  checkpoint_step-Fine Last.unlock at = (l, ground arith)
  checkpoint_step-Fine Last.post_space at = (l, ground arith)
  checkpoint_step-Fine Last.complete at = (_, complete-Inv rs s l v at)

  request_step-Fine :
      (c : Client) (todo : List Request)
      → s.client ≡ c
      → s.todo ≡ todo
      → Fine rs (request_step c todo s)
  unfolding request_step
  request_step-Fine c [] at e = tt
  request_step-Fine Client.await_space (wr ∷ rest) at e =
      wait-Fine rs _ _ (λ m e'. (l, ground arith))
  request_step-Fine Client.await_lock (wr ∷ rest) at e =
      wait-Fine rs _ _ (λ m e'. (l, ground arith))
  request_step-Fine Client.put (wr ∷ rest) at e = (_, request_put-Inv rs s l v at wr rest e)
  request_step-Fine Client.unlock (wr ∷ rest) at e = (l, ground arith)
  request_step-Fine Client.post_item (wr ∷ rest) at e = (l, ground arith)

  pub step-Fine : (th : Thread) → Fine rs (step th s)
  unfolding step
  step-Fine Thread.file_system = request_step-Fine s.client s.todo refl refl
  step-Fine Thread.meta_data_write = write_step-Fine s.writer refl
  step-Fine Thread.journal_commit = commit_step-Fine s.committer refl
  step-Fine Thread.journal_commit_complete = checkpoint_step-Fine s.checkpointer refl

-- The states that the threads can reach, in any order of their steps.
pub data Reach (rs : List Request) : System → Type 0 where
  start : Reach rs (init_journal rs)
  next : {s s' : System} (th : Thread) → Reach rs s → step th s ≡ Outcome.moved s' → Reach rs s'

init_journal-Inv :
    (rs : List Request)
    → Inv rs
        (init_journal rs)
        (record { requested = []; journalled = []; committed = []; checkpointed = [] })
unfolding init_journal
init_journal-Inv rs = record {
  counts = omega arith;
  ring1 = zero_ring-IsRing;
  ring2 = zero_ring-IsRing;
  ring3 = zero_ring-IsRing;
  flow = refl;
  journals = refl;
  commit_count = refl;
  checkpoints = refl;
  complete_count = refl;
}

pub Reach-Inv : {rs : List Request} {s : System} → Reach rs s → (l : Lists) × Inv rs s l
Reach-Inv {rs} start = (_, init_journal-Inv rs)
Reach-Inv {rs} (next {s} th r e) =
    let (l, v) = Reach-Inv r in subst (Fine rs) e (step-Fine rs s l v th)

-- No thread ever takes a request from an empty buffer.
never_crashes :
    {rs : List Request} {s : System} → Reach rs s → (th : Thread) → step th s ≢ Outcome.crashed
never_crashes {rs} {s} r th e =
    let (l, v) = Reach-Inv r in subst (Fine rs) e (step-Fine rs s l v th)
