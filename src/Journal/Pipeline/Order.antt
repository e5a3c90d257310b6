-- ===== src/Journal/Pipeline/Order.antt =====
-- In which order the calls of Metadata journaling service/journal.c reach the disk, who holds the
-- lock, and that the pipeline ends only when every request is complete.
use cs.Common.{
  ◌+◌, ◌≤◌, ◌≡◌, refl, ◌∙◌, sym, ap, List, [], ◌∷◌, ◌++◌, length, length-append, append-nil,
  append_assoc, arith, ◌⊎◌, inl, inr,
}
use cs.Journal.Ring.{Request, buffer_size}
use cs.Journal.Pipeline.{
  Stage, Last, Client, System, Outcome, journal_events, checkpoint_events, write_step, commit_step,
  checkpoint_step, request_step, Thread, step,
}
use cs.Journal.Pipeline.Inv.{
  Lists, Inv, held, flat, journal_part, checkpoint_part, commits, completions, client_locks,
  writer_locks, committer_locks, last_locks, pending,
}
use cs.Journal.Pipeline.Safety.{Reach, Reach-Inv}

-- At every moment the requests fall into four runs, in the order in which they were made: the
-- metadata of the first run has gone to its place, that of the second is committed, that of the
-- third is journalled, and nothing was done for the fourth. The calls made so far are exactly those,
-- each in order, and no more completions than checkpoints have been reported.
pub write_ahead :
    {rs : List Request} {s : System}
    → Reach rs s
    → (checkpointed committed journalled waiting : List Request) × (rs
        ≡ checkpointed ++ (committed ++ (journalled ++ waiting)))
      × (journal_part s.trace ≡ flat journal_events (checkpointed ++ (committed ++ journalled)))
      × (commits s.trace ≡ length checkpointed + length committed)
      × (checkpoint_part s.trace ≡ flat checkpoint_events checkpointed)
      × (completions s.trace ≤ length checkpointed)
write_ahead {s = s} r =
    let (l, v) = Reach-Inv r in
    (
      l.checkpointed,
      l.committed ++ held s.committer,
      l.journalled ++ held s.writer,
      l.requested ++ pending s.client s.todo,
      sym v.flow ∙ simp append_assoc,
      v.journals ∙ ap (flat journal_events) (simp append_assoc),
      omega (arith, v.commit_count, length-append l.committed (held s.committer)),
      v.checkpoints,
      omega (arith, v.complete_count),
    )

-- At most one thread is between its wait for the lock and its release of it, and each buffer counts
-- at most eight requests.
pub mutual_exclusion :
    {rs : List Request} {s : System}
    → Reach rs s
    → (client_locks s.client
          + writer_locks s.writer
          + committer_locks s.committer
          + last_locks s.checkpointer
        ≤ 1)
      × (s.requests.size ≤ buffer_size)
      × (s.meta.size ≤ buffer_size)
      × (s.completed.size ≤ buffer_size)
mutual_exclusion r =
    let (l, v) = Reach-Inv r in
    (
      omega (arith, v.counts.lock),
      omega (arith, v.ring1.size_eq, v.ring1.fits),
      omega (arith, v.ring2.size_eq, v.ring2.fits),
      omega (arith, v.ring3.size_eq, v.ring3.fits),
    )

module _ (s : System) where
  write_blocked :
      (st : Stage)
      → write_step st s ≡ Outcome.blocked
      → (writer_locks st ≡ 0)
        × (s.mutex ≡ 1
            → ((st ≡ Stage.await_item) × (s.requests_items ≡ 0))
              ⊎ ((wr : Request) × (st ≡ Stage.await_space wr) × (s.meta_space ≡ 0)))
  unfolding write_step
  write_blocked Stage.await_item h = (refl, λ m. inl (refl, ground arith))
  write_blocked Stage.await_lock h = (refl, λ m. ground arith)
  write_blocked Stage.take h = ground arith
  write_blocked (Stage.await_space wr) h = (refl, λ m. inr (wr, refl, ground arith))
  write_blocked (Stage.await_put wr) h = (refl, λ m. ground arith)
  write_blocked _ h = cc

  commit_blocked :
      (st : Stage)
      → commit_step st s ≡ Outcome.blocked
      → (committer_locks st ≡ 0)
        × (s.mutex ≡ 1
            → ((st ≡ Stage.await_item) × (s.meta_items ≡ 0))
              ⊎ ((wr : Request) × (st ≡ Stage.await_space wr) × (s.completed_space ≡ 0)))
  unfolding commit_step
  commit_blocked Stage.await_item h = (refl, λ m. inl (refl, ground arith))
  commit_blocked Stage.await_lock h = (refl, λ m. ground arith)
  commit_blocked Stage.take h = ground arith
  commit_blocked (Stage.await_space wr) h = (refl, λ m. inr (wr, refl, ground arith))
  commit_blocked (Stage.await_put wr) h = (refl, λ m. ground arith)
  commit_blocked _ h = cc

  checkpoint_blocked :
      (st : Last)
      → checkpoint_step st s ≡ Outcome.blocked
      → (last_locks st ≡ 0) × (s.mutex ≡ 1 → (st ≡ Last.await_item) × (s.completed_items ≡ 0))
  unfolding checkpoint_step
  checkpoint_blocked Last.await_item h = (refl, λ m. (refl, ground arith))
  checkpoint_blocked Last.await_lock h = (refl, λ m. ground arith)
  checkpoint_blocked Last.take h = ground arith
  checkpoint_blocked _ h = cc

  request_blocked :
      (c : Client) (todo : List Request)
      → request_step c todo s ≡ Outcome.blocked
      → (todo ≡ [])
        ⊎ ((client_locks c ≡ 0) × (s.mutex ≡ 1 → (c ≡ Client.await_space) × (s.requests_space ≡ 0)))
  unfolding request_step
  request_blocked c [] h = inl refl
  request_blocked Client.await_space (wr ∷ rest) h = inr (refl, λ m. (refl, ground arith))
  request_blocked Client.await_lock (wr ∷ rest) h = inr (refl, λ m. ground arith)
  request_blocked _ (wr ∷ rest) h = cc

nil_of_length : (xs : List Request) → length xs ≡ 0 → xs ≡ []
nil_of_length [] h = refl
nil_of_length (x ∷ xs) h = absurd (omega arith)

module _ {rs : List Request} {s : System} {l : Lists} (v : Inv rs s l)
    (stuck : (th : Thread) → step th s ≡ Outcome.blocked) where
  client_free : client_locks s.client ≡ 0
  unfolding step
  client_free =
      ground (arith, request_blocked s s.client s.todo (stuck Thread.file_system), v.counts)

  unlocked : s.mutex ≡ 1
  unfolding step
  unlocked = omega (
    arith,
    v.counts.lock,
    client_free,
    (write_blocked s s.writer (stuck Thread.meta_data_write)).0,
    (commit_blocked s s.committer (stuck Thread.journal_commit)).0,
    (checkpoint_blocked s s.checkpointer (stuck Thread.journal_commit_complete)).0,
  )

  last_idle : (s.checkpointer ≡ Last.await_item) × (s.completed_items ≡ 0)
  unfolding step
  last_idle =
      (checkpoint_blocked s s.checkpointer (stuck Thread.journal_commit_complete)).1 unlocked

  committer_idle : (s.committer ≡ Stage.await_item) × (length l.committed ≡ 0) × (s.meta_items ≡ 0)
  unfolding step
  committer_idle = elim ((commit_blocked s s.committer (stuck Thread.journal_commit)).1 unlocked) [
    | inl (at, none_left) ↦ (at, ground (arith, last_idle, v.counts.items3), none_left)
    | inr (wr, at, full) ↦ ground (arith, last_idle, v.counts.items3, v.counts.space3)
  ]

  writer_idle : (s.writer ≡ Stage.await_item) × (length l.journalled ≡ 0) × (s.requests_items ≡ 0)
  unfolding step
  writer_idle = elim ((write_blocked s s.writer (stuck Thread.meta_data_write)).1 unlocked) [
    | inl (at, none_left) ↦ (at, ground (arith, committer_idle, v.counts.items2), none_left)
    | inr (wr, at, full) ↦ ground (arith, committer_idle, v.counts.items2, v.counts.space2)
  ]

  client_idle : (s.todo ≡ []) × (length l.requested ≡ 0)
  unfolding step
  client_idle = ground (
    arith,
    request_blocked s s.client s.todo (stuck Thread.file_system),
    unlocked,
    writer_idle,
    v.counts,
  )

  client_at_rest : s.client ≡ Client.await_space
  client_at_rest = ground (arith, client_idle, v.counts.calls)

  all_checkpointed : l.checkpointed ≡ rs
  all_checkpointed =
      sym (append-nil (l.checkpointed ++ []) ∙ append-nil l.checkpointed)
      ∙ (rw
          (
            writer_idle.0,
            committer_idle.0,
            client_at_rest,
            client_idle.0,
            nil_of_length l.requested client_idle.1,
            nil_of_length l.journalled writer_idle.1,
            nil_of_length l.committed committer_idle.1,
          )
          at v.flow)

-- The pipeline does not deadlock: when no thread can take a step, every request was handed over,
-- its metadata has gone to its place, in order, and its completion was reported.
pub stuck_means_complete :
    {rs : List Request} {s : System}
    → Reach rs s
    → ((th : Thread) → step th s ≡ Outcome.blocked)
    → (s.todo ≡ [])
      × (checkpoint_part s.trace ≡ flat checkpoint_events rs)
      × (commits s.trace ≡ length rs)
      × (completions s.trace ≡ length rs)
stuck_means_complete {rs} {s} r stuck =
    let (l, v) = Reach-Inv r in
    (
      (client_idle v stuck).0,
      v.checkpoints ∙ ap (flat checkpoint_events) (all_checkpointed v stuck),
      ground (
        arith,
        v.commit_count,
        committer_idle v stuck,
        ap (length {A = Request}) (all_checkpointed v stuck),
      ),
      ground (
        arith,
        v.complete_count,
        last_idle v stuck,
        ap (length {A = Request}) (all_checkpointed v stuck),
      ),
    )
