-- ===== src/Journal/Pipeline/Takes.antt =====
-- Which request each of the three threads of Metadata journaling service/journal.c takes from its buffer.
use cs.Common.{◌≡◌, refl, sym, ◌∙◌, List, [], ◌∷◌, ◌++◌, length, length-append, append_assoc, arith}
use cs.Journal.Ring.{Request, dequeue}
use cs.Journal.Ring.Fifo.{dequeue_lem}
use cs.Journal.Pipeline.{
  Event, Stage, Last, System, Outcome, emit, journal_events, checkpoint_events, write_step,
  commit_step, checkpoint_step, Thread, step,
}
use cs.Journal.Pipeline.Inv.{
  Lists, Inv, held, flat, journal_part, checkpoint_part, commits, pending, all_journalled,
}
use cs.Journal.Pipeline.Keeps.{nonempty}
use cs.Journal.Pipeline.Safety.{Reach, Reach-Inv}

-- The thread takes the request behind `before` and makes its calls for it.
pub record Takes (rs : List Request) (s : System) (th : Thread) (calls : Request → List Event)
    : Type 0 where
  pub before : List Request
  pub wr : Request
  pub after : List Request
  pub whole : before ++ wr ∷ after ≡ rs
  pub result : System
  pub taken : step th s ≡ Outcome.moved result
  pub called : result.trace ≡ s.trace ++ calls wr

-- The first thread journals the request behind those whose journal entries were issued; the second
-- commits the one behind those that were committed, and the third checkpoints the one behind those that
-- were checkpointed.
abbrev pub TakesNext : List Request → System → Type 0
TakesNext rs s =
    (s.writer ≡ Stage.take
      → (t : Takes rs s Thread.meta_data_write journal_events) × (journal_part s.trace
          ≡ flat journal_events t.before)
        × (t.result.writer ≡ Stage.unlock t.wr))
    × (s.committer ≡ Stage.take
        → (t : Takes rs s Thread.journal_commit (λ wr. Event.journal_txe ∷ [])) × (commits s.trace
            ≡ length t.before)
          × (t.result.committer ≡ Stage.unlock t.wr))
    × (s.checkpointer ≡ Last.take
        → (t : Takes rs s Thread.journal_commit_complete checkpoint_events) × (checkpoint_part
              s.trace
            ≡ flat checkpoint_events t.before)
          × (t.result.checkpointer ≡ Last.unlock))

committed_split :
    (a b c d e : List Request) (wr : Request)
    → (a ++ b) ++ wr ∷ ((c ++ d) ++ e) ≡ (a ++ (b ++ wr ∷ (c ++ d))) ++ e
committed_split a b c d e wr = simp append_assoc

module _ (rs : List Request) (s : System) (l : Lists) (v : Inv rs s l) where
  writer-Takes :
      s.writer ≡ Stage.take
      → (t : Takes rs s Thread.meta_data_write journal_events) × (journal_part s.trace
          ≡ flat journal_events t.before)
        × (t.result.writer ≡ Stage.unlock t.wr)
  unfolding step write_step dequeue
  writer-Takes at =
      let (wr, rest, e) = nonempty l.requested (ground arith) in
      (
        record {
          before = all_journalled s l;
          wr = wr;
          after = rest ++ pending s.client s.todo;
          whole = rw e at v.flow;
          result =
              emit (journal_events wr)
                (record s { requests = (dequeue s.requests).1; writer = Stage.unlock wr });
          taken = rw (at, (dequeue_lem wr rest (rw e at v.ring1)).0) refl;
          called = refl;
        },
        v.journals,
        refl,
      )

  committer-Takes :
      s.committer ≡ Stage.take
      → (t : Takes rs s Thread.journal_commit (λ wr. Event.journal_txe ∷ [])) × (commits s.trace
          ≡ length t.before)
        × (t.result.committer ≡ Stage.unlock t.wr)
  unfolding step commit_step dequeue
  committer-Takes at =
      let (wr, rest, e) = nonempty l.journalled (ground arith) in
      (
        record {
          before = l.checkpointed ++ l.committed;
          wr = wr;
          after = (rest ++ held s.writer) ++ (l.requested ++ pending s.client s.todo);
          whole =
              committed_split l.checkpointed l.committed rest (held s.writer)
                (l.requested ++ pending s.client s.todo) wr
              ∙ rw (at, e) at v.flow;
          result =
              emit (Event.journal_txe ∷ [])
                (record s { meta = (dequeue s.meta).1; committer = Stage.unlock wr });
          taken = rw (at, (dequeue_lem wr rest (rw e at v.ring2)).0) refl;
          called = refl;
        },
        omega (arith, rw at at v.commit_count, length-append l.checkpointed l.committed),
        refl,
      )

  checkpointer-Takes :
      s.checkpointer ≡ Last.take
      → (t : Takes rs s Thread.journal_commit_complete checkpoint_events) × (checkpoint_part s.trace
          ≡ flat checkpoint_events t.before)
        × (t.result.checkpointer ≡ Last.unlock)
  unfolding step checkpoint_step dequeue
  checkpointer-Takes at =
      let (wr, rest, e) = nonempty l.committed (ground arith) in
      (
        record {
          before = l.checkpointed;
          wr = wr;
          after =
              (rest ++ (held s.committer ++ (l.journalled ++ held s.writer)))
              ++ (l.requested ++ pending s.client s.todo);
          whole =
              sym (
                append_assoc l.checkpointed
                  (wr ∷ (rest ++ (held s.committer ++ (l.journalled ++ held s.writer))))
                  (l.requested ++ pending s.client s.todo))
              ∙ rw e at v.flow;
          result =
              emit (checkpoint_events wr)
                (record s { completed = (dequeue s.completed).1; checkpointer = Last.unlock });
          taken = rw (at, (dequeue_lem wr rest (rw e at v.ring3)).0) refl;
          called = refl;
        },
        v.checkpoints,
        refl,
      )

-- A thread that is about to take a request never finds the buffer empty or a slot that it took before: in
-- every state that the threads reach, the first journals the next request in the order in which they were
-- handed over that is not journalled yet, the second commits the next that is not committed, and the third
-- checkpoints the next that is not checkpointed, each with the calls for that request.
pub takes_next : {rs : List Request} {s : System} → Reach rs s → TakesNext rs s
takes_next {rs} {s} r =
    let (l, v) = Reach-Inv r in
    (writer-Takes rs s l v, committer-Takes rs s l v, checkpointer-Takes rs s l v)
