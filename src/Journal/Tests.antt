-- ===== src/Journal/Tests.antt =====
-- The theorems about Metadata journaling service at concrete inputs.
use cs.Common.{ℕ, zero, suc, ◌+◌, ◌≤◌, ◌≡◌, refl, List, [], ◌∷◌, ◌++◌, length, arith}
use cs.Journal.Ring.{Request, buffer_size, enqueue, dequeue, zero_ring}
use cs.Journal.Ring.Fifo.{IsRing, enqueue_lem, zero_ring-IsRing}
use cs.Journal.Pipeline.{
  Stage, System, Outcome, Thread, step, request_step, write_step, commit_step, checkpoint_step,
  init_journal, journal_events, checkpoint_events,
}
use cs.Journal.Pipeline.Inv.{
  flat, journal_part, checkpoint_part, commits, completions, client_locks, writer_locks,
  committer_locks, last_locks,
}
use cs.Journal.Pipeline.Safety.{Reach, start, next}
use cs.Journal.Pipeline.Takes.{TakesNext, takes_next}
use cs.Journal.Pipeline.Order.{write_ahead, mutual_exclusion, stuck_means_complete}

abbrev wr : Request
wr = record {
  bitmap = 1;
  inode = 2;
  contents = 3;
  bitmap_idx = 100;
  inode_idx = 200;
  contents_idx = 300;
}

one-IsRing : IsRing (enqueue zero_ring wr) (wr ∷ [])
one-IsRing = enqueue_lem zero_ring-IsRing (omega arith) wr

-- A run of the threads in a given order; a thread that is blocked is passed over.
record Run (rs : List Request) : Type 0 where
  last : System
  reach : Reach rs last

turn : {rs : List Request} (r : Run rs) (th : Thread) (o : Outcome) → step th r.last ≡ o → Run rs
turn r th (Outcome.moved s) e = record { last = s; reach = next th r.reach e }
turn r th _ e = r

run : {rs : List Request} → Run rs → List Thread → Run rs
unfolding turn
run r [] = r
run r (th ∷ ths) = run (turn r th (step th r.last) refl) ths

abbrev times : ℕ → Thread → List Thread → List Thread
times zero th ths = ths
times (suc n) th ths = th ∷ times n th ths

-- The file system makes its request, and `metaDataWrite` takes it and journals it.
abbrev journalled : Run (wr ∷ [])
journalled =
    run (record { last = init_journal (wr ∷ []); reach = start })
      (times 5 Thread.file_system (times 3 Thread.meta_data_write []))

-- The whole way of the request.
abbrev finished : Run (wr ∷ [])
finished = run journalled (
    times 7 Thread.meta_data_write
      (times 10 Thread.journal_commit (times 6 Thread.journal_commit_complete [])))

-- `metaDataWrite` has the lock and is about to take the request.
abbrev about_to_take : Run (wr ∷ [])
about_to_take =
    run (record { last = init_journal (wr ∷ []); reach = start })
      (times 5 Thread.file_system (times 2 Thread.meta_data_write []))

takes_next_example : TakesNext (wr ∷ []) about_to_take.last
takes_next_example = takes_next about_to_take.reach

taking : about_to_take.last.writer ≡ Stage.take
unfolding run step request_step write_step init_journal
taking = refl

write_ahead_example :
    (checkpointed committed journalled' waiting : List Request) × (wr ∷ []
      ≡ checkpointed ++ (committed ++ (journalled' ++ waiting)))
    × (journal_part journalled.last.trace
        ≡ flat journal_events (checkpointed ++ (committed ++ journalled')))
    × (commits journalled.last.trace ≡ length checkpointed + length committed)
    × (checkpoint_part journalled.last.trace ≡ flat checkpoint_events checkpointed)
    × (completions journalled.last.trace ≤ length checkpointed)
unfolding run
write_ahead_example = write_ahead journalled.reach

mutual_exclusion_example :
    let s = journalled.last in
    (client_locks s.client
        + writer_locks s.writer
        + committer_locks s.committer
        + last_locks s.checkpointer
      ≤ 1)
    × (s.requests.size ≤ buffer_size)
    × (s.meta.size ≤ buffer_size)
    × (s.completed.size ≤ buffer_size)
unfolding run
mutual_exclusion_example = mutual_exclusion journalled.reach

finished_stuck : (th : Thread) → step th finished.last ≡ Outcome.blocked
unfolding run step request_step write_step commit_step checkpoint_step init_journal enqueue dequeue
finished_stuck Thread.file_system = refl
finished_stuck Thread.meta_data_write = refl
finished_stuck Thread.journal_commit = refl
finished_stuck Thread.journal_commit_complete = refl

stuck_means_complete_example :
    let s = finished.last in
    (s.todo ≡ [])
    × (checkpoint_part s.trace ≡ flat checkpoint_events (wr ∷ []))
    × (commits s.trace ≡ 1)
    × (completions s.trace ≡ 1)
unfolding run
stuck_means_complete_example = stuck_means_complete finished.reach finished_stuck
