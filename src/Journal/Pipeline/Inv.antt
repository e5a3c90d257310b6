-- ===== src/Journal/Pipeline/Inv.antt =====
-- What holds of the threads of Metadata journaling service/journal.c between two steps.
use cs.Common.{ℕ, suc, ◌+◌, ◌≤◌, ◌≡◌, List, [], ◌∷◌, ◌++◌, length}
use cs.Journal.Ring.{Request}
use cs.Journal.Ring.Fifo.{IsRing}
use cs.Journal.Pipeline.{Event, Stage, Last, Client, System, journal_events, checkpoint_events}

-- The request that a thread holds between two buffers.
abbrev pub held : Stage → List Request
held (Stage.unlock wr) = wr ∷ []
held (Stage.post_space wr) = wr ∷ []
held (Stage.await_space wr) = wr ∷ []
held (Stage.await_put wr) = wr ∷ []
held (Stage.put wr) = wr ∷ []
held _ = []

-- The requests that are in no buffer yet.
abbrev pub pending : Client → List Request → List Request
pending Client.unlock (wr ∷ rest) = rest
pending Client.post_item (wr ∷ rest) = rest
pending _ rest = rest

-- 1 for a thread that holds the lock.
abbrev pub client_locks : Client → ℕ
client_locks Client.put = 1
client_locks Client.unlock = 1
client_locks _ = 0

abbrev pub writer_locks : Stage → ℕ
writer_locks Stage.take = 1
writer_locks (Stage.unlock _) = 1
writer_locks (Stage.put _) = 1
writer_locks Stage.post_first = 1
writer_locks Stage.post_second = 1
writer_locks _ = 0

abbrev pub committer_locks : Stage → ℕ
committer_locks Stage.take = 1
committer_locks (Stage.unlock _) = 1
committer_locks (Stage.put _) = 1
committer_locks Stage.post_first = 1
committer_locks _ = 0

abbrev pub last_locks : Last → ℕ
last_locks Last.take = 1
last_locks Last.unlock = 1
last_locks _ = 0

-- 1 for a thread that has taken a place in the buffer behind it and not filled it.
abbrev client_reserves : Client → ℕ
client_reserves Client.await_lock = 1
client_reserves Client.put = 1
client_reserves _ = 0

abbrev pub reserves : Stage → ℕ
reserves (Stage.await_put _) = 1
reserves (Stage.put _) = 1
reserves _ = 0

-- 1 for a thread that has filled a place and not announced it.
abbrev client_announces : Client → ℕ
client_announces Client.unlock = 1
client_announces Client.post_item = 1
client_announces _ = 0

abbrev pub writer_announces : Stage → ℕ
writer_announces Stage.post_first = 1
writer_announces _ = 0

abbrev pub committer_announces : Stage → ℕ
committer_announces Stage.post_first = 1
committer_announces Stage.post_second = 1
committer_announces _ = 0

-- 1 for a thread that has been promised a request and not taken it.
abbrev claims : Stage → ℕ
claims Stage.await_lock = 1
claims Stage.take = 1
claims _ = 0

abbrev pub last_claims : Last → ℕ
last_claims Last.await_lock = 1
last_claims Last.take = 1
last_claims _ = 0

-- 1 for a thread that has taken a request and not given its place back.
abbrev frees : Stage → ℕ
frees (Stage.unlock _) = 1
frees (Stage.post_space _) = 1
frees _ = 0

abbrev pub last_frees : Last → ℕ
last_frees Last.unlock = 1
last_frees Last.post_space = 1
last_frees _ = 0

-- 1 for a request whose completion is still to be reported.
abbrev reports : Last → ℕ
reports Last.unlock = 1
reports Last.post_space = 1
reports Last.complete = 1
reports _ = 0

-- 1 for a client in the middle of a call.
abbrev calling : Client → ℕ
calling Client.await_space = 0
calling _ = 1

-- The contents of the three buffers, and the requests that have left the last of them.
pub record Lists : Type 0 where
  pub requested : List Request
  pub journalled : List Request
  pub committed : List Request
  pub checkpointed : List Request

-- The counts of the semaphores.
pub record Counts (s : System) (l : Lists) : Type 0 where
  pub lock :
      s.mutex
        + client_locks s.client
        + writer_locks s.writer
        + committer_locks s.committer
        + last_locks s.checkpointer
      ≡ 1
  pub space1 : s.requests_space + client_reserves s.client + length l.requested + frees s.writer ≡ 8
  pub items1 : s.requests_items + client_announces s.client + claims s.writer ≡ length l.requested
  pub space2 : s.meta_space + reserves s.writer + length l.journalled + frees s.committer ≡ 8
  pub items2 : s.meta_items + writer_announces s.writer + claims s.committer ≡ length l.journalled
  pub space3 :
      s.completed_space + reserves s.committer + length l.committed + last_frees s.checkpointer ≡ 8
  pub items3 :
      s.completed_items + committer_announces s.committer + last_claims s.checkpointer
      ≡ length l.committed
  pub calls : calling s.client ≤ length s.todo

abbrev pub flat : (Request → List Event) → List Request → List Event
flat f [] = []
flat f (x ∷ xs) = f x ++ flat f xs

-- The calls by which the data and the metadata are journalled.
abbrev pub journal_part : List Event → List Event
journal_part [] = []
journal_part (Event.write_data p i ∷ es) = Event.write_data p i ∷ journal_part es
journal_part (Event.journal_txb ∷ es) = Event.journal_txb ∷ journal_part es
journal_part (Event.journal_bitmap p i ∷ es) = Event.journal_bitmap p i ∷ journal_part es
journal_part (Event.journal_inode p i ∷ es) = Event.journal_inode p i ∷ journal_part es
journal_part (e ∷ es) = journal_part es

-- The calls by which the metadata goes to its place.
abbrev pub checkpoint_part : List Event → List Event
checkpoint_part [] = []
checkpoint_part (Event.write_bitmap p i ∷ es) = Event.write_bitmap p i ∷ checkpoint_part es
checkpoint_part (Event.write_inode p i ∷ es) = Event.write_inode p i ∷ checkpoint_part es
checkpoint_part (e ∷ es) = checkpoint_part es

abbrev pub commits : List Event → ℕ
commits [] = 0
commits (Event.journal_txe ∷ es) = suc (commits es)
commits (e ∷ es) = commits es

abbrev pub completions : List Event → ℕ
completions [] = 0
completions (Event.write_complete ∷ es) = suc (completions es)
completions (e ∷ es) = completions es

-- The requests whose journal entries have been issued, in order.
abbrev pub all_journalled : System → Lists → List Request
all_journalled s l =
    l.checkpointed ++ (l.committed ++ (held s.committer ++ (l.journalled ++ held s.writer)))

-- The buffers hold the lists; every request of `rs` is in exactly one place, in order; and the calls
-- made so far are those for the requests that have passed each thread.
pub record Inv (rs : List Request) (s : System) (l : Lists) : Type 0 where
  pub counts : Counts s l
  pub ring1 : IsRing s.requests l.requested
  pub ring2 : IsRing s.meta l.journalled
  pub ring3 : IsRing s.completed l.committed
  pub flow : all_journalled s l ++ (l.requested ++ pending s.client s.todo) ≡ rs
  pub journals : journal_part s.trace ≡ flat journal_events (all_journalled s l)
  pub commit_count :
      commits s.trace ≡ length l.checkpointed + length l.committed + length (held s.committer)
  pub checkpoints : checkpoint_part s.trace ≡ flat checkpoint_events l.checkpointed
  pub complete_count : completions s.trace + reports s.checkpointer ≡ length l.checkpointed
