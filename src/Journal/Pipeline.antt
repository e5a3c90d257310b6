-- ===== src/Journal/Pipeline.antt =====
-- The three threads of Metadata journaling service/journal.c and the file system's calls of
-- `request_write`, one semaphore operation or one locked section at a time.
pub mod Inv
pub mod Keeps
pub mod Safety
pub mod Order
pub mod Takes
use cs.Common.{
  ℕ, zero, suc, ◌+◌, ◌-◌, Option, none, some, List, [], ◌∷◌, ◌++◌, leb, ◌==◌, if◌then◌else◌,
}
use cs.Journal.Ring.{Request, Ring, enqueue, dequeue, zero_ring}

-- The calls that the threads make of block_service.c and filesystem.c, with their arguments.
pub data Event : Type 0 where
  write_data : (ptr idx : ℕ) → Event
  journal_txb : Event
  journal_bitmap : (ptr idx : ℕ) → Event
  journal_inode : (ptr idx : ℕ) → Event
  journal_txe : Event
  write_bitmap : (ptr idx : ℕ) → Event
  write_inode : (ptr idx : ℕ) → Event
  write_complete : Event

-- Where `metaDataWrite` or `journalCommit` stands, with its variable `wr` where it is live.
pub data Stage : Type 0 where
  await_item : Stage
  await_lock : Stage
  take : Stage
  unlock : Request → Stage
  post_space : Request → Stage
  await_space : Request → Stage
  await_put : Request → Stage
  put : Request → Stage
  post_first : Stage
  post_second : Stage

-- Where `journalCommitComplete` stands.
pub data Last : Type 0 where
  await_item : Last
  await_lock : Last
  take : Last
  unlock : Last
  post_space : Last
  complete : Last

-- Where `request_write` stands; between two calls and before the first it is `await_space`.
pub data Client : Type 0 where
  await_space : Client
  await_lock : Client
  put : Client
  unlock : Client
  post_item : Client

-- The global variables, the places of the four threads, the requests that the file system has still
-- to hand over (the one of the current call first), and the calls made so far.
pub record System : Type 0 where
  pub requests : Ring
  pub meta : Ring
  pub completed : Ring
  pub mutex : ℕ
  pub requests_space : ℕ
  pub requests_items : ℕ
  pub meta_space : ℕ
  pub meta_items : ℕ
  pub completed_space : ℕ
  pub completed_items : ℕ
  pub client : Client
  pub todo : List Request
  pub writer : Stage
  pub committer : Stage
  pub checkpointer : Last
  pub trace : List Event

-- A thread waits at a semaphore, or dereferences a null pointer, or takes a step.
pub data Outcome : Type 0 where
  blocked : Outcome
  crashed : Outcome
  moved : System → Outcome

-- `sem_wait`: `go` takes the semaphore's count after the wait.
abbrev pub sem_wait : ℕ → (ℕ → System) → Outcome
sem_wait zero go = Outcome.blocked
sem_wait (suc n) go = Outcome.moved (go n)

abbrev pub emit : List Event → System → System
emit es s = record s { trace = s.trace ++ es }

-- What `metaDataWrite` does with a request under the lock.
abbrev pub journal_events : Request → List Event
journal_events wr =
    Event.write_data wr.contents wr.contents_idx
    ∷ Event.journal_txb
    ∷ Event.journal_bitmap wr.bitmap wr.bitmap_idx
    ∷ Event.journal_inode wr.inode wr.inode_idx
    ∷ []

-- What `journalCommitComplete` does with a request under the lock.
abbrev pub checkpoint_events : Request → List Event
checkpoint_events wr =
    Event.write_bitmap wr.bitmap wr.bitmap_idx ∷ Event.write_inode wr.inode wr.inode_idx ∷ []

-- `metaDataWrite`
unfoldable pub write_step : Stage → System → Outcome
write_step Stage.await_item s =
    sem_wait s.requests_items (λ n. record s { requests_items = n; writer = Stage.await_lock })
write_step Stage.await_lock s = sem_wait s.mutex (λ n. record s { mutex = n; writer = Stage.take })
write_step Stage.take s =
    let (front, ring) = dequeue s.requests in
    elim front [
      | none ↦ Outcome.crashed
      | some wr ↦
          Outcome.moved
            (emit (journal_events wr) (record s { requests = ring; writer = Stage.unlock wr }))
    ]
write_step (Stage.unlock wr) s =
    Outcome.moved (record s { mutex = s.mutex + 1; writer = Stage.post_space wr })
write_step (Stage.post_space wr) s =
    Outcome.moved
      (record s { requests_space = s.requests_space + 1; writer = Stage.await_space wr })
write_step (Stage.await_space wr) s =
    sem_wait s.meta_space (λ n. record s { meta_space = n; writer = Stage.await_put wr })
write_step (Stage.await_put wr) s =
    sem_wait s.mutex (λ n. record s { mutex = n; writer = Stage.put wr })
write_step (Stage.put wr) s =
    Outcome.moved (record s { meta = enqueue s.meta wr; writer = Stage.post_first })
write_step Stage.post_first s =
    Outcome.moved (record s { meta_items = s.meta_items + 1; writer = Stage.post_second })
write_step Stage.post_second s =
    Outcome.moved (record s { mutex = s.mutex + 1; writer = Stage.await_item })

-- `journalCommit`
unfoldable pub commit_step : Stage → System → Outcome
commit_step Stage.await_item s =
    sem_wait s.meta_items (λ n. record s { meta_items = n; committer = Stage.await_lock })
commit_step Stage.await_lock s =
    sem_wait s.mutex (λ n. record s { mutex = n; committer = Stage.take })
commit_step Stage.take s =
    let (front, ring) = dequeue s.meta in
    elim front [
      | none ↦ Outcome.crashed
      | some wr ↦
          Outcome.moved
            (emit (Event.journal_txe ∷ []) (record s { meta = ring; committer = Stage.unlock wr }))
    ]
commit_step (Stage.unlock wr) s =
    Outcome.moved (record s { mutex = s.mutex + 1; committer = Stage.post_space wr })
commit_step (Stage.post_space wr) s =
    Outcome.moved (record s { meta_space = s.meta_space + 1; committer = Stage.await_space wr })
commit_step (Stage.await_space wr) s =
    sem_wait s.completed_space
      (λ n. record s { completed_space = n; committer = Stage.await_put wr })
commit_step (Stage.await_put wr) s =
    sem_wait s.mutex (λ n. record s { mutex = n; committer = Stage.put wr })
commit_step (Stage.put wr) s =
    Outcome.moved (record s { completed = enqueue s.completed wr; committer = Stage.post_first })
commit_step Stage.post_first s =
    Outcome.moved (record s { mutex = s.mutex + 1; committer = Stage.post_second })
commit_step Stage.post_second s =
    Outcome.moved
      (record s { completed_items = s.completed_items + 1; committer = Stage.await_item })

-- `journalCommitComplete`
unfoldable pub checkpoint_step : Last → System → Outcome
checkpoint_step Last.await_item s =
    sem_wait s.completed_items
      (λ n. record s { completed_items = n; checkpointer = Last.await_lock })
checkpoint_step Last.await_lock s =
    sem_wait s.mutex (λ n. record s { mutex = n; checkpointer = Last.take })
checkpoint_step Last.take s =
    let (front, ring) = dequeue s.completed in
    elim front [
      | none ↦ Outcome.crashed
      | some wr ↦
          Outcome.moved (
            emit (checkpoint_events wr) (record s { completed = ring; checkpointer = Last.unlock }))
    ]
checkpoint_step Last.unlock s =
    Outcome.moved (record s { mutex = s.mutex + 1; checkpointer = Last.post_space })
checkpoint_step Last.post_space s =
    Outcome.moved
      (record s { completed_space = s.completed_space + 1; checkpointer = Last.complete })
checkpoint_step Last.complete s =
    Outcome.moved (emit (Event.write_complete ∷ []) (record s { checkpointer = Last.await_item }))

-- `request_write` for the first request of `todo`; nothing is left to do without one.
unfoldable pub request_step : Client → List Request → System → Outcome
request_step c [] s = Outcome.blocked
request_step Client.await_space (wr ∷ rest) s =
    sem_wait s.requests_space (λ n. record s { requests_space = n; client = Client.await_lock })
request_step Client.await_lock (wr ∷ rest) s =
    sem_wait s.mutex (λ n. record s { mutex = n; client = Client.put })
request_step Client.put (wr ∷ rest) s =
    Outcome.moved (record s { requests = enqueue s.requests wr; client = Client.unlock })
request_step Client.unlock (wr ∷ rest) s =
    Outcome.moved (record s { mutex = s.mutex + 1; client = Client.post_item })
request_step Client.post_item (wr ∷ rest) s =
    Outcome.moved
      (record s { requests_items = s.requests_items + 1; client = Client.await_space; todo = rest })

pub data Thread : Type 0 where
  file_system meta_data_write journal_commit journal_commit_complete : Thread

unfoldable pub step : Thread → System → Outcome
step Thread.file_system s = request_step s.client s.todo s
step Thread.meta_data_write s = write_step s.writer s
step Thread.journal_commit s = commit_step s.committer s
step Thread.journal_commit_complete s = checkpoint_step s.checkpointer s

-- `init_journal`, before a file system that will request the given writes.
unfoldable pub init_journal : List Request → System
init_journal rs = record {
  requests = zero_ring;
  meta = zero_ring;
  completed = zero_ring;
  mutex = 1;
  requests_space = 8;
  requests_items = 0;
  meta_space = 8;
  meta_items = 0;
  completed_space = 8;
  completed_items = 0;
  client = Client.await_space;
  todo = rs;
  writer = Stage.await_item;
  committer = Stage.await_item;
  checkpointer = Last.await_item;
  trace = [];
}
