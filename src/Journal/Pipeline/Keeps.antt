-- ===== src/Journal/Pipeline/Keeps.antt =====
-- The steps of the threads of Metadata journaling service/journal.c keep the invariant.
use cs.Common.{
  ◌+◌, ◌≤◌, ◌≡◌, refl, ◌∙◌, List, [], ◌∷◌, ◌++◌, length, length-append, append-nil, append_assoc,
  arith,
}
use cs.Journal.Ring.{Request, enqueue, dequeue}
use cs.Journal.Ring.Fifo.{enqueue_lem, dequeue_lem}
use cs.Journal.Pipeline.{
  Event, Stage, Last, Client, System, emit, journal_events, checkpoint_events,
}
use cs.Journal.Pipeline.Inv.{
  Lists, Inv, held, pending, flat, journal_part, checkpoint_part, commits, completions,
}

pub nonempty :
    (xs : List Request) → 1 ≤ length xs → (x : Request) × (ys : List Request) × (xs ≡ x ∷ ys)
nonempty [] h = absurd (omega arith)
nonempty (x ∷ ys) h = (x, ys, refl)

flat-append :
    (f : Request → List Event) (xs ys : List Request) → flat f (xs ++ ys) ≡ flat f xs ++ flat f ys
flat-append f [] ys = refl
flat-append f (x ∷ xs) ys = simp (flat-append f xs ys, append_assoc)

journal_part-append :
    (xs ys : List Event) → journal_part (xs ++ ys) ≡ journal_part xs ++ journal_part ys
journal_part-append [] ys = refl
journal_part-append (Event.write_data p i ∷ xs) ys = simp (journal_part-append xs ys)
journal_part-append (Event.journal_txb ∷ xs) ys = simp (journal_part-append xs ys)
journal_part-append (Event.journal_bitmap p i ∷ xs) ys = simp (journal_part-append xs ys)
journal_part-append (Event.journal_inode p i ∷ xs) ys = simp (journal_part-append xs ys)
journal_part-append (_ ∷ xs) ys = journal_part-append xs ys

checkpoint_part-append :
    (xs ys : List Event) → checkpoint_part (xs ++ ys) ≡ checkpoint_part xs ++ checkpoint_part ys
checkpoint_part-append [] ys = refl
checkpoint_part-append (Event.write_bitmap p i ∷ xs) ys = simp (checkpoint_part-append xs ys)
checkpoint_part-append (Event.write_inode p i ∷ xs) ys = simp (checkpoint_part-append xs ys)
checkpoint_part-append (_ ∷ xs) ys = checkpoint_part-append xs ys

commits-append : (xs ys : List Event) → commits (xs ++ ys) ≡ commits xs + commits ys
commits-append [] ys = omega arith
commits-append (Event.journal_txe ∷ xs) ys = omega (arith, commits-append xs ys)
commits-append (_ ∷ xs) ys = commits-append xs ys

completions-append : (xs ys : List Event) → completions (xs ++ ys) ≡ completions xs + completions ys
completions-append [] ys = omega arith
completions-append (Event.write_complete ∷ xs) ys = omega (arith, completions-append xs ys)
completions-append (_ ∷ xs) ys = completions-append xs ys

flow_take :
    (d c h j : List Request) (x : Request) (r p : List Request)
    → d ++ (c ++ (h ++ (j ++ x ∷ []))) ++ (r ++ p) ≡ d ++ (c ++ (h ++ (j ++ []))) ++ ((x ∷ r) ++ p)
flow_take d c h j x r p = simp (append_assoc, append-nil)

events_take :
    (f : Request → List Event) (d c h j : List Request) (x : Request)
    → flat f (d ++ (c ++ (h ++ (j ++ [])))) ++ f x ≡ flat f (d ++ (c ++ (h ++ (j ++ x ∷ []))))
events_take f d c h j x = simp (flat-append, append_assoc, append-nil)

events_snoc :
    (f : Request → List Event) (d : List Request) (x : Request)
    → flat f d ++ f x ≡ flat f (d ++ x ∷ [])
events_snoc f d x = simp (flat-append, append-nil)

module _ (rs : List Request) (s : System) (l : Lists) (v : Inv rs s l) where
  pub write_take-Inv :
      s.writer ≡ Stage.take
      → (wr : Request) (rest : List Request) → l.requested ≡ wr ∷ rest
      → Inv rs
          (emit
            (journal_events wr)
            (record s { requests = (dequeue s.requests).1; writer = Stage.unlock wr }))
          (record l { requested = rest })
  write_take-Inv at wr rest e = record {
    counts = ground arith;
    ring1 = (dequeue_lem wr rest (rw e at v.ring1)).1;
    ring2 = v.ring2;
    ring3 = v.ring3;
    flow =
        flow_take l.checkpointed l.committed (held s.committer) l.journalled wr rest
          (pending s.client s.todo)
        ∙ (rw (at, e) at v.flow);
    journals =
        rw (journal_part-append s.trace (journal_events wr), (rw at at v.journals))
          (events_take journal_events l.checkpointed l.committed (held s.committer) l.journalled
            wr);
    commit_count = ground (arith, v.commit_count, commits-append s.trace (journal_events wr));
    checkpoints = rw (checkpoint_part-append s.trace (journal_events wr), append-nil) v.checkpoints;
    complete_count =
        ground (arith, v.complete_count, completions-append s.trace (journal_events wr));
  }

  pub write_put-Inv :
      (wr : Request)
      → s.writer ≡ Stage.put wr
      → Inv rs
          (record s { meta = enqueue s.meta wr; writer = Stage.post_first })
          (record l { journalled = l.journalled ++ wr ∷ [] })
  write_put-Inv wr at = record {
    counts = ground (arith, length-append l.journalled (wr ∷ []));
    ring1 = v.ring1;
    ring2 = enqueue_lem v.ring2 (ground arith) wr;
    ring3 = v.ring3;
    flow = rw append-nil (rw at at v.flow);
    journals = rw append-nil (rw at at v.journals);
    commit_count = v.commit_count;
    checkpoints = v.checkpoints;
    complete_count = v.complete_count;
  }

  pub commit_take-Inv :
      s.committer ≡ Stage.take
      → (wr : Request) (rest : List Request) → l.journalled ≡ wr ∷ rest
      → Inv rs
          (emit
            (Event.journal_txe ∷ [])
            (record s { meta = (dequeue s.meta).1; committer = Stage.unlock wr }))
          (record l { journalled = rest })
  commit_take-Inv at wr rest e = record {
    counts = ground arith;
    ring1 = v.ring1;
    ring2 = (dequeue_lem wr rest (rw e at v.ring2)).1;
    ring3 = v.ring3;
    flow = rw (at, e) at v.flow;
    journals =
        rw (journal_part-append s.trace (Event.journal_txe ∷ []), append-nil)
          (rw (at, e) at v.journals);
    commit_count = ground (arith, v.commit_count, commits-append s.trace (Event.journal_txe ∷ []));
    checkpoints =
        rw (checkpoint_part-append s.trace (Event.journal_txe ∷ []), append-nil) v.checkpoints;
    complete_count =
        ground (arith, v.complete_count, completions-append s.trace (Event.journal_txe ∷ []));
  }

  pub commit_put-Inv :
      (wr : Request)
      → s.committer ≡ Stage.put wr
      → Inv rs
          (record s { completed = enqueue s.completed wr; committer = Stage.post_first })
          (record l { committed = l.committed ++ wr ∷ [] })
  commit_put-Inv wr at = record {
    counts = ground (arith, length-append l.committed (wr ∷ []));
    ring1 = v.ring1;
    ring2 = v.ring2;
    ring3 = enqueue_lem v.ring3 (ground arith) wr;
    flow =
        rw (append_assoc l.committed (wr ∷ []) (l.journalled ++ held s.writer)) (rw at at v.flow);
    journals =
        rw (append_assoc l.committed (wr ∷ []) (l.journalled ++ held s.writer))
          (rw at at v.journals);
    commit_count = ground (arith, v.commit_count, length-append l.committed (wr ∷ []));
    checkpoints = v.checkpoints;
    complete_count = v.complete_count;
  }

  pub checkpoint_take-Inv :
      s.checkpointer ≡ Last.take
      → (wr : Request) (rest : List Request) → l.committed ≡ wr ∷ rest
      → Inv rs
          (emit
            (checkpoint_events wr)
            (record s { completed = (dequeue s.completed).1; checkpointer = Last.unlock }))
          (record l { committed = rest; checkpointed = l.checkpointed ++ wr ∷ [] })
  checkpoint_take-Inv at wr rest e = record {
    counts = ground arith;
    ring1 = v.ring1;
    ring2 = v.ring2;
    ring3 = (dequeue_lem wr rest (rw e at v.ring3)).1;
    flow = rw (append_assoc l.checkpointed (wr ∷ [])) (rw e at v.flow);
    journals =
        rw
          (
            journal_part-append s.trace (checkpoint_events wr),
            append-nil,
            append_assoc l.checkpointed (wr ∷ [])
                (rest ++ (held s.committer ++ (l.journalled ++ held s.writer))),
          )
          (rw e at v.journals);
    commit_count = ground (
      arith,
      v.commit_count,
      commits-append s.trace (checkpoint_events wr),
      length-append l.checkpointed (wr ∷ []),
    );
    checkpoints =
        rw (checkpoint_part-append s.trace (checkpoint_events wr), v.checkpoints)
          (events_snoc checkpoint_events l.checkpointed wr);
    complete_count = ground (
      arith,
      v.complete_count,
      completions-append s.trace (checkpoint_events wr),
      length-append l.checkpointed (wr ∷ []),
    );
  }

  pub complete-Inv :
      s.checkpointer ≡ Last.complete
      → Inv rs (emit (Event.write_complete ∷ []) (record s { checkpointer = Last.await_item })) l
  complete-Inv at = record {
    counts = ground arith;
    ring1 = v.ring1;
    ring2 = v.ring2;
    ring3 = v.ring3;
    flow = v.flow;
    journals = rw (journal_part-append s.trace (Event.write_complete ∷ []), append-nil) v.journals;
    commit_count =
        ground (arith, v.commit_count, commits-append s.trace (Event.write_complete ∷ []));
    checkpoints =
        rw (checkpoint_part-append s.trace (Event.write_complete ∷ []), append-nil) v.checkpoints;
    complete_count =
        ground (arith, v.complete_count, completions-append s.trace (Event.write_complete ∷ []));
  }

  pub request_put-Inv :
      s.client ≡ Client.put
      → (wr : Request) (rest : List Request) → s.todo ≡ wr ∷ rest
      → Inv rs
          (record s { requests = enqueue s.requests wr; client = Client.unlock })
          (record l { requested = l.requested ++ wr ∷ [] })
  request_put-Inv at wr rest e = record {
    counts = ground (arith, length-append l.requested (wr ∷ []));
    ring1 = enqueue_lem v.ring1 (ground arith) wr;
    ring2 = v.ring2;
    ring3 = v.ring3;
    flow = rw (e, append_assoc l.requested (wr ∷ []) rest) (rw (at, e) at v.flow);
    journals = v.journals;
    commit_count = v.commit_count;
    checkpoints = v.checkpoints;
    complete_count = v.complete_count;
  }
