-- ===== src/Log/Atomic.antt =====
-- What the file system in log.c promises of a transaction: after a commit the disk agrees with the
-- buffers, and a crash at any point of a commit or of a recovery leaves all of it or nothing.
use cs.Common.{
  ℕ, zero, suc, ◌<◌, ◌≡◌, refl, sym, ◌∙◌, subst, true, false, ◌⊎◌, inl, inr, List, [], ◌∷◌, ◌++◌,
  ltb, length, take, has, append-nil, arith, Bool-cases,
}
use cs.Log.{Write, Disk, LogState, install_trans, recover_from_log, initlog, booted, commit}
use cs.Log.Writes.{
  in_log, Home, replay, Slots, log_writes, home_writes, replay-append, take-append, paint,
  replay-blocks, Avoids, paint-Avoids, take-Avoids, replay-head, log_writes-Avoids,
  home_writes-Avoids, has-Home, paint-home_writes, paint-Slots, Slots-same,
}
use cs.Log.Crash.{unpin_all, install_from-after}
use cs.Log.Commit.{
  LogInv, Agrees, commit_writes, crash_disk, initlog-disk, commit-after, replay-commit_writes,
  paint-commit_writes,
}

-- A disk whose header names no block is left alone by recovery.
recovers_old :
    (start size : ℕ) (d : Disk) (f : ℕ → ℕ)
    → 0 < size
    → d.head ≡ []
    → Agrees start size d f
    → Agrees start size (initlog start size d).disk f
recovers_old start size d f lt e agrees b out =
    rw (initlog-disk start size d f (rw e lt) (rw e tt) (rw e tt), e) (unfold paint in agrees b out)

module _ (start size : ℕ) (bs : List ℕ) (f : ℕ → ℕ) where
  -- A disk in the course of an installation: the log is whole, and the blocks that are not logged
  -- are as they should be.
  pub record Logged (d : Disk) : Type 0 where
    pub head : d.head ≡ bs
    pub slots : Slots start 0 bs f d.blocks
    pub rest : (b : ℕ) → in_log start size b ≡ false → has b bs ≡ false → d.blocks b ≡ f b

  module _ (lt : length bs < size) (h : Home start size bs) where
    recovers_new : (d : Disk) → Logged d → Agrees start size (initlog start size d).disk f
    recovers_new d l b out =
        rw
          (
            initlog-disk start size d f (rw (l.head) lt) (rw (l.head) h) (rw (l.head) (l.slots)),
            l.head,
            paint-home_writes bs f d.blocks b,
          )
          (ground (arith, l.rest b out))

    -- More installations keep it so.
    replay-Logged :
        (d : Disk) (ws : List Write)
        → ((b : ℕ) → has b bs ≡ false → Avoids b ws)
        → Logged d
        → Logged (replay ws d)
    replay-Logged d ws av l = record {
      head =
          replay-head start ws d (av start (has-Home start size start bs h (ground arith)))
          ∙ l.head;
      slots = rw (replay-blocks ws d) (
          Slots-same start size 0 bs f d.blocks _ (omega (arith, lt))
            (λ b i. paint-Avoids b ws d.blocks (av b (has-Home start size b bs h i))) l.slots);
      rest = λ b out no.
          rw (replay-blocks ws d) (paint-Avoids b ws d.blocks (av b no) ∙ l.rest b out no);
    }

    -- All installations done, the disk agrees with `f`.
    installed-Agrees : (d : Disk) → Logged d → Agrees start size (replay (home_writes bs f) d) f
    installed-Agrees d l b out =
        rw (replay-blocks (home_writes bs f) d, paint-home_writes bs f d.blocks b)
          (ground (arith, l.rest b out))

    -- A crash in the course of the installation, or when the header is cleared.
    install-Agrees :
        (d : Disk) (k : ℕ)
        → Logged d
        → Agrees start size
            (initlog start size
              (replay (take k (home_writes bs f ++ Write.head_write [] ∷ [])) d)).disk
            f
    unfolding replay
    install-Agrees d k l = by_cases (take-append k (home_writes bs f) (Write.head_write [] ∷ []))
      where
        cleared :
            Agrees start size
              (initlog start size (record (replay (home_writes bs f) d) { head = [] })).disk
              f
        cleared = recovers_old start size _ f (omega (arith, lt)) refl (installed-Agrees d l)

        whole :
            (j : ℕ)
            → Agrees start size
                (initlog start size
                  (replay (take j (Write.head_write [] ∷ [])) (replay (home_writes bs f) d))).disk
                f
        whole zero = recovers_new _ (replay-Logged d (home_writes bs f) (home_writes-Avoids bs f) l)
        whole (suc zero) = cleared
        whole (suc (suc j)) = cleared

        by_cases :
            (take k (home_writes bs f ++ Write.head_write [] ∷ []) ≡ take k (home_writes bs f))
              ⊎ ((j : ℕ) × (take k (home_writes bs f ++ Write.head_write [] ∷ [])
                    ≡ home_writes bs f ++ take j (Write.head_write [] ∷ [])))
            → Agrees start size
                (initlog start size
                  (replay (take k (home_writes bs f ++ Write.head_write [] ∷ [])) d)).disk
                f
        by_cases (inl e) = rw (e) (
            recovers_new _
              (replay-Logged d _ (λ b no. take-Avoids b k _ (home_writes-Avoids bs f b no)) l))
        by_cases (inr (j, e)) = rw (e, replay-append (home_writes bs f)) (whole j)

module _ {s : LogState} (v : LogInv s) where
  log_untouched :
      (b : ℕ) → in_log s.start s.size b ≡ false → Avoids b (log_writes s.start 0 s.lh s.view)
  log_untouched b out = log_writes-Avoids s.start 0 s.lh s.view b (ground (arith, v.room))

  -- Before the header is written.
  early-Agrees :
      (ws : List Write)
      → ((b : ℕ) → (in_log s.start s.size b ≡ false) ⊎ (b ≡ s.start) → Avoids b ws)
      → Agrees s.start s.size (initlog s.start s.size (replay ws s.disk)).disk s.disk.blocks
  early-Agrees ws av =
      recovers_old s.start s.size _ s.disk.blocks (omega (arith, v.room))
        (replay-head s.start ws s.disk (av s.start (inr refl)) ∙ v.empty)
        (λ b out. rw (replay-blocks ws s.disk) (paint-Avoids b ws s.disk.blocks (av b (inl out))))

  log-Avoids :
      (b : ℕ)
      → (in_log s.start s.size b ≡ false) ⊎ (b ≡ s.start)
      → Avoids b (log_writes s.start 0 s.lh s.view)
  log-Avoids b (inl out) = log_untouched b out
  log-Avoids b (inr e) = log_writes-Avoids s.start 0 s.lh s.view b (inl (omega (arith, e)))

  -- Once the header is written.
  written-Logged :
      Logged s.start s.size s.lh s.view
        (record (replay (log_writes s.start 0 s.lh s.view) s.disk) { head = s.lh })
  written-Logged = record {
    head = refl;
    slots =
        rw (replay-blocks (log_writes s.start 0 s.lh s.view) s.disk)
          (paint-Slots s.start 0 s.lh s.view s.disk.blocks);
    rest = λ b out no.
        rw (replay-blocks (log_writes s.start 0 s.lh s.view) s.disk)
          (paint-Avoids b _ s.disk.blocks (log_untouched b out) ∙ sym (v.clean b out no));
  }

  Kept : List Write → Type 0
  Kept ws =
      let d = (initlog s.start s.size (replay ws s.disk)).disk in
      Agrees s.start s.size d s.disk.blocks ⊎ Agrees s.start s.size d s.view

  rest-Kept :
      (k : ℕ)
      → Kept (
          log_writes s.start 0 s.lh s.view
          ++ take k (Write.head_write s.lh ∷ (home_writes s.lh s.view ++ Write.head_write [] ∷ [])))
  unfolding replay Kept
  rest-Kept zero =
      rw (append-nil (log_writes s.start 0 s.lh s.view)) (inl (early-Agrees _ log-Avoids))
  rest-Kept (suc k) =
      rw (replay-append (log_writes s.start 0 s.lh s.view))
        (inr (install-Agrees s.start s.size s.lh s.view v.room v.home _ k written-Logged))

  commit_writes-Kept : (m : ℕ) → Kept (take m (commit_writes s))
  unfolding Kept
  commit_writes-Kept m = by_cases (take-append m (log_writes s.start 0 s.lh s.view) _)
    where
      by_cases :
          (take m (commit_writes s) ≡ take m (log_writes s.start 0 s.lh s.view))
            ⊎ ((k : ℕ) × (take m (commit_writes s)
                  ≡ log_writes s.start 0 s.lh s.view
                    ++ take k (
                        Write.head_write s.lh
                        ∷ (home_writes s.lh s.view ++ Write.head_write [] ∷ []))))
          → Kept (take m (commit_writes s))
      by_cases (inl e) = rw (e) (inl (early-Agrees _ (λ b c. take-Avoids b m _ (log-Avoids b c))))
      by_cases (inr (k, e)) = rw (e) (rest-Kept k)

-- From a state that satisfies the invariant, a crash that lets any number of the writes of `commit`
-- through, and then recovery, leave all blocks outside of the log as before the transaction, or all of
-- them as after it.
pub crash_atomic :
    {s : LogState}
    → LogInv s
    → (m : ℕ)
    → let d = (initlog s.start s.size (crash_disk m s)).disk in
      Agrees s.start s.size d s.disk.blocks ⊎ Agrees s.start s.size d s.view
unfolding commit replay Kept
crash_atomic {s} v m = by_cases (Bool-cases (ltb 0 (length s.lh)))
  where
    v' : LogInv (record s { trace = [] })
    v' = record { home = v.home; room = v.room; empty = v.empty; clean = v.clean }

    unlogged : (k : ℕ) → take {A = Write} k [] ≡ []
    unlogged zero = refl
    unlogged (suc k) = refl

    by_cases :
        (ltb 0 (length s.lh) ≡ true) ⊎ (ltb 0 (length s.lh) ≡ false)
        → Kept v (take m (commit (record s { trace = [] })).trace)
    by_cases (inl e) = rw (commit-after v' e) (commit_writes-Kept v m)
    by_cases (inr e) = rw (e, unlogged m) (inl (early-Agrees v [] (λ b c. tt)))

-- What `commit` makes of the state `s`.
pub record Committed (s s' : LogState) : Type 0 where
  pub inv : LogInv s'
  pub lh : s'.lh ≡ []
  pub disk : Agrees s.start s.size s'.disk s.view
  pub view : (b : ℕ) → in_log s.start s.size b ≡ false → s'.view b ≡ s.view b
  pub pins : s'.pins ≡ unpin_all s.lh s.pins
  pub size : s'.size ≡ s.size
  pub calls : s'.outstanding ≡ s.outstanding

empty_log : (bs : List ℕ) → ltb 0 (length bs) ≡ false → bs ≡ []
empty_log [] e = refl
empty_log (b ∷ bs) e = absurd (ground (arith, e))

commit-empty : (s : LogState) → ltb 0 (length s.lh) ≡ false → commit s ≡ s
unfolding commit
commit-empty s e = rw (e) refl

module _ {s : LogState} (v : LogInv s) where
  committed_disk : Agrees s.start s.size (replay (commit_writes s) s.disk) s.view
  committed_disk b out =
      rw (replay-commit_writes s)
        (installed-Agrees s.start s.size s.lh s.view v.room v.home _ (written-Logged v) b out)

  committed_view :
      (b : ℕ) → in_log s.start s.size b ≡ false → paint (commit_writes s) s.view b ≡ s.view b
  committed_view b out =
      rw
        (
          paint-commit_writes s,
          paint-home_writes s.lh s.view (paint (log_writes s.start 0 s.lh s.view) s.view) b,
          paint-Avoids b (log_writes s.start 0 s.lh s.view) s.view (log_untouched v b out),
        )
        (ground arith)

  -- From a state that satisfies the invariant `commit` empties the log, leaves all blocks outside of it
  -- on disk as the buffers have them, keeps those buffers and drops one pin for each logged block.
  pub commit-Committed : Committed s (commit s)
  commit-Committed = by_cases (Bool-cases (ltb 0 (length s.lh)))
    where
      by_cases :
          (ltb 0 (length s.lh) ≡ true) ⊎ (ltb 0 (length s.lh) ≡ false) → Committed s (commit s)
      by_cases (inl e) = rw (commit-after v e) (record {
        inv = record {
          home = tt;
          room = omega (arith, v.room);
          empty = rw (replay-commit_writes s) refl;
          clean = λ b out no. committed_view b out ∙ sym (committed_disk b out);
        };
        lh = refl;
        disk = committed_disk;
        view = committed_view;
        pins = refl;
        size = refl;
        calls = refl;
      })
      by_cases (inr e) = subst (Committed s) (sym (commit-empty s e)) (record {
        inv = v;
        lh = empty_log s.lh e;
        disk = λ b out. sym (v.clean b out (rw (empty_log s.lh e) refl));
        view = λ b out. refl;
        pins = rw (empty_log s.lh e) refl;
        size = refl;
        calls = refl;
      })

module _ (start size : ℕ) (d : Disk) (f : ℕ → ℕ) (lt : length d.head < size)
    (h : Home start size d.head) (l : Logged start size d.head f d) where
  initlog-trace : (initlog start size d).trace ≡ home_writes d.head f ++ Write.head_write [] ∷ []
  unfolding initlog recover_from_log install_trans
  initlog-trace =
      rw
        (install_from-after true 0 d.head (record (booted start size d) { lh = d.head }) f
          (omega (arith, lt)) h (l.slots))
        refl

  -- A crash in the course of recovery is harmless: recovery after it gives what recovery without the
  -- crash gives, the blocks that the header names as the log holds them.
  pub recovery_crash :
      (m : ℕ)
      → Agrees start size
          (initlog start size (replay (take m (initlog start size d).trace) d)).disk
          f
  recovery_crash m = rw (initlog-trace) (install-Agrees start size d.head f lt h d m l)
