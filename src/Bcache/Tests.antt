-- ===== src/Bcache/Tests.antt =====
-- The buffer cache after `binit`, and a block that is read, written and released.
use cs.Common.{ℕ, ◌≡◌, refl, false, true, some, arith, update}
use cs.SleepLock.{holding_sleep}
use cs.Bcache.{
  Buf, Bcache, nbuf, binit, init_from, push_front, seek, bget, Got, brelse, bwrite, set_buf,
}
use cs.Bcache.Inv.{down_from, binit-Good}
use cs.Bcache.Get.{BgetOk, bget-BgetOk, set_buf-Good}
use cs.Bcache.Release.{BrelseOk, brelse-BrelseOk}

abbrev zero_buf : Buf
zero_buf = record {
  valid = false;
  dev = 0;
  blockno = 0;
  lock = record { locked = false; pid = 0 };
  refcnt = 0;
  contents = 0;
}

-- Block `b` of any device holds `b + 100`.
abbrev zeroed : Bcache
zeroed = record { buf = λ b. zero_buf; next = λ b. 0; prev = λ b. 0; disk = λ dev b. b }

bget-BgetOk_example : BgetOk 1 33 (binit zeroed) (down_from nbuf) (bget 1 33 (binit zeroed))
bget-BgetOk_example = bget-BgetOk (binit-Good zeroed (λ i. refl)) 1 33 (λ e. omega (arith, e))

abbrev index_got : Got → ℕ
index_got (Got.got b s) = b
index_got Got.no_buffers = 100
index_got Got.lost = 101

-- The first block goes into the buffer at the end of the list.
first_got : index_got (bget 1 33 (binit zeroed)) ≡ 0
unfolding bget binit init_from push_front seek
first_got = refl

-- A cache where process 7 holds buffer 3 with block 33.
abbrev held : Buf
held = record ((binit zeroed).buf 3) {
  refcnt = 1;
  lock = record { locked = true; pid = 7 };
  contents = 5;
}

abbrev reading : Bcache
reading = set_buf (binit zeroed) 3 held

brelse-BrelseOk_example : BrelseOk 7 3 reading (down_from nbuf) (brelse 7 3 reading)
brelse-BrelseOk_example =
    brelse-BrelseOk (set_buf-Good (binit-Good zeroed (λ i. refl)) 3 held refl refl) 7 3
      (omega arith)

abbrev written : Bcache
written = record reading {
  disk = update reading.disk held.dev (update (reading.disk held.dev) held.blockno 5);
}

write_done : bwrite 7 3 reading ≡ some written
unfolding bwrite holding_sleep
write_done = refl

other_buffer :
    ((written.buf 4).valid ≡ false)
    × ((written.buf 4).dev ≡ (reading.buf 3).dev)
    × ((written.buf 4).blockno ≡ (reading.buf 3).blockno)
unfolding binit init_from push_front
other_buffer = (refl, refl, refl)
