-- ===== src/Fs/Write.antt =====
-- `writei` puts the bytes into the file and changes no other byte of it.
use cs.Common.{
  ℕ, zero, suc, ◌+◌, ◌-◌, ◌*◌, ◌/◌, ◌%◌, ◌<◌, ◌≤◌, ◌≡◌, ◌≢◌, refl, ap, ◌∙◌, sym, Bool, true, ◌==◌,
  ==_iff, inl, inr, ◌⊎◌, Option, some, ltb, if◌then◌else◌, update, arith, Bool-cases, Succeeds,
  Succeeds-bind, Succeeds-map,
}
use cs.Strings.{Memory}
use cs.Fs.{Superblock, bsize}
use cs.Fs.Alloc.{in_use}
use cs.Fs.Map.{File, bmap}
use cs.Fs.Owned.{slot, place_of, Owned, IsFull, Found, bmap-Found}
use cs.Fs.Content.{copy_range, chunk, set_bytes, write_from}
use cs.Fs.Read.{block_at, byte_at}

-- The state of a file that `writei` keeps.
abbrev pub IsSound : Superblock → File → Type 0
IsSound sb f = Owned (in_use sb f.1) (slot f) × (in_use sb f.1 0 ≡ true)

-- The bytes from `off` up to `end` are there and are those of memory from `src` on; every other byte
-- that was there is as it was.
abbrev pub Wrote : (off end src : ℕ) → Memory → File → File → Type 0
Wrote off end src mem f f' =
    ((o : ℕ) → off ≤ o → o < end → (block_at f' o ≢ 0) × (byte_at f' o ≡ mem (src + (o - off))))
    × ((o : ℕ)
        → (o < off) ⊎ (end ≤ o)
        → block_at f o ≢ 0
        → (block_at f' o ≢ 0) × (byte_at f' o ≡ byte_at f o))

place_of-injective : (a b : ℕ) → place_of a ≡ place_of b → a ≡ b
place_of-injective a b e = ground (arith, e)

outside_block :
    (o off m : ℕ)
    → m ≤ bsize - off % bsize
    → (o < off) ⊎ (off + m ≤ o)
    → o / bsize ≡ off / bsize
    → (o % bsize < off % bsize) ⊎ (off % bsize + m ≤ o % bsize)
outside_block o off m fits (inl lt) e = inl (omega (arith, lt, e))
outside_block o off m fits (inr ge) e = inr (omega (arith, ge, e, fits))

update_same : (g : ℕ → ℕ → ℕ) (a : ℕ) (b : ℕ → ℕ) (c i : ℕ) → c ≡ a → update g a b c i ≡ b i
update_same g a b c i e = ground (arith, e)

update_other : (g : ℕ → ℕ → ℕ) (a : ℕ) (b : ℕ → ℕ) (c i : ℕ) → c ≢ a → update g a b c i ≡ g c i
update_other g a b c i ne = ground (arith, ne)

copied_byte :
    (mem old : Memory) (src d m i j : ℕ)
    → i ≡ d + j
    → j < m
    → copy_range (λ k. mem (src + k)) d m old i ≡ mem (src + j)
copied_byte mem old src d m i j e lt =
    let back : i - d ≡ j = omega (arith, e) in ground (arith, e, lt, back)

old_byte :
    (from old : Memory) (d m i : ℕ) → (i < d) ⊎ (d + m ≤ i) → copy_range from d m old i ≡ old i
old_byte from old d m i out = ground (arith, out)

-- One round: `m` bytes from `off` on, in one block.
round-Wrote :
    (sb : Superblock) (f f1 : File) (addr off m src : ℕ) (mem : Memory)
    → Found sb f (place_of (off / bsize)) (addr, f1)
    → addr ≢ 0
    → m ≤ bsize - off % bsize
    → Wrote off
        (off + m)
        src
        mem
        f
        (set_bytes f1 addr (copy_range (λ i. mem (src + i)) (off % bsize) m (f1.1.bytes addr)))
round-Wrote sb f f1 addr off m src mem p nz fits = (
  λ o le lt.
      let same_block : o / bsize ≡ off / bsize = omega (arith, le, lt, fits) in
      let place : o % bsize ≡ off % bsize + (o - off) = omega (arith, le, lt, fits) in
      let here : block_at f1 o ≡ addr = ap (λ b. slot f1 (place_of b)) same_block ∙ sym p.at in
      (
        λ z. nz (sym here ∙ z),
        update_same f1.1.bytes addr
              (copy_range (λ i. mem (src + i)) (off % bsize) m (f1.1.bytes addr)) (block_at f1 o)
              (o % bsize) here
            ∙ copied_byte mem (f1.1.bytes addr) src (off % bsize) m (o % bsize) (o - off) place
                (omega (arith, le, lt)),
      ),
  λ o outside there.
      let kept : block_at f1 o ≡ block_at f o = p.kept (place_of (o / bsize)) there in
      let same =
        ap (λ b. f1.1.bytes b (o % bsize)) kept
        ∙ p.same_bytes (place_of (o / bsize)) (o % bsize) there in
      let b = copy_range (λ i. mem (src + i)) (off % bsize) m (f1.1.bytes addr) in
      (
        λ z. there (sym kept ∙ z),
        elim (Bool-cases (o / bsize == off / bsize)) [
          | inl e ↦
              let bn : o / bsize ≡ off / bsize = (==_iff (o / bsize) (off / bsize)).0 e in
              let here : block_at f1 o ≡ addr = ap (λ b. slot f1 (place_of b)) bn ∙ sym p.at in
              update_same f1.1.bytes addr b (block_at f1 o) (o % bsize) here
              ∙ old_byte (λ i. mem (src + i)) (f1.1.bytes addr) (off % bsize) m (o % bsize)
                  (outside_block o off m fits outside bn)
              ∙ ap (λ c. f1.1.bytes c (o % bsize)) (sym here)
              ∙ same
          | inr e ↦
              let apart : place_of (o / bsize) ≢ place_of (off / bsize) =
                λ z. ground (arith, e, place_of-injective (o / bsize) (off / bsize) z) in
              update_other f1.1.bytes addr b (block_at f1 o) (o % bsize) (λ z. there (
                sym kept
                ∙ p.owned.1 (place_of (o / bsize)) (place_of (off / bsize)) apart (z ∙ p.at)))
              ∙ same
        ],
      ),
)

-- What the loop of `writei` promises where memory can be read: it stops short only on a full disk.
abbrev pub WriteDone : Superblock → File → (n tot off src : ℕ) → Memory → ℕ × ℕ × File → Type 0
WriteDone sb f n tot off src mem (tot', off', f') =
    IsSound sb f'
    × (off' + tot ≡ off + tot')
    × (tot ≤ tot')
    × (tot' ≤ n)
    × Wrote off off' src mem f f'
    × (tot' < n → IsFull sb f'.1)
    × (f'.0.size ≡ f.0.size)

-- Nothing more is written.
stop-WriteDone :
    (sb : Superblock) (f f' : File) (n tot off src : ℕ) (mem : Memory)
    → tot ≤ n
    → IsSound sb f'
    → ((o : ℕ) → block_at f o ≢ 0 → (block_at f' o ≢ 0) × (byte_at f' o ≡ byte_at f o))
    → (tot < n → IsFull sb f'.1)
    → f'.0.size ≡ f.0.size
    → WriteDone sb f n tot off src mem (tot, off, f')
stop-WriteDone sb f f' n tot off src mem le sound kept full size = (
  sound,
  refl,
  omega arith,
  le,
  (λ o from to. absurd (omega (arith, from, to)), λ o out there. kept o there),
  full,
  size,
)

-- A round and the rest.
step-WriteDone :
    (sb : Superblock) (f f1 : File) (n tot off src m : ℕ) (mem : Memory) (r : ℕ × ℕ × File)
    → Wrote off (off + m) src mem f f1
    → f1.0.size ≡ f.0.size
    → WriteDone sb f1 n (tot + m) (off + m) (src + m) mem r
    → WriteDone sb f n tot off src mem r
step-WriteDone sb f f1 n tot off src m mem (tot', off', f') (here, kept) size
      (sound, moved, more, le, (after, others), full, size') =
    (
      sound,
      omega (arith, moved),
      omega (arith, more),
      le,
      (
        λ o from to. elim (Bool-cases (ltb o (off + m))) [
          | inl e ↦
              let first = here o from (ground (arith, e)) in
              let second = others o (inl (ground (arith, e))) first.0 in
              (second.0, second.1 ∙ first.1)
          | inr e ↦
              let second = after o (ground (arith, e)) to in
              let place : src + m + (o - (off + m)) ≡ src + (o - off) = ground (arith, e) in
              (second.0, second.1 ∙ ap mem place)
        ],
        λ o out there.
            let first =
              kept o (elim out [ inl lt ↦ inl lt | inr ge ↦ inr (omega (arith, ge, moved, more)) ])
                there in
            let second =
              others o (elim out [ inl lt ↦ inl (omega (arith, lt)) | inr ge ↦ inr ge ]) first.0 in
            (second.0, second.1 ∙ first.1),
      ),
      full,
      size' ∙ size,
    )

-- A round that finds no block stops; else the rest is as good as its round.
round-WriteDone :
    (sb : Superblock) (f f1 : File) (addr n tot off src : ℕ) (mem : Memory)
    (rest : Option (ℕ × ℕ × File))
    → tot ≤ n
    → Found sb f (place_of (off / bsize)) (addr, f1)
    → (addr ≢ 0 → Succeeds (WriteDone sb f n tot off src mem) rest)
    → Succeeds (WriteDone sb f n tot off src mem) (if addr == 0 then some (tot, off, f1) else rest)
round-WriteDone sb f f1 addr n tot off src mem rest le p then_rest = elim (Bool-cases (addr == 0)) [
  | inl e ↦ rw (e) (
      stop-WriteDone sb f f1 n tot off src mem le (p.owned, p.boot)
        (λ o there.
          let kept = p.kept (place_of (o / bsize)) there in
          (
            λ z. there (sym kept ∙ z),
            ap (λ b. f1.1.bytes b (o % bsize)) kept
                ∙ p.same_bytes (place_of (o / bsize)) (o % bsize) there,
          ))
        (λ _. p.full ((==_iff addr 0).0 e)) p.same_size)
  | inr e ↦ rw (e) (then_rest (λ z. ground (arith, e, z)))
]

module _ (sb : Superblock) (ok : ℕ → ℕ → Bool) (fine : (d m : ℕ) → ok d m ≡ true)
    (mem : Memory) where
  pub write_from-WriteDone :
      (fuel tot n off src : ℕ) (f : File)
      → tot ≤ n
      → n < tot + fuel
      → off + (n - tot) ≤ 268 * bsize
      → IsSound sb f
      → Succeeds (WriteDone sb f n tot off src mem) (write_from sb ok fuel tot n off src f mem)
  unfolding write_from
  write_from-WriteDone zero tot n off src f le more fits sound = absurd (omega (arith, le, more))
  write_from-WriteDone (suc fuel) tot n off src f le more fits sound =
      elim (Bool-cases (ltb tot n)) [
        | inr ge ↦ rw (ge) (
            stop-WriteDone sb f f n tot off src mem le sound (λ o there. (there, refl))
              (λ lt. absurd (ground (arith, ge, lt))) refl)
        | inl lt ↦ elim (bmap-Found sb (off / bsize) f sound.0 sound.1) [
          | inr (beyond, _) ↦ absurd (ground (arith, lt, fits, beyond))
          | inl (_, found) ↦
              let m = chunk n tot off in
              let less : m ≤ n - tot = omega arith in
              let inside : m ≤ bsize - off % bsize = omega arith in
              rw (lt, fine src m)
                (Succeeds-bind (WriteDone sb f n tot off src mem) (bmap sb (off / bsize) f) _ found
                  (λ (addr, f1) p.
                    let f2 =
                      set_bytes f1 addr
                        (copy_range (λ i. mem (src + i)) (off % bsize) m (f1.1.bytes addr)) in
                    round-WriteDone sb f f1 addr n tot off src mem
                      (write_from sb ok fuel (tot + m) n (off + m) (src + m) f2 mem) le p
                      (λ nz.
                        Succeeds-map {P = WriteDone sb f2 n (tot + m) (off + m) (src + m) mem}
                          (write_from sb ok fuel (tot + m) n (off + m) (src + m) f2 mem)
                          (λ r d.
                            step-WriteDone sb f f2 n tot off src m mem r
                              (round-Wrote sb f f1 addr off m src mem p nz inside) p.same_size d)
                          (write_from-WriteDone fuel (tot + m) n (off + m) (src + m) f2
                            (ground (arith, lt)) (ground (arith, lt, more))
                            (ground (arith, lt, fits)) (p.owned, p.boot)))))
        ]
      ]
