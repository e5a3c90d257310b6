-- ===== src/Fs/Trunc.antt =====
-- `itrunc` gives back all blocks of a file and no other.
use cs.Common.{
  ℕ, zero, suc, ◌+◌, ◌-◌, ◌<◌, ◌≤◌, ◌≡◌, ◌≢◌, refl, ◌∙◌, subst, Bool, true, false, ◌==◌, ==_iff,
  inl, inr, ◌&&◌, ltb, leb, if◌then◌else◌, update, arith, Bool-cases, Succeeds, Succeeds-bind,
  Succeeds-map,
}
use cs.Fs.{Superblock, Store, Dinode}
use cs.Fs.Bitmap.{bfree}
use cs.Fs.Alloc.{in_use, bfree-Succeeds}
use cs.Fs.Map.{File, trunc_direct, trunc_indirect}

-- The blocks that `v` names from `a` on, `n` of them, were in use and are free, and the others are as
-- before.
abbrev pub Freed : (v : ℕ → ℕ) (a n : ℕ) (used used' : ℕ → Bool) → Type 0
Freed v a n used used' =
    ((i : ℕ) → a ≤ i → i < a + n → v i ≢ 0 → used' (v i) ≡ false)
    × ((c : ℕ) → ((i : ℕ) → a ≤ i → i < a + n → v i ≢ 0 → v i ≢ c) → used' c ≡ used c)

-- The blocks are in use and are named once.
abbrev pub Live : (v : ℕ → ℕ) (a n : ℕ) (used : ℕ → Bool) → Type 0
Live v a n used =
    ((i : ℕ) → a ≤ i → i < a + n → v i ≢ 0 → used (v i) ≡ true)
    × ((i j : ℕ) → a ≤ i → i < a + n → a ≤ j → j < a + n → i ≢ j → v i ≡ v j → v i ≡ 0)

module _ (v : ℕ → ℕ) (a n : ℕ) (used : ℕ → Bool) where
  pub Live-skip : Live v a (suc n) used → Live v (suc a) n used
  Live-skip (live, once) = (
    λ i le lt. live i (omega (arith, le)) (omega (arith, lt)),
    λ i j p q r t.
        once i j (omega (arith, p)) (omega (arith, q)) (omega (arith, r)) (omega (arith, t)),
  )

  Freed-skip :
      (used' : ℕ → Bool) → v a ≡ 0 → Freed v (suc a) n used used' → Freed v a (suc n) used used'
  Freed-skip used' z (gone, same) = (
    λ i le lt named. gone i (ground (arith, le, z, named)) (omega (arith, lt)) named,
    λ c h. same c (λ i le lt. h i (omega (arith, le)) (omega (arith, lt))),
  )

  module _ (used1 : ℕ → Bool)
      (step : (c : ℕ) → used1 c ≡ (if c == v a then false else used c)) where
    Live-one : v a ≢ 0 → Live v a (suc n) used → Live v (suc a) n used1
    Live-one nz (live, once) = (
      λ i le lt named. ground (
        arith,
        step (v i),
        live i (omega (arith, le)) (omega (arith, lt)) named,
        once i a (omega (arith, le)) (omega (arith, lt)) (omega arith) (omega arith)
            (λ e. omega (arith, e, le)),
        named,
      ),
      λ i j p q r t.
          once i j (omega (arith, p)) (omega (arith, q)) (omega (arith, r)) (omega (arith, t)),
    )

    Freed-one :
        (used' : ℕ → Bool)
        → v a ≢ 0
        → Live v a (suc n) used
        → Freed v (suc a) n used1 used'
        → Freed v a (suc n) used used'
    Freed-one used' nz (live, once) (gone, same) = (
      λ i le lt named. elim (Bool-cases (i == a)) [
        | inl e ↦ rw ((==_iff i a).0 e) (
            same (v a) (λ j p q live_j twice. live_j (
              once j a (omega (arith, p)) (omega (arith, q)) (omega arith) (omega arith)
                (λ z. omega (arith, z, p)) twice))
            ∙ ground (arith, step (v a)))
        | inr e ↦ gone i (ground (arith, le, e)) (omega (arith, lt)) named
      ],
      λ c h.
          same c (λ i p q. h i (omega (arith, p)) (omega (arith, q)))
          ∙ ground (arith, step c, h a (omega arith) (omega arith) nz),
    )

module _ (sb : Superblock) where
  nothing-Freed : (v : ℕ → ℕ) (a : ℕ) (used : ℕ → Bool) → Freed v a 0 used used
  nothing-Freed v a used = (λ i le lt named. absurd (omega (arith, le, lt)), λ c h. refl)

  pub trunc_indirect-Freed :
      (v : ℕ → ℕ) (rest j : ℕ) (s : Store)
      → Live v j rest (in_use sb s)
      → Succeeds (λ s'. Freed v j rest (in_use sb s) (in_use sb s')) (trunc_indirect sb v rest j s)
  unfolding trunc_indirect
  trunc_indirect-Freed v zero j s l = nothing-Freed v j (in_use sb s)
  trunc_indirect-Freed v (suc rest) j s l = elim (Bool-cases (v j == 0)) [
    | inl e ↦ rw (e) (
        Succeeds-map (trunc_indirect sb v rest (suc j) s)
          (λ s' f. Freed-skip v j rest (in_use sb s) (in_use sb s') ((==_iff (v j) 0).0 e) f)
          (trunc_indirect-Freed v rest (suc j) s (Live-skip v j rest (in_use sb s) l)))
    | inr e ↦
        let named : v j ≢ 0 = λ z. ground (arith, e, z) in
        rw (e) (
          Succeeds-bind (λ s'. Freed v j (suc rest) (in_use sb s) (in_use sb s')) (bfree sb (v j) s)
            (λ s'. trunc_indirect sb v rest (suc j) s')
            (bfree-Succeeds sb s (v j) (l.0 j (omega arith) (omega arith) named))
            (λ s1 (step, _, _).
              Succeeds-map (trunc_indirect sb v rest (suc j) s1)
                (λ s' f.
                  Freed-one v j rest (in_use sb s) (in_use sb s1) step (in_use sb s') named l f)
                (trunc_indirect-Freed v rest (suc j) s1
                  (Live-one v j rest (in_use sb s) (in_use sb s1) step named l))))
  ]

module _ (v w : ℕ → ℕ) (used : ℕ → Bool) where
  -- The same blocks under other names.
  pub Live-rename :
      (k n : ℕ) → ((i : ℕ) → k ≤ i → i < k + n → v i ≡ w i) → Live v k n used → Live w k n used
  Live-rename k n same (live, once) = (
    λ i le lt named. ground (arith, same i le lt, live i le lt, named),
    λ i j p q r t ne twice. ground (arith, same i p q, same j r t, once i j p q r t ne, twice),
  )

  pub Freed-rename :
      (k n : ℕ) (used' : ℕ → Bool)
      → ((i : ℕ) → k ≤ i → i < k + n → v i ≡ w i)
      → Freed v k n used used'
      → Freed w k n used used'
  Freed-rename k n used' same (gone, others) = (
    λ i le lt named. ground (arith, same i le lt, gone i le lt, named),
    λ c h. others c (λ i le lt named twice.
        h i le lt (ground (arith, same i le lt, named)) (ground (arith, same i le lt, twice))),
  )

  -- The same blocks, counted from `k`.
  pub Live-shift :
      (k n : ℕ) → ((i : ℕ) → i < n → v (i + k) ≡ w i) → Live v k n used → Live w 0 n used
  Live-shift k n same (live, once) = (
    λ i le lt named.
        ground (
          arith,
          same i (omega (arith, lt)),
          live (i + k) (omega arith) (omega (arith, lt)),
          named,
        ),
    λ i j p q r t ne twice. ground (
      arith,
      same i (omega (arith, q)),
      same j (omega (arith, t)),
      once (i + k) (j + k) (omega arith) (omega (arith, q)) (omega arith) (omega (arith, t))
          (λ e. ne (omega (arith, e))),
      twice,
    ),
  )

  pub Freed-shift :
      (k n : ℕ) (used' : ℕ → Bool)
      → ((i : ℕ) → i < n → v (i + k) ≡ w i)
      → Freed w 0 n used used'
      → Freed v k n used used'
  Freed-shift k n used' same (gone, others) = (
    λ i le lt named.
        let back : i - k + k ≡ i = omega (arith, le) in
        let e : v i ≡ w (i - k) =
          subst (λ x. v x ≡ w (i - k)) back (same (i - k) (omega (arith, le, lt))) in
        ground (arith, e, gone (i - k) (omega arith) (omega (arith, le, lt)), named),
    λ c h. others c (λ i le lt named twice.
        h (i + k) (omega arith) (omega (arith, lt))
          (ground (arith, same i (omega (arith, lt)), named))
          (ground (arith, same i (omega (arith, lt)), twice))),
  )

-- One more block, freed after the others.
pub Freed-before :
    (v : ℕ → ℕ) (a n : ℕ) (used used1 used2 : ℕ → Bool)
    → ((c : ℕ) → used2 c ≡ (if c == v a then false else used1 c))
    → v a ≢ 0
    → Freed v (suc a) n used used1
    → Freed v a (suc n) used used2
Freed-before v a n used used1 used2 step nz (gone, others) = (
  λ i le lt named. elim (Bool-cases (i == a)) [
    | inl e ↦ ground (arith, step (v a), (==_iff i a).0 e)
    | inr e ↦ ground (arith, step (v i), gone i (ground (arith, e, le)) (omega (arith, lt)) named)
  ],
  λ c h.
      ground (arith, step c, h a (omega arith) (omega arith) nz)
      ∙ others c (λ i p q. h i (omega (arith, p)) (omega (arith, q))),
)

-- One range after the other.
pub Freed-then :
    (v : ℕ → ℕ) (n m : ℕ) (used used1 used2 : ℕ → Bool)
    → Live v 0 (n + m) used
    → Freed v 0 n used used1
    → Freed v n m used1 used2
    → Freed v 0 (n + m) used used2
Freed-then v n m used used1 used2 (live, once) (gone, others) (gone', others') = (
  λ i le lt named. elim (Bool-cases (ltb i n)) [
    | inl e ↦
        others' (v i) (λ j p q live_j twice. live_j (
          once j i (omega arith) (omega (arith, q)) (omega arith) (omega (arith, lt))
            (λ z. ground (arith, e, p, z)) twice))
        ∙ gone i (omega arith) (ground (arith, e)) named
    | inr e ↦ gone' i (ground (arith, e)) (omega (arith, lt)) named
  ],
  λ c h.
      others' c (λ i p q. h i (omega arith) (omega (arith, q)))
      ∙ others c (λ i p q. h i (omega arith) (omega (arith, q))),
)

-- What is left of the second range when the first one is freed.
pub Live-after :
    (v : ℕ → ℕ) (n m : ℕ) (used used1 : ℕ → Bool)
    → Live v 0 (n + m) used
    → Freed v 0 n used used1
    → Live v n m used1
Live-after v n m used used1 (live, once) (gone, others) = (
  λ i le lt named.
      others (v i) (λ j p q live_j twice. live_j (
        once j i (omega arith) (omega (arith, q)) (omega arith) (omega (arith, lt))
          (λ z. omega (arith, q, le, z)) twice))
      ∙ live i (omega arith) (omega (arith, lt)) named,
  λ i j p q r t. once i j (omega arith) (omega (arith, q)) (omega arith) (omega (arith, t)),
)

-- What the first loop does.
abbrev pub DirectDone : Superblock → File → ℕ → ℕ → File → Type 0
DirectDone sb (ip, s) a n (ip', s') =
    Freed ip.addrs a n (in_use sb s) (in_use sb s')
    × ((j : ℕ) → ip'.addrs j ≡ (if leb a j && ltb j (a + n) then 0 else ip.addrs j))
    × (s'.words ≡ s.words)

skipped :
    (ip ip' : Dinode) (i rest j : ℕ)
    → ip.addrs i ≡ 0
    → ip'.addrs j ≡ (if leb (suc i) j && ltb j (suc i + rest) then 0 else ip.addrs j)
    → ip'.addrs j ≡ (if leb i j && ltb j (i + suc rest) then 0 else ip.addrs j)
skipped ip ip' i rest j z put = elim (Bool-cases (j == i)) [
  | inl e ↦ ground (arith, (==_iff j i).0 e, z, put)
  | inr e ↦ ground (arith, e, put)
]

module _ (sb : Superblock) where
  pub trunc_direct-DirectDone :
      (rest i : ℕ) (ip : Dinode) (s : Store)
      → Live ip.addrs i rest (in_use sb s)
      → Succeeds (DirectDone sb (ip, s) i rest) (trunc_direct sb rest i (ip, s))
  unfolding trunc_direct
  trunc_direct-DirectDone zero i ip s l =
      (nothing-Freed sb ip.addrs i (in_use sb s), λ j. ground arith, refl)
  trunc_direct-DirectDone (suc rest) i ip s l = elim (Bool-cases (ip.addrs i == 0)) [
    | inl e ↦
        let z = (==_iff (ip.addrs i) 0).0 e in
        rw (e) (
          Succeeds-map (trunc_direct sb rest (suc i) (ip, s))
            (λ (ip', s') (f, put, same). (
              Freed-skip ip.addrs i rest (in_use sb s) (in_use sb s') z f,
              λ j. skipped ip ip' i rest j z (put j),
              same,
            ))
            (trunc_direct-DirectDone rest (suc i) ip s (Live-skip ip.addrs i rest (in_use sb s) l)))
    | inr e ↦
        let named : ip.addrs i ≢ 0 = λ z. ground (arith, e, z) in
        let ip1 = record ip { addrs = update ip.addrs i 0 } in
        rw (e) (
          Succeeds-bind (DirectDone sb (ip, s) i (suc rest)) (bfree sb (ip.addrs i) s)
            (λ s1. trunc_direct sb rest (suc i) (ip1, s1))
            (bfree-Succeeds sb s (ip.addrs i) (l.0 i (omega arith) (omega arith) named))
            (λ s1 (step, same1, _).
              Succeeds-map (trunc_direct sb rest (suc i) (ip1, s1))
                (λ (ip', s') (f, put, same). (
                  Freed-one ip.addrs i rest (in_use sb s) (in_use sb s1) step (in_use sb s') named l
                      (Freed-rename ip1.addrs ip.addrs (in_use sb s1) (suc i) rest (in_use sb s')
                        (λ j le lt. ground (arith, le)) f),
                  λ j. ground (arith, put j),
                  same ∙ same1,
                ))
                (trunc_direct-DirectDone rest (suc i) ip1 s1 (
                  Live-rename ip.addrs ip1.addrs (in_use sb s1) (suc i) rest
                    (λ j le lt. ground (arith, le))
                    (Live-one ip.addrs i rest (in_use sb s) (in_use sb s1) step named l)))))
  ]
