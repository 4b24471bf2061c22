-- ===== src/MemsetAvx/Fill.antt =====
-- What `memset_movnt_avx` leaves in memory, and that none of its vector stores faults.
use persimmon.Base.{
  ℕ, zero, suc, ◌+◌, ◌-◌, ◌*◌, ◌%◌, ◌≤◌, ◌<◌, ◌≡◌, ◌≢◌, refl, some, ◌>>=◌, ◌⊎◌, ap, le→leb, ge→leb,
  dec_lt, ◌∙◌, arith, Memory, store, fill, store-eq-fill, fill-fill, fill-zero,
}
use persimmon.MemsetAvx.{
  Cursor, set1, stream_aligned, stream_run, memset_movnt8x64b, memset_movnt4x64b, memset_movnt2x64b,
  memset_movnt1x64b, memset_movnt1x32b, memset_movnt1x16b, memset_movnt1x8b, memset_movnt1x4b,
  memset_small_avx, align_head, advance, big_loop, when_at_least, last_store, memset_movnt_avx,
}

store-set1 : (m : Memory) (a n c : ℕ) → store m a n (set1 c) ≡ fill m a n (c % 256)
unfolding set1
store-set1 m a n c = store-eq-fill m a n (c % 256)

-- The stores of a run lie side by side.
stream_run-fill :
    (n i : ℕ) (m : Memory) (dest c : ℕ)
    → dest % 32 ≡ 0
    → stream_run n i (fill m dest (32 * i) (c % 256)) dest (set1 c)
      ≡ some (fill m dest (32 * (i + n)) (c % 256))
unfolding stream_run stream_aligned
stream_run-fill zero i m dest c h = ap (λ k. some (fill m dest (32 * k) (c % 256))) (omega arith)
stream_run-fill (suc n) i m dest c h = ground (
  arith,
  store-set1 (fill m dest (32 * i) (c % 256)) (dest + 32 * i) 32 c,
  fill-fill m dest (32 * i) (dest + 32 * i) 32 (32 * (i + 1)) (c % 256),
  stream_run-fill n (i + 1) m dest c h,
)

-- Two stores of k bytes at the ends of [dest, dest + len).
both_ends :
    (m : Memory) (dest c k len : ℕ)
    → k ≤ len
    → len ≤ k + k
    → store (store m dest k (set1 c)) (dest + len - k) k (set1 c) ≡ fill m dest len (c % 256)
both_ends m dest c k len h₁ h₂ =
    rw (store-set1 m dest k c, store-set1 (fill m dest k (c % 256)) (dest + len - k) k c)
      (fill-fill m dest k (dest + len - k) k len (c % 256) (omega arith) (omega arith) (omega arith)
        (omega arith))

-- Every length up to 64 but 0, each by its own pair of stores.
memset_small-fill :
    (m : Memory) (dest c len : ℕ)
    → 0 < len
    → len ≤ 64
    → memset_small_avx m dest (set1 c) len ≡ fill m dest len (c % 256)
unfolding memset_small_avx
memset_small-fill m dest c len h k = ground (
  arith,
  store-set1 m dest 1 c,
  store-set1 m dest 2 c,
  both_ends m dest c 2 len,
  both_ends m dest c 4 len,
  both_ends m dest c 8 len,
  both_ends m dest c 16 len,
  both_ends m dest c 32 len,
)

module _ (m₀ : Memory) (d₀ c total : ℕ) where
  -- The first bytes are filled, up to the cursor, and what is left starts a cache line.
  pub record Filled (s : Cursor) : Type 0 where
    pub start : d₀ ≤ s.dest
    pub whole : s.dest + s.len ≡ d₀ + total
    pub done : s.memory ≡ fill m₀ d₀ (s.dest - d₀) (c % 256)
    pub aligned : (s.len ≡ 0) ⊎ (s.dest % 64 ≡ 0)

  align_head-Filled :
      (0 < total) ⊎ (d₀ % 64 ≡ 0)
      → Filled (align_head c (record { memory = m₀; dest = d₀; len = total }))
  unfolding align_head
  align_head-Filled h = ground (
    arith,
    memset_small-fill m₀ d₀ c total,
    memset_small-fill m₀ d₀ c (64 - d₀ % 64),
    fill-zero m₀ d₀ (c % 256),
  )

  abbrev forward : ℕ → Cursor → Cursor
  forward n s = record {
    memory = fill s.memory s.dest n (c % 256);
    dest = s.dest + n;
    len = s.len - n;
  }

  fill-fill_rest :
      (s : Cursor) (n : ℕ)
      → Filled s
      → n ≤ s.len
      → fill s.memory s.dest n (c % 256) ≡ fill m₀ d₀ (s.dest + n - d₀) (c % 256)
  fill-fill_rest s n f h = rw f.done (
      fill-fill m₀ d₀ (s.dest - d₀) s.dest n (s.dest + n - d₀) (c % 256) (omega (arith, f.start))
        (omega (arith, f.start)) (omega arith) (omega (arith, f.start)))

  forward-Filled : (n : ℕ) (s : Cursor) → Filled s → n ≤ s.len → n % 64 ≡ 0 → Filled (forward n s)
  forward-Filled n s f h k = record {
    start = omega arith;
    whole = omega arith;
    done = fill-fill_rest s n f h;
    aligned = ground arith;
  }

  run-advance :
      (k n : ℕ) (s : Cursor)
      → s.dest % 32 ≡ 0
      → n ≡ 32 * k
      → (stream_run k 0 s.memory s.dest (set1 c) >>= advance n s) ≡ some (forward n s)
  unfolding advance
  run-advance k n s h e = rw (e, first) refl
    where
      first :
          stream_run k 0 s.memory s.dest (set1 c) ≡ some (fill s.memory s.dest (32 * k) (c % 256))
      first =
          ground
            (arith, fill-zero s.memory s.dest (c % 256), stream_run-fill k 0 s.memory s.dest c h)

  -- A run that fits at an aligned cursor.
  run-forward :
      (k n : ℕ) (s : Cursor)
      → Filled s
      → n ≤ s.len
      → 0 < n
      → n ≡ 32 * k
      → (stream_run k 0 s.memory s.dest (set1 c) >>= advance n s) ≡ some (forward n s)
  run-forward k n s f h p e = run-advance k n s (ground (arith, f.aligned)) e

  big_loop-more :
      (fuel : ℕ) (s : Cursor)
      → Filled s
      → 512 ≤ s.len
      → big_loop (suc fuel) c s ≡ big_loop fuel c (forward 512 s)
  unfolding big_loop memset_movnt8x64b
  big_loop-more fuel s f h = ground (arith, run-forward 16 512 s f h)

  big_loop-less : (fuel : ℕ) (s : Cursor) → s.len < 512 → big_loop (suc fuel) c s ≡ some s
  unfolding big_loop
  big_loop-less fuel s h = ground arith

  -- The loop leaves the invariant, and less than a round.
  big_loop-Filled :
      (fuel : ℕ) (s : Cursor)
      → Filled s
      → s.len < fuel
      → (t : Cursor) × (big_loop fuel c s ≡ some t) × Filled t × (t.len < 512)
  big_loop-Filled zero s f h = absurd (omega arith)
  big_loop-Filled (suc fuel) s f h = elim (dec_lt s.len 512) [
    | yes less ↦ (s, big_loop-less fuel s less, f, less)
    | no more ↦
        let (t, e, g, l) =
          big_loop-Filled fuel (forward 512 s) (forward-Filled 512 s f (omega arith) refl)
            (omega arith) in
        (t, big_loop-more fuel s f (omega arith) ∙ e, g, l)
  ]

  -- So does each test below it.
  when-Filled :
      (k n : ℕ) (s : Cursor)
      → Filled s
      → s.len < n + n
      → 0 < n
      → n % 64 ≡ 0
      → n ≡ 32 * k
      → (t : Cursor) × (when_at_least n (stream_run k 0) c s ≡ some t) × Filled t × (t.len < n)
  unfolding when_at_least
  when-Filled k n s f h p a e = elim (dec_lt s.len n) [
    | yes less ↦ (s, rw (ge→leb n s.len less), f, less)
    | no more ↦ (
      forward n s,
      rw (le→leb n s.len (omega arith)) (run-forward k n s f (omega arith) p e),
      forward-Filled n s f (omega arith) a,
      omega arith,
    )
  ]

  -- What is left, less than a line, is filled by one store or by `memset_small_avx`.
  last_store-fill :
      (s : Cursor) → Filled s → s.len < 64 → last_store c s ≡ some (fill m₀ d₀ total (c % 256))
  unfolding last_store memset_movnt1x32b memset_movnt1x16b memset_movnt1x8b memset_movnt1x4b
      stream_aligned
  last_store-fill s f h = ground (
    arith,
    f.aligned,
    fill-fill_rest s s.len f,
    store-set1 s.memory s.dest 32 c,
    store-set1 s.memory s.dest 16 c,
    store-set1 s.memory s.dest 8 c,
    store-set1 s.memory s.dest 4 c,
    memset_small-fill s.memory s.dest c s.len,
    fill-zero s.memory s.dest (c % 256),
  )

-- Writes the byte `c` to every address of [dest, dest + len) and nowhere else, and no store faults,
-- for every length and alignment but an empty range that starts inside a cache line.
pub memset_movnt_avx-fill :
    (m : Memory) (dest c len : ℕ)
    → (0 < len) ⊎ (dest % 64 ≡ 0)
    → memset_movnt_avx m dest c len ≡ some (fill m dest len (c % 256))
unfolding memset_movnt_avx memset_movnt4x64b memset_movnt2x64b memset_movnt1x64b
memset_movnt_avx-fill m dest c len h =
    let f = align_head-Filled m dest c len h in
    let (s₁, e₁, f₁, l₁) =
      big_loop-Filled m dest c len (len + 1) _ f (omega (arith, f.whole, f.start)) in
    let (s₂, e₂, f₂, l₂) = when-Filled m dest c len 8 256 s₁ f₁ l₁ (omega arith) refl refl in
    let (s₃, e₃, f₃, l₃) = when-Filled m dest c len 4 128 s₂ f₂ l₂ (omega arith) refl refl in
    let (s₄, e₄, f₄, l₄) = when-Filled m dest c len 2 64 s₃ f₃ l₃ (omega arith) refl refl in
    rw (e₁, e₂, e₃, e₄) (last_store-fill m dest c len s₄ f₄ l₄)

-- Asked for no byte at an address inside a cache line, it still writes the byte at `dest`.
pub memset_movnt_avx-zero_unaligned :
    (m : Memory) (dest c : ℕ)
    → dest % 64 ≢ 0
    → memset_movnt_avx m dest c 0 ≡ some (fill m dest 1 (c % 256))
unfolding memset_movnt_avx align_head big_loop when_at_least last_store memset_small_avx
memset_movnt_avx-zero_unaligned m dest c h = ground (arith, store-set1 m dest 1 c)
