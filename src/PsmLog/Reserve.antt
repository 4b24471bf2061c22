-- ===== src/PsmLog/Reserve.antt =====
-- `psm_reserve`: what it returns overwrites nothing that the consumer has yet to read.
use persimmon.Base.{
  ℕ, ◌+◌, ◌%◌, ◌≤◌, ◌<◌, ◌≡◌, ◌^◌, refl, true, false, arith, List, [], ◌∷◌, All, inside, inl, inr,
  fill, dec_lt, sym, subst, ◌∙◌,
}
use persimmon.PsmLog.{
  log_size, free_space, align_to_cache_line_size, Psm, done, abort, spinning, Run-cases,
  done-injective, spin_for_space, truncated, needed, place, reserve_aligned, reserve,
}
use persimmon.Flush.{flush_line}
use persimmon.PsmLog.Live.{distance, IsOffset, IsValid, Lags, IsLive, free_space_lem, align_up}

-- The loop ends only with a tail that leaves room.
spin_for_space-Lags :
    (p : Psm) (len lt : ℕ) (loads : List ℕ) (r : ℕ)
    → Lags p lt
    → All (Lags p) loads
    → spin_for_space len p.local_head lt loads ≡ done r
    → Lags p r × (len ≤ free_space p.local_head r)
unfolding spin_for_space
spin_for_space-Lags p len lt [] r l a e = ground arith
spin_for_space-Lags p len lt (t ∷ loads) r l a e =
    ground (arith, spin_for_space-Lags p len t loads r a.0 a.1)

-- The needed bytes never exceed what lies between `local_head` and the consumer's tail.
room :
    (p : Psm) (n lt : ℕ)
    → IsValid p
    → Lags p lt
    → n ≤ free_space p.local_head lt
    → distance p.tail p.local_head + n < log_size
room p n lt v l h =
    omega (arith, v.local_head_offset, free_space_lem p.local_head lt v.local_head_offset.0 l.0.0)

pub reserve_aligned-some :
    (p : Psm) (n : ℕ) (loads : List ℕ) (r : ℕ)
    → IsValid p
    → spin_for_space (needed p n) p.local_head p.local_tail loads ≡ done r
    → reserve_aligned p n loads ≡ done (place p n r)
unfolding reserve_aligned
reserve_aligned-some p n loads r v e = rw (e, reserve_aligned) (ground (arith, v.local_head_offset))

-- What the producer gets for a request of `n` bytes, a multiple of the line size.
pub record Placed (p : Psm) (n dest : ℕ) (q : Psm) : Type 0 where
  pub at_line : IsOffset dest
  pub within : dest + n ≤ log_size
  pub next : q.local_head ≡ (dest + n) % log_size
  pub grown : distance p.tail q.local_head ≡ distance p.tail p.local_head + needed p n
  pub same_tail : q.tail ≡ p.tail
  pub same_head : q.head ≡ p.head
  pub room_left : distance p.tail p.local_head + needed p n < log_size
  -- At `local_head`, or at the front behind a padding mark.
  pub here : truncated p n ≡ false → dest ≡ p.local_head
  pub front : truncated p n ≡ true → (dest ≡ 0) × (q.buf p.local_head ≡ 0)
  -- The bytes handed out are none of those in use, and those stay as they are.
  pub fresh : (x : ℕ) → x < log_size → IsLive p x → inside dest n x ≡ false
  pub kept : (x : ℕ) → x < log_size → IsLive p x → q.buf x ≡ p.buf x
  pub synced :
      (x : ℕ) → x < log_size → IsLive p x → p.persisted x ≡ p.buf x → q.persisted x ≡ q.buf x

module _ (p : Psm) (n lt : ℕ) (v : IsValid p) (l : Lags p lt) (pos : 0 < n) (line : n % 64 ≡ 0)
    (small : n < log_size) (fits : needed p n ≤ free_space p.local_head lt) where
  enough : distance p.tail p.local_head + needed p n < log_size
  enough = room p (needed p n) lt v l fits

  abbrev dest : ℕ
  dest = (place p n lt).0

  abbrev after : Psm
  after = (place p n lt).1

  place-at_line : IsOffset (place p n lt).0 × ((place p n lt).0 + n ≤ log_size)
  unfolding place
  place-at_line = ground (arith, v.local_head_offset)

  place-next :
      ((place p n lt).1.local_head ≡ ((place p n lt).0 + n) % log_size)
      × (distance p.tail (place p n lt).1.local_head ≡ distance p.tail p.local_head + needed p n)
  unfolding place
  place-next = ground (arith, v.local_head_offset, v.tail_offset, enough)

  place-fresh : (x : ℕ) → x < log_size → IsLive p x → inside (place p n lt).0 n x ≡ false
  unfolding place
  place-fresh x b live = ground (arith, v.local_head_offset, v.tail_offset, enough)

  place-kept : (x : ℕ) → x < log_size → IsLive p x → (place p n lt).1.buf x ≡ p.buf x
  unfolding place fill
  place-kept x b live = ground (arith, v.local_head_offset, v.tail_offset, enough)

  place-synced :
      (x : ℕ)
      → x < log_size
      → IsLive p x
      → p.persisted x ≡ p.buf x
      → (place p n lt).1.persisted x ≡ (place p n lt).1.buf x
  unfolding place fill flush_line
  place-synced x b live same = ground (arith, v.local_head_offset, v.tail_offset, enough)

  place-front :
      truncated p n ≡ true → ((place p n lt).0 ≡ 0) × ((place p n lt).1.buf p.local_head ≡ 0)
  unfolding place fill
  place-front e = rw e (refl, ground arith)

  place-Placed : Placed p n (place p n lt).0 (place p n lt).1
  unfolding place
  place-Placed = record {
    at_line = place-at_line.0;
    within = place-at_line.1;
    next = place-next.0;
    grown = place-next.1;
    same_tail = ground arith;
    same_head = ground arith;
    room_left = enough;
    here = λ e. ground arith;
    front = λ e. place-front e;
    fresh = place-fresh;
    kept = place-kept;
    synced = place-synced;
  }

  place-lagging :
      distance lt (place p n lt).1.local_head
      ≡ distance lt p.tail + distance p.tail (place p n lt).1.local_head
  place-lagging = omega (
    arith,
    place-next.0,
    place-next.1,
    place-at_line.0,
    place-at_line.1,
    v.local_head_offset,
    v.tail_offset,
    free_space_lem p.local_head lt v.local_head_offset.0 l.0.0,
  )

  place-log : ((place p n lt).1.log_head ≡ p.log_head) × ((place p n lt).1.log_tail ≡ p.log_tail)
  unfolding place
  place-log = (ground arith, ground arith)

  place-local_tail : (place p n lt).1.local_tail ≡ lt
  unfolding place
  place-local_tail = ground arith

  -- The invariant holds again.
  place-IsValid : IsValid (place p n lt).1
  place-IsValid =
      let f = place-Placed in
      record {
        tail_offset = rw f.same_tail v.tail_offset;
        head_offset = rw f.same_head v.head_offset;
        local_head_offset = rw f.next (omega (arith, f.at_line));
        local_tail_offset = rw place-local_tail l.0;
        synced_head = rw f.same_head (place-log.0 ∙ v.synced_head);
        synced_tail = rw f.same_tail (place-log.1 ∙ v.synced_tail);
        published = rw (f.same_tail, f.same_head) (omega (arith, f.grown, v.published));
        lagging = rw (f.same_tail, place-local_tail) place-lagging;
      }

  place-all : IsValid (place p n lt).1 × Placed p n (place p n lt).0 (place p n lt).1
  place-all = (place-IsValid, place-Placed)

module _ (p : Psm) (n : ℕ) (loads : List ℕ) where
  reserve_aligned-abort :
      spin_for_space (needed p n) p.local_head p.local_tail loads ≡ abort
      → reserve_aligned p n loads ≡ abort
  unfolding reserve_aligned
  reserve_aligned-abort s = rw (s, reserve_aligned) refl

  pub reserve_aligned-spinning :
      spin_for_space (needed p n) p.local_head p.local_tail loads ≡ spinning
      → reserve_aligned p n loads ≡ spinning
  unfolding reserve_aligned
  reserve_aligned-spinning s = rw (s, reserve_aligned) refl

module _ (p : Psm) (n : ℕ) (loads : List ℕ) (v : IsValid p) (a : All (Lags p) loads) (pos : 0 < n)
    (line : n % 64 ≡ 0) (small : n < log_size) where
  reserve_aligned-Placed :
      (r : ℕ × Psm) → reserve_aligned p n loads ≡ done r → IsValid r.1 × Placed p n r.0 r.1
  reserve_aligned-Placed r e =
      elim (Run-cases (spin_for_space (needed p n) p.local_head p.local_tail loads)) [
        | inl (lt, s) ↦
            let (l, f) =
              spin_for_space-Lags p (needed p n) p.local_tail loads lt
                (v.local_tail_offset, v.lagging) a s in
            let same : place p n lt ≡ r =
              done-injective (sym (reserve_aligned-some p n loads lt v s) ∙ e) in
            subst (λ r. IsValid r.1 × Placed p n r.0 r.1) same
              (place-all p n lt v l pos line small f)
        | inr (inl s) ↦ let stuck = reserve_aligned-abort p n loads s in cc
        | inr (inr s) ↦ let stuck = reserve_aligned-spinning p n loads s in cc
      ]

-- Where `psm_reserve` returns for a request of less than 2^31 bytes, from a log with the invariant and with
-- loads that return the tail or an earlier one, the producer owns [dest, dest + len): it lies in the buffer at a
-- cache line, shares no byte with an entry or padding between the tail and `local_head`, all of
-- which keep their contents, and the invariant holds again with `local_head` behind it.
pub reserve-Placed :
    (p : Psm) (len : ℕ) (loads : List ℕ) (dest : ℕ) (q : Psm)
    → IsValid p
    → All (Lags p) loads
    → len < 2 ^ 31
    → reserve p len loads ≡ done (dest, q)
    → IsValid q
      × Placed p (align_to_cache_line_size len) dest q
      × (len ≤ align_to_cache_line_size len)
unfolding reserve
reserve-Placed p len loads dest q v a b e =
    let n = align_to_cache_line_size len in
    let (up, over, line) = align_up len b in
    elim (dec_lt 0 n) [
      | no none ↦ absurd (ground arith)
      | yes pos ↦ elim (dec_lt n log_size) [
        | no big ↦ absurd (ground arith)
        | yes small ↦
            let (w, f) =
              reserve_aligned-Placed p n loads v a pos line small (dest, q) (ground arith) in
            (w, f, up)
      ]
    ]
