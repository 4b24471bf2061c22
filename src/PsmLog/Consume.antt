-- ===== src/PsmLog/Consume.antt =====
-- `consume` takes the entries of the buffer in the order in which they were pushed.
use persimmon.Base.{
  ℕ, zero, suc, ◌+◌, ◌-◌, ◌%◌, ◌<◌, ◌≡◌, refl, inl, inr, List, [], ◌∷◌, arith, length, Memory,
  subst, none, some, All,
}
use persimmon.PsmLog.{
  log_size, align_to_cache_line_size, Holds, done, consume_entry, consume, replay,
}
use persimmon.PsmLog.Live.{distance}
use persimmon.PsmLog.Stored.{rounded, Entry, Stored}

-- The bytes of an entry as the application sees them, from its start on.
Holds-view : (m : Memory) (t k : ℕ) (bs : List ℕ) → Holds m (t + k) bs → Holds (λ i. m (t + i)) k bs
Holds-view m t k [] h = tt
Holds-view m t k (b ∷ bs) h =
    (h.0, Holds-view m t (suc k) bs (subst (λ x. Holds m x bs) (omega arith) h.1))

rounded_lines : (bs : List ℕ) → rounded bs % 64 ≡ 0
unfolding align_to_cache_line_size
rounded_lines bs = omega arith

-- The entries' effects, one after the other.
abbrev pub applied : {S : Type 0} → (List ℕ → S → S) → List (List ℕ) → S → S
applied apply [] s = s
applied apply (bs ∷ es) s = applied apply es (apply bs s)

module _ {S : Type 0} (f : (ℕ → ℕ) → S → ℕ × S) (apply : List ℕ → S → S) where
  -- The application's `consume_func` finds the end of an entry by itself, and returns its length.
  abbrev pub Reads : List ℕ → Type 0
  Reads bs = (view : ℕ → ℕ) (s : S) → Holds view 0 bs → f view s ≡ (length bs, apply bs s)

  consume_entry-Entry :
      (m : Memory) (t d : ℕ) (bs : List ℕ) (s : S)
      → Reads bs
      → Entry m t d bs
      → consume_entry m f t s ≡ done (some ((t + rounded bs) % log_size, apply bs s))
  unfolding consume_entry
  consume_entry-Entry m t d bs s r e =
      let run : f (λ i. m (t + i)) s ≡ (length bs, apply bs s) =
        r (λ i. m (t + i)) s
          (Holds-view m t 0 bs (subst (λ x. Holds m x bs) (omega arith) e.bytes)) in
      rw (run, consume_entry) (ground (arith, e.at_line, e.below_end))

  -- With no entry between the tail and the head there is nothing to consume.
  pub consume-empty : (m : Memory) (t : ℕ) (s : S) → consume m f t t s ≡ done none
  unfolding consume
  consume-empty m t s = ground arith

  -- With the entries stored from the tail to the head, one at least, `consume` applies the oldest, behind its
  -- padding if there is some, and returns a tail from which the rest is stored up to the head. This is so
  -- if the application reads the oldest entry as it was pushed, and returns its length.
  pub consume-Stored :
      (m : Memory) (t d head : ℕ) (bs : List ℕ) (es : List (List ℕ)) (s : S)
      → t < log_size
      → d < log_size
      → head ≡ (t + d) % log_size
      → Reads bs
      → Stored m t d (bs ∷ es)
      → (t' : ℕ) × (d' : ℕ) × (consume m f head t s ≡ done (some (t', apply bs s)))
        × (t' < log_size)
        × (d' < log_size)
        × (head ≡ (t' + d') % log_size)
        × Stored m t' d' es
        × (t' % 64 ≡ 0)
        × (distance t t' + d' ≡ d)
  unfolding consume
  consume-Stored m t d head bs es s tb db eh r (inl (e, st)) = (
    (t + rounded bs) % log_size,
    d - rounded bs,
    ground (arith, consume_entry-Entry m t d bs s r e, e.marked, e.nonempty, e.before_head),
    omega arith,
    omega arith,
    omega (arith, e.before_head),
    st,
    omega (arith, e.at_line, rounded_lines bs),
    omega (arith, e.before_head, e.nonempty),
  )
  consume-Stored m t d head bs es s tb db eh r (inr (p, e, st)) = (
    rounded bs % log_size,
    d - (log_size - t) - rounded bs,
    ground (
      arith,
      consume_entry-Entry m 0 (d - (log_size - t)) bs s r e,
      p.zeroed,
      p.inner,
      p.before_head,
      e.marked,
      e.nonempty,
      e.before_head,
    ),
    omega arith,
    omega arith,
    omega (arith, e.before_head, p.before_head),
    st,
    omega (arith, rounded_lines bs),
    omega (arith, e.before_head, p.before_head, p.inner, e.nonempty),
  )

  -- The recovery loop of `psm_init` applies exactly the entries between the tail and the head, each
  -- once and in order, and ends within one round more than there are entries.
  pub replay-Stored :
      (es : List (List ℕ)) (fuel : ℕ) (m : Memory) (t d head : ℕ) (s : S)
      → t < log_size
      → d < log_size
      → head ≡ (t + d) % log_size
      → length es < fuel
      → All Reads es
      → Stored m t d es
      → replay fuel m f head t s ≡ done (applied apply es s)
  unfolding replay
  replay-Stored es zero m t d head s tb db eh lf r st = absurd (omega arith)
  replay-Stored [] (suc fuel) m t d head s tb db eh lf r st =
      let here : t ≡ head = omega arith in rw (← here, consume-empty m t s, replay) refl
  replay-Stored (bs ∷ es) (suc fuel) m t d head s tb db eh lf r st =
      let (t', d', e, tb', db', eh', st', line, way) =
        consume-Stored m t d head bs es s tb db eh r.0 st in
      rw (e, replay)
        (replay-Stored es fuel m t' d' head (apply bs s) tb' db' eh' (omega arith) r.1 st')
