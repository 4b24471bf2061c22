-- ===== src/PsmLog/Commit.antt =====
-- `psm_commit`: the entries reach persistent memory before the head that publishes them.
use persimmon.Base.{
  ℕ, zero, suc, ◌+◌, ◌*◌, ◌%◌, ◌<◌, ◌≡◌, ◌≢◌, ◌^◌, refl, Bool, false, ltb, if◌then◌else◌, arith,
  Memory, ℕ_discrete, ◌∙◌, sym, Bool-cases, ◌⊎◌, inl, inr,
}
use persimmon.PsmLog.{log_size, Psm, done, flush_lines, commit, update_head}
use persimmon.Flush.{flush_line}
use persimmon.PsmLog.Live.{distance, IsOffset, IsValid, IsDurable, PersistedTo}

-- What the loop leaves: the lines from i up to h are persisted, and the others as they were.
abbrev flushed : Memory → Memory → ℕ → ℕ → ℕ → ℕ
flushed buf persisted i h x = if ltb (distance i x) (distance i h) then buf x else persisted x

flushed-step :
    (buf persisted : Memory) (i h x : ℕ)
    → IsOffset i
    → IsOffset h
    → i ≢ h
    → x < log_size
    → flushed buf (flush_line buf persisted i) ((i + 64) % log_size) h x
      ≡ flushed buf persisted i h x
unfolding flush_line
flushed-step buf persisted i h x oi oh ne b = ground arith

flush_lines-done :
    (fuel : ℕ) (buf : Memory) (i h : ℕ) (persisted : Memory)
    → IsOffset i
    → IsOffset h
    → distance i h < 64 * fuel
    → (m : Memory) × (flush_lines fuel buf i h persisted ≡ done m)
      × ((x : ℕ) → x < log_size → m x ≡ flushed buf persisted i h x)
unfolding flush_lines
flush_lines-done zero buf i h persisted oi oh d = absurd (omega arith)
flush_lines-done (suc fuel) buf i h persisted oi oh d = elim (ℕ_discrete i h) [
  | yes end ↦ (persisted, ground arith, λ x b. ground arith)
  | no more ↦
      let (m, e, f) =
        flush_lines-done fuel buf ((i + 64) % log_size) h (flush_line buf persisted i) (omega arith)
          oh (omega arith) in
      (m, ground arith, λ x b. f x b ∙ flushed-step buf persisted i h x oi oh more b)
]

module _ (p : Psm) (v : IsValid p) (d : IsDurable p) where
  commit-more :
      p.local_head ≢ p.head
      → (m : Memory) × (commit p false
          ≡ done (update_head (record p { persisted = m }) p.local_head))
        × PersistedTo (record p { persisted = m }) p.local_head
  unfolding commit
  commit-more ne =
      let (m, e, f) =
        flush_lines-done (2 ^ 14 + 1) p.buf p.head p.local_head p.persisted v.head_offset
          v.local_head_offset (omega arith) in
      (m, rw (e, commit) (ground arith), λ x b l. f x b ∙ fill_in x b l)
    where
      fill_in :
          (x : ℕ)
          → x < log_size
          → distance p.tail x < distance p.tail p.local_head
          → flushed p.buf p.persisted p.head p.local_head x ≡ p.buf x
      fill_in x b l =
          ground (arith, d x b, v.head_offset, v.tail_offset, v.local_head_offset, v.published)

module _ (p : Psm) (v : IsValid p) where
  moved : (m : Memory) → IsValid (update_head (record p { persisted = m }) p.local_head)
  unfolding update_head
  moved m = record {
    tail_offset = v.tail_offset;
    head_offset = v.local_head_offset;
    local_head_offset = v.local_head_offset;
    local_tail_offset = v.local_tail_offset;
    synced_head = refl;
    synced_tail = v.synced_tail;
    published = omega arith;
    lagging = v.lagging;
  }

-- How `psm_commit` leaves the log.
pub record Committed (p q : Psm) : Type 0 where
  pub valid : IsValid q
  pub durable : IsDurable q
  pub head_published : q.head ≡ p.local_head
  pub head_persisted : q.log_head ≡ p.local_head
  pub same_buf : q.buf ≡ p.buf
  pub same_tail : q.tail ≡ p.tail
  pub same_local_head : q.local_head ≡ p.local_head

module _ (p : Psm) (v : IsValid p) where
  moved-Committed :
      (m : Memory)
      → PersistedTo (record p { persisted = m }) p.local_head
      → Committed p (update_head (record p { persisted = m }) p.local_head)
  unfolding update_head
  moved-Committed m f = record {
    valid = moved p v m;
    durable = f;
    head_published = refl;
    head_persisted = refl;
    same_buf = refl;
    same_tail = refl;
    same_local_head = refl;
  }

  nothing-Committed : IsDurable p → p.local_head ≡ p.head → Committed p p
  nothing-Committed d e = record {
    valid = v;
    durable = d;
    head_published = sym e;
    head_persisted = v.synced_head ∙ sym e;
    same_buf = refl;
    same_tail = refl;
    same_local_head = refl;
  }

-- `psm_commit` ends. After it the head of the log and the atomic one are the producer's, the
-- entries in the buffer are what they were, and every byte between the tail and that head is
-- persisted; with `push_only` this rests on those bytes having been persisted before.
pub commit-Committed :
    (p : Psm) (push_only : Bool)
    → IsValid p
    → IsDurable p
    → (push_only ≡ false) ⊎ PersistedTo p p.local_head
    → (q : Psm) × (commit p push_only ≡ done q) × Committed p q
unfolding commit
commit-Committed p push_only v d h = elim (ℕ_discrete p.local_head p.head) [
  | yes same ↦ (p, ground arith, nothing-Committed p v d same)
  | no more ↦ elim h [
    | inl flush ↦ let (m, e, f) = commit-more p v d more in (_, rw flush e, moved-Committed p v m f)
    | inr before ↦ elim (Bool-cases push_only) [
      | inl pushed ↦ (
        update_head p p.local_head,
        rw pushed (ground arith),
        moved-Committed p v p.persisted before,
      )
      | inr flush ↦
          let (m, e, f) = commit-more p v d more in (_, rw flush e, moved-Committed p v m f)
    ]
  ]
]
