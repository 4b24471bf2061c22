-- ===== src/PsmLog.antt =====
-- src/internal.h and the producer's half of src/fg.cc: the circular log that the foreground
-- process fills and the background process consumes.
pub mod Live
pub mod Stored
pub mod Reserve
pub mod Returns
pub mod Push
pub mod Consume
pub mod Commit
pub mod Trace
mod Tests
use persimmon.Base.{
  ◌≡◌, ◌⊎◌, inl, inr, refl, ℕ, zero, suc, ◌+◌, ◌-◌, ◌*◌, ◌/◌, ◌%◌, ◌^◌, ◌≤◌, ◌<◌, Bool, true, false,
  not, ◌&&◌, ◌||◌, Option, none, some, List, [], ◌∷◌, ltb, leb, ◌==◌, if◌then◌else◌, ◌>>=◌,
  add_word, sub_word, align_down, Memory, fill, length, inside,
}
use persimmon.Flush.{flush_line}

-- `PSM_LOG_SIZE_B`
abbrev pub log_size : ℕ
log_size = 2 ^ 20

-- `align_to_cache_line_size`. The mask `~(CACHE_LINE_SIZE_B - 1)` is an `unsigned int`, so that it
-- clears the upper half of the `size_t` too.
unfoldable pub align_to_cache_line_size : ℕ → ℕ
align_to_cache_line_size len = align_down (add_word len 63 % 2 ^ 32) 64

-- `psm_log` (its fields `head` and `tail`, and `buf` as the processes see it), the two atomics, and
-- the producer's copies. `persisted` is what persistent memory holds of `buf` for certain.
pub record Psm : Type 0 where
  pub log_head : ℕ
  pub log_tail : ℕ
  pub buf : Memory
  pub persisted : Memory
  pub head : ℕ
  pub tail : ℕ
  pub local_head : ℕ
  pub local_tail : ℕ

-- The constructor `psm_log()`, and `psm_init` of `producer_state`, over zeroed memory.
pub initial : Psm
initial = record {
  log_head = 0;
  log_tail = 0;
  buf = λ _. 0;
  persisted = λ _. 0;
  head = 0;
  tail = 0;
  local_head = 0;
  local_tail = 0;
}

-- `update_head` and `update_tail`: the field is persisted before the atomic is stored.
unfoldable pub update_head : Psm → ℕ → Psm
update_head p new_head = record p { log_head = new_head; head = new_head }

unfoldable pub update_tail : Psm → ℕ → Psm
update_tail p new_tail = record p { log_tail = new_tail; tail = new_tail }

-- A failed assertion, or a loop that still waits for the other process.
pub data Run {ℓ} (A : Type ℓ) : Type ℓ where
  done : A → Run A
  abort : Run A
  spinning : Run A

pub done-injective {ℓ} : {A : Type ℓ} {a b : A} → done a ≡ done b → a ≡ b
done-injective e = cc

pub Run-cases {ℓ} :
    {A : Type ℓ} (r : Run A) → ((a : A) × (r ≡ done a)) ⊎ ((r ≡ abort) ⊎ (r ≡ spinning))
Run-cases (done a) = inl (a, refl)
Run-cases abort = inr (inl refl)
Run-cases spinning = inr (inr refl)

-- The bytes that the producer may still fill from `local_head` on.
pub free_space : ℕ → ℕ → ℕ
free_space local_head local_tail =
    sub_word (sub_word (add_word local_tail log_size) local_head) 1 % log_size

-- The loop that spins until there is room. The list is what the loads of `psm->tail` return, in
-- order; the result is the last `local_tail`.
pub spin_for_space : ℕ → ℕ → ℕ → List ℕ → Run ℕ
spin_for_space len local_head local_tail [] =
    if ltb (free_space local_head local_tail) len then spinning else done local_tail
spin_for_space len local_head local_tail (t ∷ loads) =
    elim (ltb (free_space local_head local_tail) len) [
      | true ↦ spin_for_space len local_head t loads
      | false ↦ done local_tail
    ]

-- Does the entry not fit below the end of the buffer?
abbrev truncated : Psm → ℕ → Bool
truncated p len = ltb log_size (add_word p.local_head len)

-- `len`, with the space at the end of the buffer that is discarded.
abbrev needed : Psm → ℕ → ℕ
needed p len = if truncated p len then add_word len (sub_word log_size p.local_head) else len

-- The end of `psm_reserve`: the padding mark, the new `local_head`, and the offset returned.
pub place : Psm → ℕ → ℕ → ℕ × Psm
unfolding flush_line
place p len local_tail =
    if truncated p len
    then (
      0,
      record p {
        buf = fill p.buf p.local_head 1 0;
        persisted = flush_line (fill p.buf p.local_head 1 0) p.persisted p.local_head;
        local_head = add_word p.local_head (needed p len) % log_size;
        local_tail = local_tail;
      },
    )
    else (
      p.local_head,
      record p {
        local_head = add_word p.local_head (needed p len) % log_size;
        local_tail = local_tail;
      },
    )

pub reserve_aligned : Psm → ℕ → List ℕ → Run (ℕ × Psm)
reserve_aligned p len loads = elim (spin_for_space (needed p len) p.local_head p.local_tail loads) [
  | done local_tail ↦ if p.local_head % 64 == 0 then done (place p len local_tail) else abort
  | abort ↦ abort
  | spinning ↦ spinning
]

-- `psm_reserve`: the offset in `buf` at which the caller may write its entry.
pub reserve : Psm → ℕ → List ℕ → Run (ℕ × Psm)
reserve p len loads =
    let len' = align_to_cache_line_size len in
    if ltb 0 len' && leb len' (log_size - 1) then reserve_aligned p len' loads else abort

-- `Holds m a bs`: the bytes `bs` stand in `m` from `a` on.
abbrev pub Holds : Memory → ℕ → List ℕ → Type 0
Holds m a [] = Unit
Holds m a (b ∷ bs) = (m a ≡ b) × Holds m (suc a) bs

-- libpmem's `pmem_memcpy_nodrain`, by what its documentation says of it.
pub record PmemCopy : Type 0 where
  pub copy : Memory → ℕ → List ℕ → Memory
  pub copied : (m : Memory) (a : ℕ) (bs : List ℕ) → Holds (copy m a bs) a bs
  pub kept :
      (m : Memory) (a : ℕ) (bs : List ℕ) (x : ℕ)
      → inside a (length bs) x ≡ false
      → copy m a bs x ≡ m x

-- `psm_push`
pub push : PmemCopy → Psm → List ℕ → List ℕ → Run Psm
push lib p src loads = elim (reserve p (length src) loads) [
  | done (dest, q) ↦
      done (record q { buf = lib.copy q.buf dest src; persisted = lib.copy q.persisted dest src })
  | abort ↦ abort
  | spinning ↦ spinning
]

-- The loop of `psm_commit` over the lines of [i .. local_head), on fuel.
flush_lines : ℕ → Memory → ℕ → ℕ → Memory → Run Memory
unfolding flush_line
flush_lines zero buf i local_head persisted = spinning
flush_lines (suc fuel) buf i local_head persisted =
    let rest = flush_lines fuel buf ((i + 64) % log_size) local_head (flush_line buf persisted i) in
    if i == local_head then done persisted else if i % 64 == 0 then rest else abort

-- `psm_commit`. The buffer has 2 ^ 14 lines, and the fuel is one more.
pub commit : Psm → Bool → Run Psm
commit p push_only =
    if p.local_head == p.head
    then done p
    else if push_only
    then done (update_head p p.local_head)
    else elim (flush_lines (2 ^ 14 + 1) p.buf p.head p.local_head p.persisted) [
      | done persisted ↦ done (update_head (record p { persisted = persisted }) p.local_head)
      | abort ↦ abort
      | spinning ↦ spinning
    ]

module _ {ℓ} {S : Type ℓ} where
  -- The call of the application's `consume_func` on the entry at `tail`, and the new tail. The
  -- `int` that it returns is a number that is not negative, and small enough to be rounded up.
  consume_entry : Memory → ((ℕ → ℕ) → S → ℕ × S) → ℕ → S → Run (Option (ℕ × S))
  consume_entry buf f tail s =
      let (n, s') = f (λ i. buf (tail + i)) s in
      let consumed_len = align_to_cache_line_size n in
      if tail % 64 == 0 && leb (tail + consumed_len) log_size
      then done (some ((tail + consumed_len) % log_size, s'))
      else abort

  -- `consume`, where fuel bounds its calls of itself: one, from the padding to the front.
  consume_from : ℕ → Memory → ((ℕ → ℕ) → S → ℕ × S) → ℕ → ℕ → S → Run (Option (ℕ × S))
  unfolding consume_entry
  consume_from zero buf f head tail s = spinning
  consume_from (suc fuel) buf f head tail s =
      let front = consume_from fuel buf f head 0 s in
      if tail == head
      then done none
      else if buf tail == 0
      then (if ltb head tail then front else abort)
      else consume_entry buf f tail s

  -- `none` is the result -1, of no entry.
  pub consume : Memory → ((ℕ → ℕ) → S → ℕ × S) → ℕ → ℕ → S → Run (Option (ℕ × S))
  unfolding consume_from
  consume = consume_from 2

  -- The loop of `psm_init` that executes the entries again after a recovery, on fuel.
  pub replay : ℕ → Memory → ((ℕ → ℕ) → S → ℕ × S) → ℕ → ℕ → S → Run S
  replay zero buf f head tail s = spinning
  replay (suc fuel) buf f head tail s = elim (consume buf f head tail s) [
    | done none ↦ done s
    | done (some (tail', s')) ↦ replay fuel buf f head tail' s'
    | abort ↦ abort
    | spinning ↦ spinning
  ]
