-- ===== src/UndoLog/Clear.antt =====
-- `undo_log_post_commit_cleanup` after a commit, and `undo_log_clear` when a crash interrupts it.
use persimmon.Base.{
  ℕ, ◌+◌, ◌-◌, ◌≤◌, ◌<◌, ◌≡◌, ◌≢◌, refl, ◌∙◌, ap, Bool, true, false, ◌&&◌, none, some, ltb,
  if◌then◌else◌, arith, Memory, ℕ_discrete, dec_lt,
}
use persimmon.UndoLog.{
  LogEntry, UndoLog, zeroed, is_null, num_entries, append_commit_record, Committing, commit,
  post_commit_cleanup, clear, init, recover, Recovered,
}
use persimmon.UndoLog.Commit.{commit-succeeds, commit-Persisted}
use persimmon.UndoLog.Recover.{clear-Undoable, init-first, recover-tail, recover-empty, Live}
use persimmon.UndoLog.Restore.{Undoable, update_self, update_above}

appended-cleaned :
    (keep keep' : ℕ → Bool) (m₀ view : Memory) (ul : UndoLog) (tail : ℕ)
    → Undoable keep m₀ view ul
    → (ul' : UndoLog) × (post_commit_cleanup (append_commit_record tail ul) ≡ some ul')
      × (ul'.len ≡ 0)
      × Undoable keep' view view ul'
unfolding post_commit_cleanup append_commit_record clear
appended-cleaned keep keep' m₀ view ul tail u =
    let ul₁ = append_commit_record tail ul in
    let last : (ul₁.log (ul₁.len - 1)).commit_tail ≡ tail + 1 =
      ap (λ i. (ul₁.log i).commit_tail) (omega arith)
      ∙ ap (λ (e : LogEntry). e.commit_tail) (update_self ul.log ul.len _) in
    let ready : (ltb 0 ul₁.len && ltb 0 (ul₁.log (ul₁.len - 1)).commit_tail) ≡ true =
      ground arith in
    (
      clear ul₁,
      rw ready refl,
      refl,
      clear-Undoable keep' view ul₁ (λ i l.
          ap is_null (update_above ul.log ul.len _ i (omega arith)) ∙ u.blank i (omega arith)),
    )

pub committed-cleaned :
    (keep keep' : ℕ → Bool) (m₀ view image : Memory) (ul : UndoLog) (tail : ℕ) (s : Committing)
    → Undoable keep m₀ view ul
    → commit tail view image ul ≡ some s
    → (ul' : UndoLog) × (post_commit_cleanup s.ul ≡ some ul')
      × (ul'.len ≡ 0)
      × Undoable keep' view view ul'
committed-cleaned keep keep' m₀ view image ul tail s u e =
    rw (commit-Persisted tail view image ul s e).ul_is
      (appended-cleaned keep keep' m₀ view ul tail u)

-- When the log has room for one more entry than a commit record, a commit with the cleanup behind it raises
-- no assertion and starts the next epoch: the log is empty and can undo to the memory of the commit.
pub post_commit_cleanup-Undoable :
    (keep keep' : ℕ → Bool) (m₀ view image : Memory) (ul : UndoLog) (tail : ℕ)
    → Undoable keep m₀ view ul
    → ul.len + 1 < num_entries
    → (s : Committing) × (ul' : UndoLog) × (commit tail view image ul ≡ some s)
      × (post_commit_cleanup s.ul ≡ some ul')
      × (ul'.len ≡ 0)
      × Undoable keep' view view ul'
post_commit_cleanup-Undoable keep keep' m₀ view image ul tail u room =
    let (s, e, p) = commit-succeeds tail view image ul room in
    let (ul', cleaned, len, u') = committed-cleaned keep keep' m₀ view image ul tail s u e in
    (s, ul', e, cleaned, len, u')

-- The log in persistent memory when a crash interrupts the `pmem_memset` of `undo_log_clear` after
-- its first `k` entries.
abbrev pub partly_cleared : ℕ → (ℕ → LogEntry) → ℕ → LogEntry
partly_cleared k log i = if ltb i k then zeroed else log i

partly_cleared-empty :
    (k : ℕ) (log : ℕ → LogEntry) → 0 < k → is_null (partly_cleared k log 0) ≡ true
partly_cleared-empty k log h = ground arith

-- The stale entries behind those of a later epoch are live to a scan.
stale-Live :
    (log new : ℕ → LogEntry) (n k tail : ℕ)
    → ((i : ℕ) → i < n → ((log i).commit_tail ≡ 0) × ((log i).addr ≢ 0))
    → ((log n).commit_tail ≡ tail + 1) × ((log n).addr ≡ 0)
    → ((i : ℕ) → i < k → ((new i).commit_tail ≡ 0) × ((new i).addr ≢ 0))
    → ((i : ℕ) → k ≤ i → new i ≡ log i)
    → (j : ℕ) → j < n + 1
    → Live (new j)
stale-Live log new n k tail live record_n own rest j l = elim (dec_lt j k) [
  | yes mine ↦ let a = own j mine in (ground arith, ground arith)
  | no stale ↦ rw (rest j (omega arith)) (elim (ℕ_discrete j n) [
    | yes last ↦ rw last (ground arith, ground arith)
    | no before ↦ let a = live j (omega arith) in (ground arith, ground arith)
  ])
]

partly_cleared-above : (k : ℕ) (log : ℕ → LogEntry) (i : ℕ) → k ≤ i → partly_cleared k log i ≡ log i
partly_cleared-above k log i h = ground arith

-- The restart behind such a crash reads an empty log, and leaves the memory as it is.
pub partly_cleared-recovers :
    (k : ℕ) (log : ℕ → LogEntry) (deduplicate : Bool) (does_manage : ℕ → Bool) (image : Memory)
    → 0 < k
    → (ul : UndoLog) × (r : Recovered) × (init deduplicate true (partly_cleared k log) ≡ some ul)
      × (recover does_manage ul image ≡ some r)
      × (r.tail ≡ none)
      × (r.memory ≡ image)
      × (r.ul.len ≡ 0)
unfolding clear
partly_cleared-recovers k log deduplicate does_manage image pos =
    let (ul, started, len, same) =
      init-first deduplicate (partly_cleared k log) 0 (omega arith) (λ j l. absurd (omega arith))
        (partly_cleared-empty k log pos) in
    (
      ul,
      record { tail = none; memory = image; ul = clear ul; table_committed = false },
      started,
      recover-empty does_manage ul image len,
      refl,
      refl,
      refl,
    )

-- If a crash interrupts the clearing of a committed log after its first entries, the restart reads
-- an empty log back, and the clearing that follows leaves the rest. If the next epoch has logged
-- exactly as many blocks as had been cleared, a crash before its commit makes the restart read on
-- into the rest: recovery returns the tail of the commit before, commits the new region table, and
-- undoes nothing.
pub interrupted_clear-stale :
    (log new : ℕ → LogEntry) (n k tail : ℕ) (does_manage : ℕ → Bool) (image : Memory)
    → 0 < k
    → k ≤ n
    → n + 1 < num_entries
    → ((i : ℕ) → i < n → ((log i).commit_tail ≡ 0) × ((log i).addr ≢ 0))
    → ((log n).commit_tail ≡ tail + 1) × ((log n).addr ≡ 0)
    → is_null (log (n + 1)) ≡ true
    → ((i : ℕ) → i < k → ((new i).commit_tail ≡ 0) × ((new i).addr ≢ 0))
    → ((i : ℕ) → k ≤ i → new i ≡ partly_cleared k log i)
    → ((ul : UndoLog) × (init false true (partly_cleared k log) ≡ some ul)
        × (ul.len ≡ 0)
        × ((i : ℕ) → (clear ul).log i ≡ partly_cleared k log i))
      × ((ul : UndoLog) × (r : Recovered) × (init false true new ≡ some ul)
          × (recover does_manage ul image ≡ some r)
          × (r.tail ≡ some tail)
          × (r.table_committed ≡ true)
          × (r.memory ≡ image))
unfolding clear
interrupted_clear-stale log new n k tail does_manage image pos le full live record_n after own
      rest =
    let rest' : (i : ℕ) → k ≤ i → new i ≡ log i =
      λ i l. rest i l ∙ partly_cleared-above k log i l in
    let (ul, started, len, same) =
      init-first false (partly_cleared k log) 0 (omega arith) (λ j l. absurd (omega arith))
        (partly_cleared-empty k log pos) in
    let (ul', started', len', same') =
      init-first false new (n + 1) full (stale-Live log new n k tail live record_n own rest')
        (ap is_null (rest' (n + 1) (omega arith)) ∙ after) in
    let at_end : ul'.len - 1 ≡ n = omega arith in
    let last : (ul'.log (ul'.len - 1)).commit_tail ≡ tail + 1 =
      rw (at_end, same') (ap (λ (e : LogEntry). e.commit_tail) (rest' n le) ∙ record_n.0) in
    (
      (ul, started, len, λ i. rw (len, same) (ground arith)),
      (
        ul',
        record { tail = some tail; memory = image; ul = clear ul'; table_committed = true },
        started',
        recover-tail ul' tail image does_manage (omega arith) last,
        refl,
        refl,
        refl,
      ),
    )
