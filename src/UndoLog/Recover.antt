-- ===== src/UndoLog/Recover.antt =====
-- `undo_log_recover` after a crash between two commits, and after a commit record.
use persimmon.Base.{
  ℕ, zero, suc, ◌+◌, ◌-◌, ◌≤◌, ◌<◌, ◌≡◌, ◌≢◌, refl, ◌∙◌, ap, fun_ext, Bool, true, false, not, ◌&&◌,
  none, some, ltb, ◌==◌, if◌then◌else◌, arith, Memory, store, Bool-cases, Option-cases, inl, inr,
  ℕ_discrete, [],
}
use persimmon.Ranges.Find.{find-clear, clear-Coalesced}
use persimmon.UndoLog.{
  LogEntry, UndoLog, block_size, Recovered, ends_in_commit, apply_entries, recover, clear, scan,
  is_null, num_entries, init, rehash, append_commit_record,
}
use persimmon.UndoLog.Restore.{
  covered, undone, Undoable, undone-uncovered, IsBlock, update_self, update_below, update_above,
}

module _ (does_manage : ℕ → Bool) where
  -- Where every entry is managed and none is a commit record, all entries are applied.
  apply_entries-undone :
      (n : ℕ) (log : ℕ → LogEntry) (m : Memory)
      → ((i : ℕ)
          → i < n
          → ((log i).commit_tail ≡ 0) × ((log i).addr ≢ 0) × (does_manage (log i).addr ≡ true))
      → apply_entries n does_manage log m ≡ some (undone n log m)
  unfolding apply_entries
  apply_entries-undone zero log m h = refl
  apply_entries-undone (suc n) log m h =
      let own = h n (omega arith) in
      ground (
        arith,
        own,
        apply_entries-undone n log (store m (log n).addr block_size (log n).blk)
            (λ i l. h i (omega arith)),
      )

abbrev has_commit : ℕ → (ℕ → LogEntry) → Bool
has_commit n log = ltb 0 n && ltb 0 (log (n - 1)).commit_tail

no_commit :
    (n : ℕ) (log : ℕ → LogEntry)
    → ((i : ℕ) → i < n → (log i).commit_tail ≡ 0)
    → has_commit n log ≡ false
no_commit n log h = elim (ℕ_discrete n 0) [
  | yes none_yet ↦ ground arith
  | no some_yet ↦ let last = h (n - 1) (omega arith) in ground arith
]

-- An entry that is not null, and a commit record only without an address.
abbrev pub Live : LogEntry → Type 0
Live e = (is_null e ≡ false) × ((ltb 0 e.commit_tail && not (e.addr == 0)) ≡ false)

-- The scan of a recovered log stops at the first null entry, if the array has one.
scan-first :
    (fuel : ℕ) (log : ℕ → LogEntry) (i n : ℕ)
    → i ≤ n
    → n < i + fuel
    → ((j : ℕ) → j < n → Live (log j))
    → is_null (log n) ≡ true
    → scan fuel log i ≡ some n
unfolding scan
scan-first zero log i n a b h e = absurd (omega arith)
scan-first (suc fuel) log i n a b h e = elim (ℕ_discrete i n) [
  | yes here ↦
      let first : is_null (log i) ≡ true = ap (λ k. is_null (log k)) here ∙ e in
      rw first (ap some here)
  | no before ↦
      let (live, shape) = h i (omega arith) in
      rw (live, shape) (scan-first fuel log (i + 1) n (omega arith) (omega arith) h e)
]

pub block-Live : (e : LogEntry) → (e.commit_tail ≡ 0) × IsBlock e.addr → Live e
block-Live e h = (ground arith, ground arith)

-- So a recovered log has the entries before the first null one.
pub init-first :
    (deduplicate : Bool) (log : ℕ → LogEntry) (n : ℕ)
    → n < num_entries
    → ((j : ℕ) → j < n → Live (log j))
    → is_null (log n) ≡ true
    → (ul : UndoLog) × (init deduplicate true log ≡ some ul) × (ul.len ≡ n) × (ul.log ≡ log)
unfolding init
init-first deduplicate log n b h e = (
  record {
    log = log;
    len = n;
    logged_addrs_hash = if deduplicate then rehash n log else (λ _. 0);
    fresh_regions = [];
  },
  rw (scan-first num_entries log 0 n (omega arith) (omega arith) h e) refl,
  refl,
  refl,
)

-- A cleared log can undo to the memory as it is.
pub clear-Undoable :
    (keep : ℕ → Bool) (m : Memory) (ul : UndoLog)
    → ((i : ℕ) → ul.len ≤ i → is_null (ul.log i) ≡ true)
    → Undoable keep m m (clear ul)
unfolding clear
clear-Undoable keep m ul b = record {
  restores = λ m' x k c. cc;
  untouched = λ x k c. refl;
  entries = λ i l. absurd (omega arith);
  hashed = λ slot s. absurd (s refl);
  fresh = λ x w f. let e = find-clear ul.fresh_regions x in cc;
  coalesced = clear-Coalesced ul.fresh_regions;
  blank = λ i l. let a = b i in ground arith;
}

-- Recovery of a log without a commit record.
recover-undone :
    (does_manage : ℕ → Bool) (ul : UndoLog) (image : Memory)
    → ((i : ℕ)
        → i < ul.len
        → ((ul.log i).commit_tail ≡ 0)
          × ((ul.log i).addr ≢ 0)
          × (does_manage (ul.log i).addr ≡ true))
    → recover does_manage ul image
      ≡ some (record {
        tail = none;
        memory = undone ul.len ul.log image;
        ul = clear ul;
        table_committed = false;
      })
unfolding recover
recover-undone does_manage ul image h =
    let all = apply_entries-undone does_manage ul.len ul.log image h in
    let unfinished : ends_in_commit ul ≡ false = no_commit ul.len ul.log (λ i l. (h i l).0) in
    rw (unfinished, all) refl

-- Recovery of an empty log.
pub recover-empty :
    (does_manage : ℕ → Bool) (ul : UndoLog) (image : Memory)
    → ul.len ≡ 0
    → recover does_manage ul image
      ≡ some (record { tail = none; memory = image; ul = clear ul; table_committed = false })
recover-empty does_manage ul image e =
    recover-undone does_manage ul image (λ i l. absurd (omega arith))
    ∙ ap
        (λ n. some (record {
          tail = none;
          memory = undone n ul.log image;
          ul = clear ul;
          table_committed = false;
        }))
        e

-- Recovery of a log whose last entry is a commit record.
pub recover-tail :
    (ul : UndoLog) (tail : ℕ) (image : Memory) (does_manage : ℕ → Bool)
    → 0 < ul.len
    → (ul.log (ul.len - 1)).commit_tail ≡ tail + 1
    → recover does_manage ul image
      ≡ some (record { tail = some tail; memory = image; ul = clear ul; table_committed = true })
unfolding recover
recover-tail ul tail image does_manage l c =
    let yes_commit : ends_in_commit ul ≡ true = ground arith in
    let t : (ul.log (ul.len - 1)).commit_tail - 1 ≡ tail = omega arith in rw yes_commit (rw t refl)

-- What the recovery says of the new region table depends on the log alone.
pub recover-table_committed :
    (does_manage : ℕ → Bool) (ul : UndoLog) (image : Memory) (r : Recovered)
    → recover does_manage ul image ≡ some r
    → r.table_committed ≡ ends_in_commit ul
unfolding recover
recover-table_committed does_manage ul image r e = elim (Bool-cases (ends_in_commit ul)) [
  | inl commits ↦ ground arith
  | inr unfinished ↦ elim (Option-cases (apply_entries ul.len does_manage ul.log image)) [
    | inl nothing ↦ ground arith
    | inr (m, all) ↦ ground arith
  ]
]

-- Recovery empties the log.
pub recover-len :
    (does_manage : ℕ → Bool) (ul : UndoLog) (image : Memory) (r : Recovered)
    → recover does_manage ul image ≡ some r
    → r.ul.len ≡ 0
unfolding recover clear
recover-len does_manage ul image r e = elim (Bool-cases (ends_in_commit ul)) [
  | inl commits ↦ ground arith
  | inr unfinished ↦ elim (Option-cases (apply_entries ul.len does_manage ul.log image)) [
    | inl nothing ↦ ground arith
    | inr (m, all) ↦ ground arith
  ]
]

-- A log that is not recovered is cleared with the length that it starts with, which is 0.
pub init-fresh :
    (deduplicate : Bool) (log : ℕ → LogEntry)
    → (ul : UndoLog) × (init deduplicate false log ≡ some (clear ul))
      × (ul.log ≡ log)
      × ((clear ul).log ≡ log)
      × ((clear ul).len ≡ 0)
unfolding init clear
init-fresh deduplicate log = (
  record { log = log; len = 0; logged_addrs_hash = λ slot. 0; fresh_regions = [] },
  refl,
  refl,
  fun_ext (λ i. ground arith),
  refl,
)

-- After a crash between two commits, whatever part of the later writes has reached persistent
-- memory, the restart reads the entries back, recovery returns no tail, drops the new region table,
-- gives every byte of the last commit its value at that commit, and leaves an empty log that can
-- undo to that memory. This is so if the log is not full, the image holds that commit outside of
-- the logged blocks, and the logged blocks lie in managed regions.
pub recover-restores :
    (keep : ℕ → Bool) (m₀ m image : Memory) (ul : UndoLog) (deduplicate : Bool)
    (does_manage : ℕ → Bool)
    → Undoable keep m₀ m ul
    → ul.len < num_entries
    → ((i : ℕ) → i < ul.len → does_manage (ul.log i).addr ≡ true)
    → ((x : ℕ) → keep x ≡ true → covered ul.len ul.log x ≡ false → image x ≡ m₀ x)
    → (ul' : UndoLog) × (r : Recovered) × (init deduplicate true ul.log ≡ some ul')
      × (recover does_manage ul' image ≡ some r)
      × (r.tail ≡ none)
      × (r.table_committed ≡ false)
      × ((x : ℕ) → keep x ≡ true → r.memory x ≡ m₀ x)
      × Undoable (λ x. true) r.memory r.memory r.ul
unfolding recover
recover-restores keep m₀ m image ul deduplicate does_manage u full managed intact =
    let (ul', started, len, log) =
      init-first deduplicate ul.log ul.len full (λ j l. block-Live (ul.log j) (u.entries j l))
        (u.blank ul.len (omega arith)) in
    let b' : (i : ℕ) → ul'.len ≤ i → is_null (ul'.log i) ≡ true = rw (len, log) u.blank in
    (
      ul',
      record {
        tail = none;
        memory = undone ul'.len ul'.log image;
        ul = clear ul';
        table_committed = false;
      },
      started,
      recover-undone does_manage ul' image
          (rw (len, log) (λ i l. ((u.entries i l).0, (u.entries i l).1.0, managed i l))),
      refl,
      refl,
      rw (len, log)
          (λ x k. elim (Bool-cases (covered ul.len ul.log x)) [
            | inl logged ↦ u.restores image x k logged
            | inr untouched ↦
                undone-uncovered ul.len ul.log image x untouched ∙ intact x k untouched
          ]),
      clear-Undoable (λ x. true) (undone ul'.len ul'.log image) ul' b',
    )

-- After a crash between the commit of a tail and the cleanup, the restart reads the log back with
-- its commit record, and recovery returns that tail, commits the new region table, leaves the memory
-- as it is, and leaves an empty log that can undo to it. This is so if the commit record does not
-- fill the log.
pub recover-committed :
    (keep : ℕ → Bool) (m₀ view image' : Memory) (ul : UndoLog) (deduplicate : Bool)
    (does_manage : ℕ → Bool) (tail : ℕ)
    → Undoable keep m₀ view ul
    → ul.len + 1 < num_entries
    → (ul' : UndoLog) × (r : Recovered) × (init deduplicate true (append_commit_record tail ul).log
        ≡ some ul')
      × (recover does_manage ul' image' ≡ some r)
      × (r.tail ≡ some tail)
      × (r.table_committed ≡ true)
      × (r.memory ≡ image')
      × Undoable (λ x. true) image' image' r.ul
unfolding recover append_commit_record
recover-committed keep m₀ view image' ul deduplicate does_manage tail u full =
    let log' = (append_commit_record tail ul).log in
    let last : log' ul.len ≡ record (ul.log ul.len) { addr = 0; commit_tail = tail + 1 } =
      update_self ul.log ul.len _ in
    let (ul', started, len, log) =
      init-first deduplicate log' (ul.len + 1) full
        (λ j l. elim (ℕ_discrete j ul.len) [
          | yes end ↦ rw (end, last) (ground arith)
          | no before ↦
              rw (update_below ul.log ul.len _ j (omega arith))
                (block-Live (ul.log j) (u.entries j (omega arith)))
        ])
        (ap is_null (update_above ul.log ul.len _ (ul.len + 1) (omega arith))
          ∙ u.blank (ul.len + 1) (omega arith)) in
    let b' : (i : ℕ) → ul'.len ≤ i → is_null (ul'.log i) ≡ true =
      rw (len, log)
        (λ i l.
          ap is_null (update_above ul.log ul.len _ i (omega arith)) ∙ u.blank i (omega arith)) in
    let t : (ul'.log (ul'.len - 1)).commit_tail ≡ tail + 1 =
      rw (len, log)
        (ap (λ i. (log' i).commit_tail) (omega arith)
          ∙ ap (λ (e : LogEntry). e.commit_tail) last) in
    (
      ul',
      record { tail = some tail; memory = image'; ul = clear ul'; table_committed = true },
      started,
      recover-tail ul' tail image' does_manage (rw len (omega arith)) t,
      refl,
      refl,
      refl,
      clear-Undoable (λ x. true) image' ul' b',
    )
