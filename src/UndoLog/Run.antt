-- ===== src/UndoLog/Run.antt =====
-- The undo log over a whole run of the background process: `undo_log_record` before each write,
-- `undo_log_record_fresh_region` after each mmap, `undo_log_commit` and
-- `undo_log_post_commit_cleanup` at each commit, with lines that leave the cache at any time.
use persimmon.Base.{
  ℕ, ◌+◌, ◌≤◌, ◌<◌, ◌≡◌, subst, ◌∙◌, sym, ap, Bool, true, false, ◌||◌, some, ◌^◌, arith, Memory,
  store, inside, word, Bool-cases, inl, inr,
}
use persimmon.Ranges.{find, insert}
use persimmon.Ranges.Insert.{find-insert}
use persimmon.UndoLog.{
  UndoLog, block_size, to_uint, num_entries, record_write, record_fresh_region, flush_logged,
  Committing, commit, post_commit_cleanup, update,
}
use persimmon.UndoLog.Restore.{covered, Undoable}
use persimmon.UndoLog.Record.{
  record_write-Recorded, record_fresh_region-Undoable, written-Undoable,
  record_fresh_region-regions, record_fresh_region-covered,
}
use persimmon.UndoLog.Commit.{commit-Persisted, flush_logged-persists}
use persimmon.UndoLog.Clear.{committed-cleaned}

-- A state of the background process: which bytes are mapped, and which were at the last commit; the
-- memory at the last commit, the memory that the process sees, and what persistent memory holds.
pub record Process : Type 0 where
  pub kept : ℕ → Bool
  pub mapped : ℕ → Bool
  pub committed : Memory
  pub view : Memory
  pub image : Memory
  pub ul : UndoLog

-- One step, of a build with or without OPTIMIZE_DEDUPLICATE.
pub data Step (deduplicate : Bool) : Process → Process → Type 0 where
  write :
      (p : Process) (addr size : ℕ) (v : ℕ → ℕ)
      → block_size ≤ addr
      → addr + size + block_size ≤ word
      → (record_write deduplicate p.view addr size p.ul).1.len ≤ num_entries
      → Step deduplicate p (record p {
        view = store p.view addr size v;
        ul = (record_write deduplicate p.view addr size p.ul).1;
      })
  evict :
      (p : Process) (x : ℕ) → Step deduplicate p (record p { image = update p.image x (p.view x) })
  map :
      (p : Process) (addr size : ℕ)
      → size < 2 ^ 32
      → addr + size < word
      → ((x : ℕ) → inside addr size x ≡ true → p.mapped x ≡ false)
      → Step deduplicate p (record p {
        mapped = λ x. p.mapped x || inside addr size x;
        view = store p.view addr size (λ i. 0);
        ul = record_fresh_region addr size p.ul;
      })
  commit_and_cleanup :
      (p : Process) (tail : ℕ) (s : Committing) (ul' : UndoLog)
      → commit tail p.view p.image p.ul ≡ some s
      → post_commit_cleanup s.ul ≡ some ul'
      → Step deduplicate p
          (record p { kept = p.mapped; committed = p.view; image = s.image; ul = ul' })

pub data Run (deduplicate : Bool) : Process → Process → Type 0 where
  stop : (p : Process) → Run deduplicate p p
  step : (p q r : Process) → Step deduplicate p q → Run deduplicate q r → Run deduplicate p r

pub Run-append :
    (deduplicate : Bool) (p q r : Process)
    → Run deduplicate p q
    → Step deduplicate q r
    → Run deduplicate p r
Run-append deduplicate _ _ r (stop p) s = step p r r s (stop r)
Run-append deduplicate _ _ r (step p q q' s' rest) s =
    step p q r s' (Run-append deduplicate q q' r rest s)

-- The invariant between two steps.
pub record Inv (p : Process) : Type 0 where
  pub undoable : Undoable p.kept p.committed p.view p.ul
  pub intact :
      (x : ℕ) → p.kept x ≡ true → covered p.ul.len p.ul.log x ≡ false → p.image x ≡ p.committed x
  pub new_fresh : (x : ℕ) → p.mapped x ≡ true → p.kept x ≡ false → find p.ul.fresh_regions x ≡ true
  pub still_mapped : (x : ℕ) → p.kept x ≡ true → p.mapped x ≡ true
  pub bounded : (x : ℕ) → p.mapped x ≡ true → x < word

-- What a commit makes persistent is every mapped byte.
pub committed-persists :
    (p : Process)
    → Inv p
    → (x : ℕ) → p.mapped x ≡ true
    → flush_logged p.view p.ul p.image x ≡ p.view x
committed-persists p h x m =
    flush_logged-persists p.kept p.committed p.view p.image p.ul h.undoable x (h.bounded x m)
      (elim (Bool-cases (covered p.ul.len p.ul.log x)) [
        | inl logged ↦ inl logged
        | inr unlogged ↦ elim (Bool-cases (p.kept x)) [
          | inl old ↦
              inr (inr (h.intact x old unlogged ∙ sym (h.undoable.untouched x old unlogged)))
          | inr new ↦ inr (inl (h.new_fresh x m new))
        ]
      ])

map-new : (p : Process) → Inv p → (x : ℕ) → p.mapped x ≡ false → p.kept x ≡ false
map-new p h x m = elim (Bool-cases (p.kept x)) [
  | inl old ↦ absurd (let k = h.still_mapped x old in cc)
  | inr new ↦ new
]

find-fresh :
    (p : Process) (addr size : ℕ)
    → size < 2 ^ 32
    → addr + size < word
    → Inv p
    → (x : ℕ) → (p.mapped x || inside addr size x) ≡ true
    → p.kept x ≡ false
    → x < word
    → find (record_fresh_region addr size p.ul).fresh_regions x ≡ true
find-fresh p addr size s b h x m k w =
    let whole : to_uint size ≡ size = omega arith in
    ap (λ rs. find rs x) (record_fresh_region-regions addr size p.ul)
    ∙ ap (λ n. find (insert p.ul.fresh_regions addr n) x) whole
    ∙ find-insert p.ul.fresh_regions addr size h.undoable.coalesced b x w
    ∙ (elim (Bool-cases (p.mapped x)) [
      | inl old ↦ let f = h.new_fresh x old k in ground arith
      | inr new ↦ ground arith
    ])

Step-Inv : (deduplicate : Bool) (p q : Process) → Step deduplicate p q → Inv p → Inv q
Step-Inv deduplicate _ _ (write p addr size v a b room) h =
    let r =
      record_write-Recorded p.kept p.committed p.view deduplicate addr size v p.ul a b h.undoable in
    record {
      undoable = r.undoable;
      intact = λ x k c. h.intact x k (let s = r.still x in ground arith);
      new_fresh = λ x m k. ap (λ rs. find rs x) r.unchanged ∙ h.new_fresh x m k;
      still_mapped = h.still_mapped;
      bounded = h.bounded;
    }
Step-Inv deduplicate _ _ (evict p x) h = record {
  undoable = h.undoable;
  intact = λ y k c. ground (arith, h.intact y k c, h.undoable.untouched y k c);
  new_fresh = h.new_fresh;
  still_mapped = h.still_mapped;
  bounded = h.bounded;
}
Step-Inv deduplicate _ _ (map p addr size small b free) h =
    let new : (x : ℕ) → inside addr size x ≡ true → p.kept x ≡ false =
      λ x i. map-new p h x (free x i) in
    let bound : (x : ℕ) → (p.mapped x || inside addr size x) ≡ true → x < word = λ x m.
      elim (Bool-cases (p.mapped x)) [ inl old ↦ h.bounded x old | inr fresh ↦ ground arith ] in
    record {
      undoable =
          record_fresh_region-Undoable p.kept p.committed (store p.view addr size (λ i. 0)) addr
            size p.ul b new
            (written-Undoable p.kept p.committed p.view addr size (λ i. 0) p.ul h.undoable
              (λ x k i. absurd (let n = new x i in cc)));
      intact = λ x k c. h.intact x k (sym (record_fresh_region-covered addr size p.ul x) ∙ c);
      new_fresh = λ x m k. find-fresh p addr size small b h x m k (bound x m);
      still_mapped = λ x k. let m = h.still_mapped x k in ground arith;
      bounded = bound;
    }
Step-Inv deduplicate _ _ (commit_and_cleanup p tail s ul' e e') h =
    let (ul'', e'', len, u) =
      committed-cleaned p.kept p.mapped p.committed p.view p.image p.ul tail s h.undoable e in
    let same : ul'' ≡ ul' = cc in
    let image = (commit-Persisted tail p.view p.image p.ul s e).image_is in
    record {
      undoable = subst (λ ul. Undoable p.mapped p.view p.view ul) same u;
      intact = λ x k c. ap (λ (f : Memory). f x) image ∙ committed-persists p h x k;
      new_fresh = λ x m k. cc;
      still_mapped = λ x k. k;
      bounded = h.bounded;
    }

-- The invariant holds after every run that starts with it.
pub Run-Inv : (deduplicate : Bool) (p q : Process) → Run deduplicate p q → Inv p → Inv q
Run-Inv deduplicate _ _ (stop p) h = h
Run-Inv deduplicate _ _ (step p r q s rest) h =
    Run-Inv deduplicate r q rest (Step-Inv deduplicate p r s h)
