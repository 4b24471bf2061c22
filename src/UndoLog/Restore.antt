-- ===== src/UndoLog/Restore.antt =====
-- What it means that the log can undo: the addresses that it covers, and the memory that its
-- entries give back.
use persimmon.Base.{
  ℕ, zero, suc, ◌-◌, ◌≤◌, ◌<◌, ◌≡◌, ◌≢◌, refl, ◌∙◌, ap, ap₂, Bool, true, false, ◌||◌, arith, word,
  ◌%◌, inside, Memory, store, store-inside, Bool-cases, inl, inr,
}
use persimmon.Ranges.{find}
use persimmon.Ranges.Order.{Coalesced}
use persimmon.UndoLog.LoggedAddrs.{AllIn}
use persimmon.UndoLog.{LogEntry, UndoLog, block_size, update, is_null}

-- Does one of the first `n` entries hold address x?
abbrev pub covered : ℕ → (ℕ → LogEntry) → ℕ → Bool
covered zero log x = false
covered (suc n) log x = covered n log x || inside (log n).addr block_size x

-- The memory after the first `n` entries have been applied, from back to front.
abbrev pub undone : ℕ → (ℕ → LogEntry) → Memory → Memory
undone zero log m = m
undone (suc n) log m = undone n log (store m (log n).addr block_size (log n).blk)

pub undone-uncovered :
    (n : ℕ) (log : ℕ → LogEntry) (m : Memory) (x : ℕ)
    → covered n log x ≡ false
    → undone n log m x ≡ m x
unfolding store
undone-uncovered zero log m x h = refl
undone-uncovered (suc n) log m x h = undone-uncovered n log _ x (ground arith) ∙ ground arith

-- Entries behind the first `n` play no part.
pub covered-ext :
    (n : ℕ) (log log' : ℕ → LogEntry) (x : ℕ)
    → ((i : ℕ) → i < n → log i ≡ log' i)
    → covered n log x ≡ covered n log' x
covered-ext zero log log' x h = refl
covered-ext (suc n) log log' x h =
    ap₂ ◌||◌ (covered-ext n log log' x (λ i l. h i (omega arith)))
      (ap (λ (e : LogEntry). inside e.addr block_size x) (h n (omega arith)))

pub undone-ext :
    (n : ℕ) (log log' : ℕ → LogEntry) (m : Memory)
    → ((i : ℕ) → i < n → log i ≡ log' i)
    → undone n log m ≡ undone n log' m
undone-ext zero log log' m h = refl
undone-ext (suc n) log log' m h =
    undone-ext n log log' _ (λ i l. h i (omega arith))
    ∙ ap (λ (e : LogEntry). undone n log' (store m e.addr block_size e.blk)) (h n (omega arith))

-- The log undoes to `m₀`: whatever memory it is applied to, every covered byte that is kept comes
-- back.
abbrev pub Restores : (ℕ → Bool) → Memory → ℕ → (ℕ → LogEntry) → Type 0
Restores keep m₀ n log =
    (m : Memory) (x : ℕ) → keep x ≡ true → covered n log x ≡ true → undone n log m x ≡ m₀ x

pub update_self {ℓ} : {A : Type ℓ} (f : ℕ → A) (i : ℕ) (v : A) → update f i v i ≡ v
update_self f i v = ground arith

pub update_below {ℓ} :
    {A : Type ℓ} (f : ℕ → A) (i : ℕ) (v : A) (j : ℕ) → j < i → update f i v j ≡ f j
update_below f i v j h = ground arith

pub update_above {ℓ} :
    {A : Type ℓ} (f : ℕ → A) (i : ℕ) (v : A) (j : ℕ) → i < j → update f i v j ≡ f j
update_above f i v j h = ground arith

-- The append of an entry behind the first `n`.
pub covered-append :
    (n : ℕ) (log : ℕ → LogEntry) (e : LogEntry) (x : ℕ)
    → covered (suc n) (update log n e) x ≡ (covered n log x || inside e.addr block_size x)
covered-append n log e x =
    ap₂ ◌||◌ (covered-ext n (update log n e) log x (λ i l. update_below log n e i l))
      (ap (λ (e : LogEntry). inside e.addr block_size x) (update_self log n e))

undone-append :
    (n : ℕ) (log : ℕ → LogEntry) (e : LogEntry) (m : Memory) (x : ℕ)
    → undone (suc n) (update log n e) m x ≡ undone n log (store m e.addr block_size e.blk) x
undone-append n log e m x =
    ap (λ (f : Memory). f x)
      (undone-ext n (update log n e) log _ (λ i l. update_below log n e i l)
        ∙ ap (λ (e : LogEntry). undone n log (store m e.addr block_size e.blk))
            (update_self log n e))

covered-new :
    (n : ℕ) (log : ℕ → LogEntry) (e : LogEntry) (x : ℕ)
    → covered n log x ≡ false
    → covered (suc n) (update log n e) x ≡ true
    → inside e.addr block_size x ≡ true
covered-new n log e x new c = let a = covered-append n log e x in ground arith

-- One more entry keeps that, if its block holds the bytes of `m₀` at the addresses that the others
-- do not cover.
pub Restores-append :
    (keep : ℕ → Bool) (m₀ : Memory) (n : ℕ) (log : ℕ → LogEntry) (e : LogEntry)
    → Restores keep m₀ n log
    → ((x : ℕ)
        → keep x ≡ true
        → inside e.addr block_size x ≡ true
        → covered n log x ≡ false
        → e.blk (x - e.addr) ≡ m₀ x)
    → Restores keep m₀ (suc n) (update log n e)
Restores-append keep m₀ n log e r b m x k c =
    undone-append n log e m x ∙ (elim (Bool-cases (covered n log x)) [
      | inl old ↦ r (store m e.addr block_size e.blk) x k old
      | inr new ↦
          let own = covered-new n log e x new c in
          undone-uncovered n log (store m e.addr block_size e.blk) x new
          ∙ (store-inside m e.addr block_size e.blk x own ∙ b x k own new)
    ])

-- The start of a block, other than the null pointer.
abbrev pub IsBlock : ℕ → Type 0
IsBlock a = (a ≢ 0) × (a % block_size ≡ 0)

-- The invariant between two commits. `m₀` is the memory at the last commit, and `keep` says of an
-- address that its byte belongs to that commit: it was not mapped since.
pub record Undoable (keep : ℕ → Bool) (m₀ m : Memory) (ul : UndoLog) : Type 0 where
  pub restores : Restores keep m₀ ul.len ul.log
  pub untouched : (x : ℕ) → keep x ≡ true → covered ul.len ul.log x ≡ false → m x ≡ m₀ x
  pub entries : (i : ℕ) → i < ul.len → ((ul.log i).commit_tail ≡ 0) × IsBlock (ul.log i).addr
  pub hashed :
      AllIn
        (λ a. (x : ℕ) → inside a block_size x ≡ true → covered ul.len ul.log x ≡ true)
        ul.logged_addrs_hash
  pub fresh : (x : ℕ) → x < word → find ul.fresh_regions x ≡ true → keep x ≡ false
  pub coalesced : Coalesced 0 ul.fresh_regions
  pub blank : (i : ℕ) → ul.len ≤ i → is_null (ul.log i) ≡ true
