-- ===== src/UndoLog/Blocks.antt =====
-- The loop of `undo_log_record` over the blocks of a write.
use persimmon.Base.{
  ℕ, zero, suc, ◌+◌, ◌-◌, ◌*◌, ◌/◌, ◌%◌, ◌≤◌, ◌<◌, ◌≡◌, refl, subst, ◌∙◌, ap, Bool, true, false,
  ◌||◌, lt→ltb, ge→ltb, arith, inside, add_word, word, Memory, Bool-cases, inl, inr, ℕ_discrete,
  dec_lt,
}
use persimmon.UndoLog.{
  LogEntry, UndoLog, block_size, update, is_null, insert_logged_addr, record_block, record_blocks,
}
use persimmon.UndoLog.LoggedAddrs.{AllIn, insert_logged_addr-AllIn, insert_logged_addr-present}
use persimmon.UndoLog.Restore.{
  covered, Restores, Restores-append, IsBlock, Undoable, covered-append, update_above,
}

inside-offset : (a n x : ℕ) → inside a n x ≡ true → a + (x - a) ≡ x
inside-offset a n x i = ground arith

module _ (keep : ℕ → Bool) (m₀ m : Memory) where
  -- The log with the block at `pn` behind it.
  abbrev appended : ℕ → UndoLog → (ℕ → ℕ) → UndoLog
  appended pn ul table = record ul {
    log = update ul.log ul.len (record { blk = λ i. m (pn + i); addr = pn; commit_tail = 0 });
    len = ul.len + 1;
    logged_addrs_hash = table;
  }

  covered-appended :
      (pn : ℕ) (ul : UndoLog) (table : ℕ → ℕ) (x : ℕ)
      → covered (appended pn ul table).len (appended pn ul table).log x
        ≡ (covered ul.len ul.log x || inside pn block_size x)
  covered-appended pn ul table x =
      let e : LogEntry = record { blk = λ i. m (pn + i); addr = pn; commit_tail = 0 } in
      let one : ul.len + 1 ≡ suc ul.len = omega arith in
      ap (λ n. covered n (update ul.log ul.len e) x) one ∙ covered-append ul.len ul.log e x

  appended-Restores :
      (pn : ℕ) (ul : UndoLog) (table : ℕ → ℕ)
      → Undoable keep m₀ m ul
      → Restores keep m₀ (appended pn ul table).len (appended pn ul table).log
  appended-Restores pn ul table u =
      let one : suc ul.len ≡ ul.len + 1 = omega arith in
      subst (λ n. Restores keep m₀ n (appended pn ul table).log) one
        (Restores-append keep m₀ ul.len ul.log _ u.restores
          (λ x k i c. ap m (inside-offset pn block_size x i) ∙ u.untouched x k c))

  appended-entries :
      (pn : ℕ) (ul : UndoLog) (table : ℕ → ℕ)
      → IsBlock pn
      → Undoable keep m₀ m ul
      → (i : ℕ) → i < ul.len + 1
      → (((appended pn ul table).log i).commit_tail ≡ 0)
        × IsBlock ((appended pn ul table).log i).addr
  appended-entries pn ul table ne u i l = elim (ℕ_discrete i ul.len) [
    | yes last ↦ ground arith
    | no below ↦ let old = u.entries i (omega arith) in ground arith
  ]

  appended-Undoable :
      (pn : ℕ) (ul : UndoLog) (table : ℕ → ℕ)
      → IsBlock pn
      → Undoable keep m₀ m ul
      → AllIn
          (λ a.
            (x : ℕ)
            → inside a block_size x ≡ true
            → (covered ul.len ul.log x || inside pn block_size x) ≡ true)
          table
      → Undoable keep m₀ m (appended pn ul table)
  appended-Undoable pn ul table ne u h = record {
    restores = appended-Restores pn ul table u;
    untouched = λ x k c. u.untouched x k (let a = covered-appended pn ul table x in ground arith);
    entries = appended-entries pn ul table ne u;
    hashed = λ slot s x i. covered-appended pn ul table x ∙ h slot s x i;
    fresh = u.fresh;
    coalesced = u.coalesced;
    blank =
        λ i l. ap is_null (update_above ul.log ul.len _ i (omega arith)) ∙ u.blank i (omega arith);
  }

  -- What a round of the loop makes of the log: nothing is uncovered, and the block is covered.
  record Logged (pn : ℕ) (ul ul' : UndoLog) : Type 0 where
    undoable : Undoable keep m₀ m ul'
    still : (x : ℕ) → covered ul.len ul.log x ≡ true → covered ul'.len ul'.log x ≡ true
    block : (x : ℕ) → inside pn block_size x ≡ true → covered ul'.len ul'.log x ≡ true
    same_fresh : ul'.fresh_regions ≡ ul.fresh_regions

  appended-Logged :
      (pn : ℕ) (ul : UndoLog) (table : ℕ → ℕ)
      → Undoable keep m₀ m (appended pn ul table)
      → Logged pn ul (appended pn ul table)
  appended-Logged pn ul table u = record {
    undoable = u;
    still = λ x c. covered-appended pn ul table x ∙ ground arith;
    block = λ x i. covered-appended pn ul table x ∙ ground arith;
    same_fresh = refl;
  }

  abbrev CoveredBy : UndoLog → ℕ → ℕ → Type 0
  CoveredBy ul pn a =
      (x : ℕ)
      → inside a block_size x ≡ true
      → (covered ul.len ul.log x || inside pn block_size x) ≡ true

  -- A block that the table holds is covered already.
  present-Logged :
      (pn : ℕ) (ul : UndoLog)
      → Undoable keep m₀ m ul
      → (insert_logged_addr ul.logged_addrs_hash pn).0 ≡ false
      → Logged pn ul
          (record ul { logged_addrs_hash = (insert_logged_addr ul.logged_addrs_hash pn).1 })
  present-Logged pn ul u old =
      let (slot, here, taken) = insert_logged_addr-present ul.logged_addrs_hash pn old in
      let P = λ (a : ℕ). (x : ℕ) → inside a block_size x ≡ true → covered ul.len ul.log x ≡ true in
      let block : P pn = subst P here (u.hashed slot taken) in
      record {
        undoable = record {
          restores = u.restores;
          untouched = u.untouched;
          entries = u.entries;
          hashed = insert_logged_addr-AllIn P ul.logged_addrs_hash pn u.hashed block;
          fresh = u.fresh;
          coalesced = u.coalesced;
          blank = u.blank;
        };
        still = λ x c. c;
        block = block;
        same_fresh = refl;
      }

  record_block-Logged :
      (deduplicate : Bool) (pn : ℕ) (ul : UndoLog)
      → IsBlock pn
      → Undoable keep m₀ m ul
      → Logged pn ul (record_block deduplicate m pn ul)
  unfolding record_block
  record_block-Logged false pn ul ne u = appended-Logged pn ul ul.logged_addrs_hash (
      appended-Undoable pn ul ul.logged_addrs_hash ne u
        (λ slot s x i. let c = u.hashed slot s x i in ground arith))
  record_block-Logged true pn ul ne u =
      elim (Bool-cases (insert_logged_addr ul.logged_addrs_hash pn).0) [
        | inl new ↦
            let table = (insert_logged_addr ul.logged_addrs_hash pn).1 in
            rw new (
              appended-Logged pn ul table (
                appended-Undoable pn ul table ne u (
                  insert_logged_addr-AllIn (CoveredBy ul pn) ul.logged_addrs_hash pn
                    (λ slot s x i. let c = u.hashed slot s x i in ground arith)
                    (λ x i. ground arith))))
        | inr old ↦ rw old (present-Logged pn ul u old)
      ]

  -- The whole loop: the blocks from `pn` on that start below `end` are covered, if there are no more
  -- of them than rounds.
  pub record LoggedTo (pn end : ℕ) (ul ul' : UndoLog) : Type 0 where
    pub undoable : Undoable keep m₀ m ul'
    pub still : (x : ℕ) → covered ul.len ul.log x ≡ true → covered ul'.len ul'.log x ≡ true
    pub blocks : (x : ℕ) → pn ≤ x → x < end → covered ul'.len ul'.log x ≡ true
    pub unchanged : ul'.fresh_regions ≡ ul.fresh_regions

  pub record_blocks-LoggedTo :
      (fuel : ℕ) (deduplicate : Bool) (pn end : ℕ) (ul : UndoLog)
      → IsBlock pn
      → end ≤ pn + block_size * fuel
      → end + block_size ≤ word
      → Undoable keep m₀ m ul
      → LoggedTo pn end ul (record_blocks fuel deduplicate m pn end ul)
  unfolding record_blocks
  record_blocks-LoggedTo zero deduplicate pn end ul ne f w u = record {
    undoable = u;
    still = λ x c. c;
    blocks = λ x l h. absurd (omega arith);
    unchanged = refl;
  }
  record_blocks-LoggedTo (suc fuel) deduplicate pn end ul ne f w u = elim (dec_lt pn end) [
    | no last ↦ rw (ge→ltb pn end (omega arith)) (record {
      undoable = u;
      still = λ x c. c;
      blocks = λ x l h. absurd (omega arith);
      unchanged = refl;
    })
    | yes more ↦
        let b = record_block-Logged deduplicate pn ul ne u in
        let r =
          record_blocks-LoggedTo fuel deduplicate (pn + block_size) end
            (record_block deduplicate m pn ul) (omega arith) (omega arith) w b.undoable in
        let step : add_word pn block_size ≡ pn + block_size = omega arith in
        rw (lt→ltb pn end more, step)
          (record {
            undoable = r.undoable;
            still = λ x c. r.still x (b.still x c);
            blocks = λ x l h. elim (dec_lt x (pn + block_size)) [
              | yes here ↦ r.still x (b.block x (ground arith))
              | no beyond ↦ r.blocks x (omega arith) h
            ];
            unchanged = r.unchanged ∙ b.same_fresh;
          })
  ]

record_block-len :
    (deduplicate : Bool) (m : Memory) (pn : ℕ) (ul : UndoLog)
    → (record_block deduplicate m pn ul).len ≤ ul.len + 1
unfolding record_block
record_block-len false m pn ul = omega arith
record_block-len true m pn ul = elim (Bool-cases (insert_logged_addr ul.logged_addrs_hash pn).0) [
  | inl new ↦ rw new (omega arith)
  | inr old ↦ rw old (omega arith)
]

-- The loop takes an element of the array for each block at most.
pub record_blocks-len :
    (fuel : ℕ) (deduplicate : Bool) (m : Memory) (pn end : ℕ) (ul : UndoLog)
    → pn % block_size ≡ 0
    → end + block_size ≤ word
    → (record_blocks fuel deduplicate m pn end ul).len ≤ ul.len + (end - pn + 31) / block_size
unfolding record_blocks
record_blocks-len zero deduplicate m pn end ul a w = omega arith
record_blocks-len (suc fuel) deduplicate m pn end ul a w = elim (dec_lt pn end) [
  | no last ↦ rw (ge→ltb pn end (omega arith)) (omega arith)
  | yes more ↦
      let step : add_word pn block_size ≡ pn + block_size = omega arith in
      let one = record_block-len deduplicate m pn ul in
      let rest =
        record_blocks-len fuel deduplicate m (pn + block_size) end
          (record_block deduplicate m pn ul) (omega arith) w in
      rw (lt→ltb pn end more, step) (omega arith)
]
