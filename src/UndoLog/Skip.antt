-- ===== src/UndoLog/Skip.antt =====
-- A write that the log need not be told of: its one block is found at the first probe.
use persimmon.Base.{
  ℕ, zero, suc, ◌+◌, ◌-◌, ◌/◌, ◌%◌, ◌≡◌, ◌≤◌, ◌<◌, refl, true, false, ◌==◌, ltb, arith, word,
  add_word, align_down, Memory, Bool-cases, inl, inr,
}
use persimmon.Ranges
use persimmon.UndoLog.LoggedAddrs.{AllIn, insert_logged_addr-AllIn}
use persimmon.UndoLog.Restore.{IsBlock}
use persimmon.UndoLog.{
  UndoLog, block_size, hash_size, insert_from, insert_logged_addr, record_block, record_blocks,
  record_write,
}

insert_from-first :
    (count : ℕ) (table : ℕ → ℕ) (addr i perturb : ℕ)
    → 0 < addr
    → table (i % hash_size) ≡ addr
    → insert_from (suc count) table addr i perturb ≡ (false, table)
unfolding insert_from
insert_from-first count table addr i perturb n e =
    let taken : (table (i % hash_size) == 0) ≡ false = ground arith in
    let same : (table (i % hash_size) == addr) ≡ true = ground arith in rw (taken, same) refl

insert_logged_addr-first :
    (table : ℕ → ℕ) (addr : ℕ)
    → 0 < addr
    → table (addr / block_size % hash_size) ≡ addr
    → insert_logged_addr table addr ≡ (false, table)
unfolding insert_logged_addr
insert_logged_addr-first table addr n e =
    insert_from-first (hash_size + 12) table addr (addr / block_size) (addr / block_size) n e

record_block-logged :
    (m : Memory) (pn : ℕ) (ul : UndoLog)
    → 0 < pn
    → ul.logged_addrs_hash (pn / block_size % hash_size) ≡ pn
    → record_block true m pn ul ≡ ul
unfolding record_block
record_block-logged m pn ul n e = rw (insert_logged_addr-first ul.logged_addrs_hash pn n e) refl

-- Such a write leaves the log as it is.
pub record_write-logged :
    (m : Memory) (addr size : ℕ) (ul : UndoLog)
    → block_size ≤ addr
    → 0 < size
    → addr + size + block_size ≤ word
    → (addr + (size - 1)) / block_size ≡ addr / block_size
    → ul.logged_addrs_hash (addr / block_size % hash_size) ≡ align_down addr block_size
    → (record_write true m addr size ul).1 ≡ ul
unfolding record_write record_blocks
record_write-logged m addr size ul l n w one e =
    let block = align_down addr block_size in
    let same : block / block_size ≡ addr / block_size = omega arith in
    let found : ul.logged_addrs_hash (block / block_size % hash_size) ≡ block = rw same e in
    let logged = record_block-logged m block ul (omega arith) found in
    let first : ltb block (add_word addr size) ≡ true = ground arith in
    let last : ltb (add_word block block_size) (add_word addr size) ≡ false = ground arith in
    let fuel : size + 2 ≡ suc (suc size) = omega arith in
    elim (Bool-cases (Ranges.find_range ul.fresh_regions addr size)) [
      | inl fresh ↦ rw fresh refl
      | inr not_fresh ↦ rw (not_fresh, fuel, first, logged, last) refl
    ]

-- The table keeps the starts of blocks only.
record_block-AllIn :
    (m : Memory) (pn : ℕ) (ul : UndoLog)
    → IsBlock pn
    → AllIn IsBlock ul.logged_addrs_hash
    → AllIn IsBlock (record_block true m pn ul).logged_addrs_hash
unfolding record_block
record_block-AllIn m pn ul b a =
    let new = insert_logged_addr-AllIn IsBlock ul.logged_addrs_hash pn a b in
    elim (Bool-cases (insert_logged_addr ul.logged_addrs_hash pn).0) [
      | inl fresh ↦ rw fresh new
      | inr old ↦ rw old new
    ]

record_blocks-AllIn :
    (fuel : ℕ) (m : Memory) (pn end : ℕ) (ul : UndoLog)
    → IsBlock pn
    → end + block_size ≤ word
    → AllIn IsBlock ul.logged_addrs_hash
    → AllIn IsBlock (record_blocks fuel true m pn end ul).logged_addrs_hash
unfolding record_blocks
record_blocks-AllIn zero m pn end ul b w a = a
record_blocks-AllIn (suc fuel) m pn end ul b w a = elim (Bool-cases (ltb pn end)) [
  | inl more ↦
      let before : pn < end = ground arith in
      let step : add_word pn block_size ≡ pn + block_size = omega arith in
      rw (more, step)
        (record_blocks-AllIn fuel m (pn + block_size) end (record_block true m pn ul)
          (omega arith, omega arith) w (record_block-AllIn m pn ul b a))
  | inr done ↦ rw done a
]

pub record_write-AllIn :
    (m : Memory) (addr size : ℕ) (ul : UndoLog)
    → block_size ≤ addr
    → addr + size + block_size ≤ word
    → AllIn IsBlock ul.logged_addrs_hash
    → AllIn IsBlock (record_write true m addr size ul).1.logged_addrs_hash
unfolding record_write
record_write-AllIn m addr size ul l b a =
    elim (Bool-cases (Ranges.find_range ul.fresh_regions addr size)) [
      | inl fresh ↦ rw fresh a
      | inr not_fresh ↦ rw not_fresh (
          record_blocks-AllIn (size + 2) m (align_down addr block_size) _ ul
            (omega arith, omega arith) (omega arith) a)
    ]
