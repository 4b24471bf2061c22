-- ===== src/FastPath/Skip.antt =====
-- When the emitted code jumps over the slow path, and that it may.
use Prim.Native.Nat.{bit_and, bit_xor}
use persimmon.Base.{
  ℕ, ◌+◌, ◌-◌, ◌*◌, ◌/◌, ◌%◌, ◌^◌, ◌≤◌, ◌<◌, ◌≡◌, ◌⊎◌, ◌∙◌, ap, ◌↔◌, Option, none, some, ltb,
  ltb→lt, if◌then◌else◌, arith, word, add_word, List, [], ◌++◌, Bool-cases, inl, inr,
}
use persimmon.UndoLog.{block_size, hash_size}
use persimmon.FastPath.{
  Label, slow_path, skip, Instr, Cpu, execute, log2, alignment_check, table_check,
  undo_insert_fast_path,
}
use persimmon.FastPath.Bits.{bit_xor-lt-32, bit_and_slot}

-- The slot that the first probe looks at.
abbrev pub first_slot : ℕ → ℕ
first_slot addr = addr / block_size % hash_size

-- What the processor loads at the hash table.
abbrev pub IsTable : (ℕ → ℕ) → ℕ → (ℕ → ℕ) → Type 0
IsTable words table hash = (slot : ℕ) → slot < hash_size → words (table + 8 * slot) ≡ hash slot

-- The jump at the end of the code, and the one in its middle.
test_iff :
    {P : Type 0} (x : ℕ) (c : Cpu)
    → (x < 32) ↔ P
    → ((if◌then◌else◌ {A = Option Label × Cpu} (ltb x 32) (some skip, c) (none, c)).0 ≡ some skip)
      ↔ P
test_iff x c e = (λ h. let l = e.0 in ground arith, λ p. let l = e.1 p in ground arith)

guard_iff :
    {P : Type 0} (x : ℕ) (c : Cpu) (rest : Option Label × Cpu)
    → (x < 32) ↔ P
    → ((if◌then◌else◌ {A = Option Label × Cpu} (ltb 31 x) (some slow_path, c) rest).0 ≡ some skip)
      ↔ (P × (rest.0 ≡ some skip))
guard_iff x c rest e = elim (Bool-cases (ltb 31 x)) [
  | inl far ↦ rw far ((λ h. absurd (ground arith)), (λ p. let l = e.1 p.0 in absurd (ground arith)))
  | inr near ↦ rw near ((λ h. (e.0 (ground arith), h)), (λ p. p.1))
]

module _ (words : ℕ → ℕ) (table : ℕ) (hash : ℕ → ℕ) (at : IsTable words table hash)
    (low : table < 2 ^ 31) where
  table_check-skip :
      (c : Cpu)
      → c.dst < word
      → ((execute words (table_check table) c).0 ≡ some skip)
        ↔ (hash (first_slot c.dst) / 32 ≡ c.dst / 32)
  unfolding execute log2
  table_check-skip c b =
      let offset : add_word (bit_and (c.dst / 4) 131064) table ≡ table + 8 * first_slot c.dst =
        omega (arith, bit_and_slot (c.dst / 4)) in
      let loaded : words (add_word (bit_and (c.dst / 4) 131064) table) ≡ hash (first_slot c.dst) =
        ap words offset ∙ at (first_slot c.dst) (omega arith) in
      let same = bit_xor-lt-32 (hash (first_slot c.dst)) c.dst in rw loaded (test_iff _ _ same)

  alignment_check-pass :
      (c : Cpu) (size : ℕ) (code : List Instr)
      → 0 < size
      → c.dst + size < word
      → ((execute words (alignment_check size ++ code) c).0 ≡ some skip) ↔ (
          ((c.dst + (size - 1)) / 32 ≡ c.dst / 32)
          × ((execute words code (record c {
            t1 = bit_xor (c.dst + (size - 1)) c.dst;
            compared = (bit_xor (c.dst + (size - 1)) c.dst, 31);
          })).0
              ≡ some skip))
  unfolding execute
  alignment_check-pass c size code n b =
      let last : add_word c.dst (size - 1) ≡ c.dst + (size - 1) = omega arith in
      let same = bit_xor-lt-32 (c.dst + (size - 1)) c.dst in rw last (guard_iff _ _ _ same)

abbrev pub start : ℕ → Cpu
start addr = record { dst = addr; t1 = 0; compared = (0, 0) }

-- The code, by the size.
code_cases :
    (size table : ℕ) (code : List Instr)
    → undo_insert_fast_path size table ≡ some code
    → ((32 < size) × (code ≡ []))
      ⊎ (((1 < size) × (size ≤ 32) × (code ≡ alignment_check size ++ table_check table))
          ⊎ ((size ≡ 1) × (code ≡ table_check table)))
unfolding undo_insert_fast_path
code_cases size table code e = elim (Bool-cases (ltb 32 size)) [
  | inl large ↦ inl (ltb→lt 32 size large, ground arith)
  | inr small ↦ elim (Bool-cases (ltb 1 size)) [
    | inl wide ↦ inr (inl (ltb→lt 1 size wide, ground arith, ground arith))
    | inr byte ↦ inr (inr (ground arith, ground arith))
  ]
]

pub undo_insert_fast_path-positive :
    (size table : ℕ) (code : List Instr) → undo_insert_fast_path size table ≡ some code → 0 < size
undo_insert_fast_path-positive size table code e = elim (code_cases size table code e) [
  | inl (large, empty) ↦ omega arith
  | inr (inl (wide, small, checks)) ↦ omega arith
  | inr (inr (one, check)) ↦ omega arith
]

module _ (words : ℕ → ℕ) (table : ℕ) (hash : ℕ → ℕ) (at : IsTable words table hash)
    (low : table < 2 ^ 31) where
  pub undo_insert_fast_path-skip :
      (size addr : ℕ) (code : List Instr)
      → undo_insert_fast_path size table ≡ some code
      → addr + size < word
      → ((execute words code (start addr)).0 ≡ some skip) ↔ (
          (size ≤ 32)
          × ((addr + (size - 1)) / 32 ≡ addr / 32)
          × (hash (first_slot addr) / 32 ≡ addr / 32))
  unfolding execute
  undo_insert_fast_path-skip size addr code e b =
      let skips = table_check-skip words table hash at low in
      elim (code_cases size table code e) [
        | inl (large, empty) ↦ rw empty ((λ h. absurd (ground arith)), λ p. absurd (omega arith))
        | inr (inl (wide, small, checks)) ↦
            let passes =
              alignment_check-pass words table hash at low (start addr) size (table_check table)
                (omega arith) b in
            let c = record (start addr) {
              t1 = bit_xor (addr + (size - 1)) addr;
              compared = (bit_xor (addr + (size - 1)) addr, 31);
            } in
            rw checks (
              (λ h. let p = passes.0 h in (small, p.0, (skips c (omega arith)).0 p.1)),
              λ p. passes.1 (p.1, (skips c (omega arith)).1 p.2),
            )
        | inr (inr (one, check)) ↦
            let s = skips (start addr) (omega arith) in
            rw check ((λ h. (omega arith, omega arith, s.0 h)), (λ p. s.1 p.2))
      ]
