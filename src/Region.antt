-- ===== src/Region.antt =====
-- src/undo/mem_region/common.h: a memory region and the name of its file in persistent memory.
-- Characters are their ASCII codes; a name has its NUL at the end.
pub mod Points
pub mod Names
mod Tests
use persimmon.Base.{
  ℕ, zero, suc, ◌+◌, ◌-◌, ◌*◌, ◌/◌, ◌%◌, ◌^◌, Bool, true, false, ◌&&◌, ◌||◌, ltb, leb, ◌==◌,
  if◌then◌else◌, max, add_word, sub_word, List, [], ◌∷◌,
}

-- `FILE_NAME_BUF_LEN`
abbrev pub file_name_buf_len : ℕ
file_name_buf_len = 4 + 16 + 1 + 8 + 1

-- `region`
pub record Region : Type 0 where
  pub base : ℕ
  pub size : ℕ
  pub file_id : ℕ

abbrev pub end : Region → ℕ
end r = add_word r.base r.size

-- `does_include(void *)`
unfoldable pub does_include : Region → ℕ → Bool
does_include r addr = leb r.base addr && ltb addr (end r)

-- `does_include(const region &)`
unfoldable pub does_include_region : Region → Region → Bool
unfolding does_include
does_include_region r other = does_include r other.base && does_include r (sub_word (end other) 1)

unfoldable pub does_overlap_with : Region → Region → Bool
unfolding does_include
does_overlap_with r other = does_include r other.base || does_include other r.base

-- The first loop of `write_hex`, on fuel: the number of hexadecimal digits, 0 for 0. A T of 64 bits
-- has at most 16.
hex_len : ℕ → ℕ → ℕ
hex_len zero copy = 0
hex_len (suc fuel) copy = let rest = hex_len fuel (copy / 16) in if copy == 0 then 0 else suc rest

abbrev pub digit : ℕ → ℕ
digit d = if ltb d 10 then 48 + d else 97 + (d - 10)

-- The second loop: the last `i` digits of the number, in front of what follows at p + hex_len.
write_digits : ℕ → ℕ → List ℕ → List ℕ
write_digits zero number follows = follows
write_digits (suc i) number follows = write_digits i (number / 16) (digit (number % 16) ∷ follows)

pub write_hex : ℕ → List ℕ → List ℕ
unfolding hex_len write_digits
write_hex number follows = write_digits (max 1 (hex_len 16 number)) number follows

pub make_file_name : Region → List ℕ
unfolding write_hex
make_file_name r = 109 ∷ 101 ∷ 109 ∷ 95 ∷ write_hex r.base (95 ∷ write_hex r.file_id (0 ∷ []))
