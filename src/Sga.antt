-- ===== src/Sga.antt =====
-- src/bg.cc: the consume function that `bg_run` makes of the application's, when entries of the log are
-- scatter-gather arrays (`use_sga`). An entry is a function from an offset to a byte, and a pointer
-- into it an offset, in 64 bits. `none` is a store behind the end of the array `segs`.
pub mod Decode
mod Tests
use persimmon.Base.{
  ℕ, zero, suc, ◌+◌, ◌-◌, ◌*◌, ◌^◌, Bool, true, false, ltb, if◌then◌else◌, Option, none, some,
  ◌>>=◌, List, [], ◌∷◌, add_word, word, Memory,
}

-- `PSM_SGARRAY_MAXSIZE`
abbrev pub max_segs : ℕ
max_segs = 10

-- `psm_sgaseg_t`, with the 32 bits of `len`.
pub record Seg : Type 0 where
  pub len : ℕ
  pub buf : ℕ

-- The 32 bits that `memcpy` puts into `seg->len`.
unfoldable pub read_len : Memory → ℕ → ℕ
read_len entry p = entry p + 2 ^ 8 * entry (p + 1) + 2 ^ 16 * entry (p + 2) + 2 ^ 24 * entry (p + 3)

-- An `int`, as the 64 bits that are added to a pointer.
abbrev sign_extend : ℕ → ℕ
sign_extend len = if ltb len (2 ^ 31) then len else len + (word - 2 ^ 32)

-- The loop, for segment `i`, with `left` segments to come: the segments, and the pointer behind them.
pub decode_segs : Memory → ℕ → ℕ → ℕ → Option (List Seg × ℕ)
decode_segs entry zero i p = some ([], p)
decode_segs entry (suc left) i p =
    if ltb i max_segs
    then (do
      let len = read_len entry p
      let buf = add_word p 4
      (segs, behind) ← decode_segs entry left (suc i) (add_word buf (sign_extend len))
      some (record { len = len; buf = buf } ∷ segs, behind))
    else none

-- `sga.num_segs`, an `int8_t`: the loop makes no round for a negative one.
abbrev pub rounds : ℕ → ℕ
rounds num_segs = if ltb num_segs (2 ^ 7) then num_segs else 0

-- The array, and the length of the entry.
pub decode : Memory → Option (List Seg × ℕ)
unfolding decode_segs
decode entry = decode_segs entry (rounds (entry 0)) 0 1

-- The consume function: the application's one works on the array.
pub sga_consume {ℓ} : {S : Type ℓ} → (Memory → List Seg → S → S) → Memory → S → Option (ℕ × S)
unfolding decode
sga_consume consume_func entry s = do
  (segs, behind) ← decode entry
  some (behind, consume_func entry segs s)
