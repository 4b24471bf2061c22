-- ===== src/Base/Words.antt =====
-- `uintptr_t` and `size_t`: 64-bit words with their wrap-around written out.
use Prim.Native.Nat.{ℕ, ◌+◌, ◌-◌, ◌%◌, ◌^◌}

abbrev pub word : ℕ
word = 2 ^ 64

abbrev pub add_word : ℕ → ℕ → ℕ
add_word a b = (a + b) % word

abbrev pub sub_word : ℕ → ℕ → ℕ
sub_word a b = (a + word - b) % word

-- `a & ~(n - 1)`, for a power of two n: the start of the block of n bytes that holds a.
abbrev pub align_down : ℕ → ℕ → ℕ
align_down a n = a - a % n
