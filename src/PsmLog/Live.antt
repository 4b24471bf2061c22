-- ===== src/PsmLog/Live.antt =====
-- The circular buffer as distances: the bytes from `tail` on that are in use, and what
-- `psm_reserve` counts as free.
use persimmon.Base.{ℕ, ◌+◌, ◌^◌, ◌-◌, ◌%◌, ◌≤◌, ◌<◌, ◌≡◌, arith}
use persimmon.PsmLog.{log_size, free_space, align_to_cache_line_size, Psm}

-- The way from offset `a` forward to offset `b`.
abbrev pub distance : ℕ → ℕ → ℕ
distance a b = (b + log_size - a) % log_size

-- An offset of the buffer at which a cache line starts.
abbrev pub IsOffset : ℕ → Type 0
IsOffset a = (a < log_size) × (a % 64 ≡ 0)

pub free_space_lem :
    (h t : ℕ) → h < log_size → t < log_size → free_space h t ≡ log_size - 1 - distance t h
unfolding free_space
free_space_lem h t p q = omega arith

-- Up to 2^32 - 64 bytes are rounded up to whole lines.
pub align_up :
    (n : ℕ)
    → n < 2 ^ 31
    → (n ≤ align_to_cache_line_size n)
      × (align_to_cache_line_size n < n + 64)
      × (align_to_cache_line_size n % 64 ≡ 0)
unfolding align_to_cache_line_size
align_up n h = omega arith

-- Going round from the consumer's tail: the published head, then the producer's; and the
-- producer's copy of the tail lags behind the tail.
pub record IsValid (p : Psm) : Type 0 where
  pub tail_offset : IsOffset p.tail
  pub head_offset : IsOffset p.head
  pub local_head_offset : IsOffset p.local_head
  pub local_tail_offset : IsOffset p.local_tail
  pub synced_head : p.log_head ≡ p.head
  pub synced_tail : p.log_tail ≡ p.tail
  pub published : distance p.tail p.head ≤ distance p.tail p.local_head
  pub lagging :
      distance p.local_tail p.local_head
      ≡ distance p.local_tail p.tail + distance p.tail p.local_head

-- What a load of `psm->tail` may have returned: the tail, or a value that it had before.
abbrev pub Lags : Psm → ℕ → Type 0
Lags p t = IsOffset t × (distance t p.local_head ≡ distance t p.tail + distance p.tail p.local_head)

-- Does the entry or padding between the tail and `local_head` hold offset x?
abbrev pub IsLive : Psm → ℕ → Type 0
IsLive p x = distance p.tail x < distance p.tail p.local_head

-- Persistent memory holds what lies between the tail and offset `h`.
abbrev pub PersistedTo : Psm → ℕ → Type 0
PersistedTo p h =
    (x : ℕ) → x < log_size → distance p.tail x < distance p.tail h → p.persisted x ≡ p.buf x

-- What is published is persisted.
abbrev pub IsDurable : Psm → Type 0
IsDurable p = PersistedTo p p.head
