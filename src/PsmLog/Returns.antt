-- ===== src/PsmLog/Returns.antt =====
-- When `psm_reserve` returns, and the requests that it does not serve as asked.
use persimmon.Base.{ℕ, ◌+◌, ◌-◌, ◌≤◌, ◌<◌, ◌≡◌, ◌^◌, refl, arith, List, [], ◌∷◌, All, dec_lt}
use persimmon.PsmLog.{
  log_size, free_space, align_to_cache_line_size, Psm, done, spinning, spin_for_space, needed,
  place, reserve,
}
use persimmon.PsmLog.Live.{distance, IsOffset, IsValid, free_space_lem, align_up}
use persimmon.PsmLog.Reserve.{reserve_aligned-some, reserve_aligned-spinning}

spin_for_space-done :
    (n h t : ℕ) (loads : List ℕ) → n ≤ free_space h t → spin_for_space n h t loads ≡ done t
unfolding spin_for_space
spin_for_space-done n h t [] f = ground arith
spin_for_space-done n h t (u ∷ loads) f = ground arith

spin_for_space-returns :
    (n h lt t : ℕ) (loads : List ℕ)
    → n ≤ free_space h t
    → (r : ℕ) × (spin_for_space n h lt (t ∷ loads) ≡ done r)
unfolding spin_for_space
spin_for_space-returns n h lt t loads f = elim (dec_lt (free_space h lt) n) [
  | yes few ↦ (t, ground (arith, spin_for_space-done n h t loads f))
  | no enough ↦ (lt, ground arith)
]

-- `psm_reserve` returns at once where the bytes needed, padding included, are free by the tail that
-- the first load returns.
pub reserve-returns :
    (p : Psm) (len t : ℕ) (loads : List ℕ)
    → IsValid p
    → IsOffset t
    → 0 < len
    → len < log_size
    → needed p (align_to_cache_line_size len) + distance t p.local_head < log_size
    → (r : ℕ × Psm) × (reserve p len (t ∷ loads) ≡ done r)
unfolding reserve
reserve-returns p len t loads v o pos small h =
    let n = align_to_cache_line_size len in
    let (up, over, line) = align_up len (omega arith) in
    let (r, e) =
      spin_for_space-returns (needed p n) p.local_head p.local_tail t loads
        (omega (arith, free_space_lem p.local_head t v.local_head_offset.0 o.0)) in
    let small' : n < log_size = ground arith in
    (place p n r, ground (arith, reserve_aligned-some p n (t ∷ loads) r v e))

spin_for_space-stuck :
    (n h t : ℕ) (loads : List ℕ)
    → h < log_size
    → log_size ≤ n
    → t < log_size
    → All (λ t. t < log_size) loads
    → spin_for_space n h t loads ≡ spinning
unfolding spin_for_space
spin_for_space-stuck n h t [] b k l a = ground (arith, free_space_lem h t b l)
spin_for_space-stuck n h t (u ∷ loads) b k l a =
    ground (arith, free_space_lem h t b l, spin_for_space-stuck n h u loads b k a.0 a.1)

-- A request that does not fit below the end of the buffer, and that with the discarded space needs
-- the whole buffer or more, spins for ever, whatever the consumer does, though the assertions admit
-- it and the log may be empty.
pub reserve-stuck :
    (p : Psm) (len : ℕ) (loads : List ℕ)
    → IsValid p
    → 0 < len
    → len ≤ log_size - 64
    → log_size < p.local_head + len
    → p.local_head ≤ len
    → All (λ t. t < log_size) loads
    → reserve p len loads ≡ spinning
unfolding reserve align_to_cache_line_size
reserve-stuck p len loads v pos small over h a =
    let n = align_to_cache_line_size len in
    let stuck = reserve_aligned-spinning p n loads (
      spin_for_space-stuck (needed p n) p.local_head p.local_tail loads v.local_head_offset.0
        (ground arith) v.local_tail_offset.0 a) in
    ground arith

-- A request of 2^32 bytes more is served as if it were for the few: it passes the assertions, and
-- the caller is given too little.
pub reserve-short :
    (p : Psm) (len : ℕ) (loads : List ℕ)
    → len < 2 ^ 31
    → reserve p (2 ^ 32 + len) loads ≡ reserve p len loads
unfolding reserve align_to_cache_line_size
reserve-short p len loads h =
    let same : align_to_cache_line_size (2 ^ 32 + len) ≡ align_to_cache_line_size len =
      omega arith in
    rw (same, reserve) refl
