-- ===== src/RegionFile/Persist.antt =====
-- `persist_region`: its loop ends, and the file holds the region.
use persimmon.Base.{
  ℕ, zero, suc, ◌+◌, ◌-◌, ◌≤◌, ◌<◌, ◌≡◌, refl, sym, ap, ◌∙◌, Bool, true, false, some, List, [], ◌∷◌,
  ltb, ◌==◌, add_word, sub_word, word, Memory, arith, Bool-cases, inl, inr,
}
use persimmon.RegionFile.{
  File, empty_file, append, write_all, fsync_ret, is_negative, persist_region,
}

-- What is written in `fuel` calls, if a call that is asked for `n` bytes writes `kernel n`.
abbrev pub results : (ℕ → ℕ) → ℕ → ℕ → List ℕ
results kernel zero left = []
results kernel (suc fuel) left = kernel left ∷ results kernel fuel (left - kernel left)

-- Each call writes a byte at least, and no more than it is asked for.
abbrev pub IsKernel : (ℕ → ℕ) → Type 0
IsKernel kernel = (n : ℕ) → 0 < n → (0 < kernel n) × (kernel n ≤ n)

-- `n` bytes of the memory from `from` on have been put at the end of `f`.
record Copied (m : Memory) (from n : ℕ) (f g : File) : Type 0 where
  pub size : g.size ≡ f.size + n
  pub old : (i : ℕ) → i < f.size → g.bytes i ≡ f.bytes i
  pub new : (i : ℕ) → i < n → g.bytes (f.size + i) ≡ m (from + i)

append-Copied :
    (m : Memory) (from n nb : ℕ) (f g : File)
    → nb ≤ n
    → Copied m (from + nb) (n - nb) (append m from nb f) g
    → Copied m from n f g
append-Copied m from n nb f g l c = record {
  size = let s = c.size in omega arith;
  old = λ i h. let o = c.old i (omega arith) in ground arith;
  new = λ i h. elim (Bool-cases (ltb i nb)) [
    | inl here ↦
        let new : ltb (f.size + i) f.size ≡ false = ground arith in
        let same : f.size + i - f.size ≡ i = omega arith in
        c.old (f.size + i) (ground arith) ∙ rw (new, same) refl
    | inr later ↦
        let at : f.size + nb + (i - nb) ≡ f.size + i = ground arith in
        let source : from + nb + (i - nb) ≡ from + i = ground arith in
        sym (ap g.bytes at) ∙ (c.new (i - nb) (ground arith) ∙ ap m source)
  ];
}

write_all-Copied :
    (m : Memory) (kernel : ℕ → ℕ) (fuel from left : ℕ) (f : File)
    → IsKernel kernel
    → left ≤ fuel
    → from + left < word
    → (g : File) × (write_all m from left (results kernel fuel left) f ≡ some (true, g))
      × Copied m from left f g
unfolding write_all
write_all-Copied m kernel zero from left f k l b = (
  f,
  ground arith,
  record { size = omega arith; old = λ i h. refl; new = λ i h. absurd (omega arith) },
)
write_all-Copied m kernel (suc fuel) from left f k l b = elim (Bool-cases (left == 0)) [
  | inl last ↦ (
    f,
    ground arith,
    record { size = ground arith; old = λ i h. refl; new = λ i h. absurd (ground arith) },
  )
  | inr more ↦
      let (some_bytes, at_most) = k left (ground arith) in
      let (g, e, c) =
        write_all-Copied m kernel fuel (from + kernel left) (left - kernel left)
          (append m from (kernel left) f) k (omega arith) (omega arith) in
      let next : add_word from (kernel left) ≡ from + kernel left = omega arith in
      let less : sub_word left (kernel left) ≡ left - kernel left = omega arith in
      let moved : (kernel left == 0) ≡ false = ground arith in
      (g, rw (more, moved, next, less) e, append-Copied m from left (kernel left) f g at_most c)
]

fsync_unnoticed : (file_synced : Bool) → is_negative (fsync_ret file_synced) ≡ false
fsync_unnoticed true = refl
fsync_unnoticed false = refl

-- If the new file can be opened, and each `my_write` writes a byte at least, then `persist_region`
-- ends after `size` writes at most, in whatever pieces. It leaves a file with the bytes of the region and
-- no others, and returns its descriptor if the fsync of the directory succeeds, even where that of the
-- file fails: then the file that it returns has not been synced.
pub persist_region-copies :
    (kernel : ℕ → ℕ) (file_synced directory_synced : Bool) (m : Memory) (base size : ℕ)
    → IsKernel kernel
    → base + size < word
    → (f : File) × (persist_region
          (record {
            opened = true;
            written = results kernel size size;
            file_synced = file_synced;
            directory_synced = directory_synced;
          })
          m
          base
          size
        ≡ some (directory_synced, some f))
      × (f.size ≡ size)
      × ((i : ℕ) → i < size → f.bytes i ≡ m (base + i))
      × (f.synced ≡ file_synced)
unfolding persist_region
persist_region-copies kernel file_synced directory_synced m base size k b =
    let (g, e, c) = write_all-Copied m kernel size base size empty_file k (omega arith) b in
    (
      record g { synced = file_synced },
      rw (e, fsync_unnoticed file_synced) refl,
      (let s = c.size in omega arith),
      (λ i h. let at : 0 + i ≡ i = omega arith in sym (ap g.bytes at) ∙ c.new i h),
      refl,
    )
