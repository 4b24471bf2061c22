-- ===== src/Chkpt/Chain.antt =====
-- The images of a run: a chain of increments, each of which restores the process.
use persimmon.Base.{
  ℕ, zero, suc, ◌+◌, ◌-◌, ◌≤◌, ◌<◌, ◌≡◌, ◌∙◌, ap, refl, Bool, true, false, ltb, leb, ◌==◌,
  if◌then◌else◌, Option, none, some, Memory, arith, Bool-cases, inl, inr,
}
use persimmon.UndoLog.{update}
use persimmon.Chkpt.{Process, Image, Images, prepared, chkpt_commit, restore, commits}

-- What has been dumped of a process that started with nothing: the increment before is the parent of each.
abbrev pub parent_of : ℕ → Option ℕ
parent_of zero = none
parent_of (suc k) = some k

pub record Chained (first : Process) (n : ℕ) (p : Process) (images : Images) : Type 0 where
  pub counted : p.seq ≡ n
  pub descriptors : p.open_fds ≡ first.open_fds + n
  pub named : p.parent_images ≡ parent_of (n - 1)
  pub image :
      (k : ℕ)
      → k < n
      → (i : Image) × (images k ≡ some i) × (i.parent ≡ parent_of k) × (i.process.seq ≡ k)

-- A process that has not committed yet.
abbrev pub IsFresh : Process → Type 0
IsFresh p = (p.seq ≡ 0) × (p.parent_images ≡ none)

next_parent : (n : ℕ) → (if ltb 0 n then some (n - 1) else parent_of (n - 1)) ≡ parent_of n
next_parent zero = refl
next_parent (suc n) =
    let more : ltb 0 (suc n) ≡ true = ground arith in
    let back : suc n - 1 ≡ n = omega arith in rw (more, back) refl

-- One commit more, where a descriptor is left.
committed : Process → Process
committed p = record (prepared p) { seq = p.seq + 1 }

image_of : Process → Image
image_of p = record { parent = (prepared p).parent_images; process = prepared p }

commit-Chained :
    (first : Process) (n : ℕ) (p : Process) (images : Images) (m : Memory)
    → Chained first n p images
    → let p' = record p { memory = m } in
      Chained first (suc n) (committed p') (update images p.seq (some (image_of p')))
unfolding committed image_of
commit-Chained first n p images m c =
    let parent : (prepared p).parent_images ≡ parent_of n =
      rw (c.counted, c.named) (next_parent n) in
    record {
      counted = let q = c.counted in omega arith;
      descriptors = let q = c.descriptors in omega arith;
      named = let back : suc n - 1 ≡ n = omega arith in rw back parent;
      image = λ k l. elim (Bool-cases (k == p.seq)) [
        | inl new ↦
            let same : n ≡ k = let q = c.counted in ground arith in
            (
              image_of (record p { memory = m }),
              rw new refl,
              parent ∙ ap parent_of same,
              c.counted ∙ same,
            )
        | inr old ↦
            let (i, e, named, counted) = c.image k (let q = c.counted in ground arith) in
            (i, rw old e, named, counted)
      ];
    }

module _ (limit : ℕ) (dumped : ℕ → Bool) (work : ℕ → Memory → Memory) (first : Process)
    (images : Images) (fresh : IsFresh first) (dumps : (k : ℕ) → dumped k ≡ true) where
  commits-Chained :
      (n : ℕ)
      → first.open_fds + n ≤ limit
      → (p : Process) × (images' : Images) × (commits limit dumped n work first images
          ≡ some (p, images'))
        × Chained first n p images'
  unfolding commits chkpt_commit committed image_of
  commits-Chained zero l = (
    first,
    images,
    refl,
    record {
      counted = fresh.0;
      descriptors = omega arith;
      named = fresh.1;
      image = λ k h. absurd (omega arith);
    },
  )
  commits-Chained (suc n) l =
      let (p, images', e, c) = commits-Chained n (omega arith) in
      let room : leb limit p.open_fds ≡ false = let d = c.descriptors in ground arith in
      (_, _, rw (e, dumps n, room) refl, commit-Chained first n p images' (work n p.memory) c)

  -- As long as descriptors are left and dumps succeed, commits succeed: each image is an increment of the one
  -- before it, and the process that is restored from the last one has, where it jumps to its restore point, the
  -- memory and the counter of the process that goes on behind that commit. This is so for a process that has
  -- not committed before.
  pub commits-restore :
      (n : ℕ)
      → first.open_fds + suc n ≤ limit
      → (p : Process) × (images' : Images) × (commits limit dumped (suc n) work first images
          ≡ some (p, images'))
        × (restore n images' ≡ some p)
        × Chained first (suc n) p images'
  unfolding commits chkpt_commit restore committed image_of
  commits-restore n l =
      let (p, images', e, c) = commits-Chained n (omega arith) in
      let p' = record p { memory = work n p.memory } in
      let room : leb limit p.open_fds ≡ false = let d = c.descriptors in ground arith in
      let own : (n == p.seq) ≡ true = let q = c.counted in ground arith in
      (
        committed p',
        update images' p.seq (some (image_of p')),
        rw (e, dumps n, room) refl,
        rw own refl,
        commit-Chained first n p images' (work n p.memory) c,
      )
