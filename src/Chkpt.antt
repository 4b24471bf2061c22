-- ===== src/Chkpt.antt =====
-- src/chkpt/chkpt.cc and chkpt.h: `chkpt_commit`, with the images that CRIU writes. `none` is abort.
pub mod Chain
mod Tests
use persimmon.Base.{
  ℕ, zero, suc, ◌+◌, ◌-◌, Bool, true, false, ltb, leb, if◌then◌else◌, Option, none, some, ◌>>=◌,
  Memory,
}
use persimmon.UndoLog.{update}

-- The background process: its memory, the `seq` of its `chkpt_state`, the parent directory that CRIU
-- has been told of, by its number, and how many file descriptors are open.
pub record Process : Type 0 where
  pub memory : Memory
  pub seq : ℕ
  pub parent_images : Option ℕ
  pub open_fds : ℕ

-- The directories below `imgs_dir`, each with its parent and the process at the dump.
pub record Image : Type 0 where
  pub parent : Option ℕ
  pub process : Process

abbrev pub Images : Type 0
Images = ℕ → Option Image

-- What the calls before `criu_dump` do. The descriptor of the directory stays open.
abbrev pub prepared : Process → Process
prepared p = record p {
  open_fds = p.open_fds + 1;
  parent_images = if ltb 0 p.seq then some (p.seq - 1) else p.parent_images;
}

-- `chkpt_commit`, in the process that goes on, where `limit` descriptors can be open, and with whether the
-- dump succeeds.
pub chkpt_commit : ℕ → Bool → Process → Images → Option (Process × Images)
chkpt_commit limit dumped p images =
    let ready = prepared p in
    if leb limit p.open_fds
    then none
    else if dumped
    then some (
      record ready { seq = p.seq + 1 },
      update images p.seq (some (record { parent = ready.parent_images; process = ready })),
    )
    else none

-- The rest of `chkpt_commit` in a process that is restored from image `k`: what the process is when it
-- jumps to `state->restore_point`. It does not return from `chkpt_commit`.
pub restore : ℕ → Images → Option Process
restore k images = do image ← images k; some (record image.process { seq = image.process.seq + 1 })

-- Commits one after another, with what the process does in between, and with whether each dump succeeds.
pub commits :
    ℕ → (ℕ → Bool) → ℕ → (ℕ → Memory → Memory) → Process → Images → Option (Process × Images)
commits limit dumped zero work p images = some (p, images)
commits limit dumped (suc n) work p images = do
  (p', images') ← commits limit dumped n work p images
  chkpt_commit limit (dumped n) (record p' { memory = work n p'.memory }) images'
