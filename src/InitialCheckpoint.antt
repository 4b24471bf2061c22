-- ===== src/InitialCheckpoint.antt =====
-- src/undo/initial_chkpt.cc: `take_initial_chkpt`, on the table of the open files of the process.
-- What the calls give back are arguments, with 0 for success; CRIU's calls that cannot fail are left out.
pub mod Redirected
mod Tests
use persimmon.Base.{
  ℕ, zero, suc, ◌+◌, Bool, true, false, not, ◌&&◌, ltb, ◌==◌, if◌then◌else◌, Option, none, some,
}
use persimmon.UndoLog.{update}
use persimmon.RegionFile.{Try, failed, ok, ◌>>=◌, ◌>>◌, fail_if}

-- What a file descriptor refers to.
pub data Target : Type 0 where
  dev_null_ro dev_null_wo pmem_dir images_dir log_file : Target
  other : ℕ → Target

abbrev pub Fds : Type 0
Fds = ℕ → Option Target

-- `my_open` and `my_openat`: `pick` is the descriptor that the system takes.
abbrev open_fd : (Fds → ℕ) → Target → Fds → Fds
open_fd pick target fds = update fds (pick fds) (some target)

abbrev close_fd : ℕ → Fds → Fds
close_fd fd fds = update fds fd none

abbrev dup2 : ℕ → ℕ → Fds → Fds
dup2 from to fds = update fds to (fds from)

-- `MUST_SUCCEED`, of a call that returns 0 or a negated error number.
abbrev pub must_succeed : ℕ → Try (Unit {0})
must_succeed e = fail_if (ltb 0 e) e

-- The first block: stdin becomes /dev/null. `e` numbers the calls from the argument on.
unfoldable pub redirect_stdin : (ℕ → ℕ) → ℕ → (Fds → ℕ) → Fds → Try Fds
redirect_stdin e n pick fds = do
  must_succeed (e n)
  let fd = pick fds
  let opened = open_fd pick dev_null_ro fds
  must_succeed (e (n + 1))
  let redirected = dup2 fd 0 opened
  must_succeed (e (n + 2))
  ok (close_fd fd redirected)

-- The blocks that redirect stdout and stderr to a file.
unfoldable pub redirect_outputs : (ℕ → ℕ) → ℕ → (Fds → ℕ) → Target → Fds → Try Fds
redirect_outputs e n pick target fds = do
  must_succeed (e n)
  let fd = pick fds
  let opened = open_fd pick target fds
  must_succeed (e (n + 1))
  let out = dup2 fd 1 opened
  must_succeed (e (n + 2))
  let err = dup2 fd 2 out
  must_succeed (e (n + 3))
  ok (close_fd fd err)

-- `EEXIST`
abbrev pub eexist : ℕ
eexist = 17

-- What `criu_dump` returns.
pub data Dump : Type 0 where
  dumped restored : Dump
  dump_failed : ℕ → Dump

-- What `take_initial_chkpt` leaves: the open files at the dump and at the end, and whether it returns 0
-- or jumps to the recovery point.
pub record Checkpointed : Type 0 where
  pub at_dump : Fds
  pub at_end : Fds
  pub jumps : Bool

-- Behind the dump.
after_dump : (ℕ → ℕ) → (Fds → ℕ) → Dump → ℕ → Fds → Fds → Try Checkpointed
after_dump e pick (dump_failed res) dirfd at_dump fds = failed res
after_dump e pick dumped dirfd at_dump fds = do
  logged ← redirect_outputs e 14 pick log_file fds
  must_succeed (e 18)
  ok (record { at_dump = at_dump; at_end = close_fd dirfd logged; jumps = false })
after_dump e pick restored dirfd at_dump fds = do
  logged ← redirect_outputs e 14 pick log_file fds
  must_succeed (e 18)
  ok (record { at_dump = at_dump; at_end = close_fd dirfd logged; jumps = true })

pub take_initial_chkpt : (ℕ → ℕ) → (Fds → ℕ) → Dump → Fds → Try Checkpointed
unfolding after_dump
take_initial_chkpt e pick dump fds = do
  no_stdin ← redirect_stdin e 0 pick fds
  silent ← redirect_outputs e 3 pick dev_null_wo no_stdin
  must_succeed (e 7)
  must_succeed (e 8)
  let dirfd = pick silent
  let with_dir = open_fd pick pmem_dir silent
  must_succeed (e 9)
  must_succeed (e 10)
  fail_if (ltb 0 (e 11) && not (e 11 == eexist)) (e 11)
  must_succeed (e 12)
  let imgs_dirfd = pick with_dir
  let with_images = open_fd pick images_dir with_dir
  must_succeed (e 13)
  after_dump e pick dump dirfd with_images (close_fd imgs_dirfd with_images)
