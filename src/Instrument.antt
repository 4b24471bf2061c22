-- ===== src/Instrument.antt =====
-- src/undo/instrument.cc: what the instrumentation client does at a write, at a commit and at the
-- system calls that change the address space. What a system call gives back is an argument; `none`
-- is a failed DR_ASSERT. The build options are OPTIMIZE_SKIP_STACK, and not PRINT_TRACE or
-- MOCK_OUT_RECORD_WRITE.
pub mod Ready
pub mod Hooks
mod Tests
use persimmon.Base.{
  ℕ, zero, suc, ◌+◌, ◌-◌, ◌^◌, Bool, true, false, not, ◌&&◌, ◌||◌, leb, ◌==◌, if◌then◌else◌, Option,
  none, some, ◌>>=◌, sub_word, word, Memory,
}
use persimmon.UndoLog.{UndoLog}
use persimmon.UndoLog
use persimmon.RegionManager.{
  RegionManager, Directory, Result, success, error, not_managed, Outcome, replace_region,
  remove_region, persist_new_region_table, commit_new_region_table,
}

-- The globals of the client with the undo log, the files of the region table, and the memory as the
-- process sees it and as persistent memory holds it. `last_syscall` is the size of an mmap that is
-- under way.
pub record Client : Type 0 where
  pub ul : UndoLog
  pub mrm : RegionManager
  pub directory : Directory
  pub region_table_modified : Bool
  pub should_commit : Bool
  pub last_syscall : Option ℕ
  pub view : Memory
  pub image : Memory

-- `record_write`, which is called before the write.
pub record_write : Bool → ℕ → ℕ → ℕ → Client → Client
record_write deduplicate addr size rsp c =
    let (should_commit, ul) = UndoLog.record_write deduplicate c.view addr size c.ul in
    if leb (sub_word rsp 128) addr
    then c
    else record c { ul = ul; should_commit = if should_commit then true else c.should_commit }

-- `instrument_commit`
pub instrument_commit : ℕ → Client → Option Client
instrument_commit tail c =
    let directory =
      if c.region_table_modified then persist_new_region_table c.mrm c.directory else c.directory in
    (do
      s ← UndoLog.commit tail c.view c.image c.ul
      some (record c { ul = s.ul; image = s.image; directory = directory }))

-- `instrument_cleanup`, with whether the calls of `commit_new_region_table` succeed; what that
-- returns is not looked at.
pub instrument_cleanup : Bool → Bool → Client → Option Client
instrument_cleanup renamed synced c =
    let directory =
      if c.region_table_modified
      then (commit_new_region_table renamed synced c.directory).1
      else c.directory in
    (do
      ul ← UndoLog.post_commit_cleanup c.ul
      some (record c { ul = ul; directory = directory; region_table_modified = false }))

-- The system calls that reach the hooks, with the arguments that these look at.
pub data Syscall : Type 0 where
  mmap : (addr size : ℕ) (readable private_anonymous : Bool) → Syscall
  munmap : (addr size : ℕ) → Syscall
  other : Syscall

-- The end of the munmap branch of `event_pre_syscall`.
unmapped_as : Result → UndoLog → RegionManager → Client → Bool × Client
unmapped_as not_managed ul mrm c = (true, record c { ul = ul })
unmapped_as success ul mrm c =
    (false, record c { ul = ul; mrm = mrm; region_table_modified = true })
unmapped_as error ul mrm c = (false, record c { ul = ul; mrm = mrm; region_table_modified = true })

-- `event_pre_syscall`: whether the call goes through, with the outcomes of the system calls of
-- `remove_region`.
pub event_pre_syscall : Bool → Outcome → Outcome → Syscall → Client → Option (Bool × Client)
unfolding unmapped_as
event_pre_syscall unmapped right left other c = some (true, c)
event_pre_syscall unmapped right left (munmap addr size) c = do
  ul ← UndoLog.remove_fresh_region addr size c.ul
  (res, mrm) ← remove_region unmapped right left addr size c.mrm
  some (unmapped_as res ul mrm c)
event_pre_syscall unmapped right left (mmap addr size readable private_anonymous) c =
    elim c.last_syscall [
      | some pending ↦ none
      | none ↦
          if addr == 0 && (readable && private_anonymous)
          then some (true, record c { last_syscall = some size })
          else none
    ]

-- `MAP_FAILED`
abbrev map_failed : ℕ
map_failed = word - 1

is_success : Result → Bool
is_success success = true
is_success error = false
is_success not_managed = false

-- `event_post_syscall` behind an mmap or munmap: the argument is what the call returned, with the
-- outcome of `replace_region`.
pub event_post_syscall : Outcome → ℕ → Client → Option Client
unfolding is_success
event_post_syscall o mmap_ret c = elim c.last_syscall [
  | none ↦ some c
  | some size ↦ if mmap_ret == map_failed then some (record c { last_syscall = none }) else (do
    (res, mrm) ← replace_region o mmap_ret size c.mrm
    if is_success res
        then some (record c {
          mrm = mrm;
          ul = UndoLog.record_fresh_region mmap_ret size c.ul;
          region_table_modified = true;
          last_syscall = none;
        })
        else none)
]
