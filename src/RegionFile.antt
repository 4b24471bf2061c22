-- ===== src/RegionFile.antt =====
-- The files of the memory regions: `persist_region` of src/undo/mem_region/mem_region.cc, which
-- writes a region to a new file, and what `map_recovered_regions` of src/undo/mem_region/fg.cc does
-- with one region. What a system call gives back is an argument.
pub mod Persist
pub mod Load
mod Tests
use persimmon.Base.{
  ℕ, zero, suc, ◌+◌, ◌-◌, ◌%◌, ◌^◌, Bool, true, false, not, Option, none, some, List, [], ◌∷◌, ltb,
  ◌==◌, if◌then◌else◌, add_word, sub_word, Memory, store, fill,
}
use persimmon.Region.{Region}

-- A file, and whether an fsync of it has succeeded since the last write.
pub record File : Type 0 where
  pub bytes : ℕ → ℕ
  pub size : ℕ
  pub synced : Bool

abbrev pub empty_file : File
empty_file = record { bytes = λ i. 0; size = 0; synced = false }

-- A write of `nb` bytes of the memory from `from` on, at the end of the file.
abbrev pub append : Memory → ℕ → ℕ → File → File
append m from nb f = record {
  bytes = λ i. if ltb i f.size then f.bytes i else m (from + (i - f.size));
  size = f.size + nb;
  synced = false;
}

-- The loop of `persist_region`: whether it ends without an error, and the file. The list is what the
-- calls of `my_write` return, with 0 for an error too; `none` is that the list is used up.
pub write_all : Memory → ℕ → ℕ → List ℕ → File → Option (Bool × File)
write_all m write_from to_write [] f = if to_write == 0 then some (true, f) else none
write_all m write_from to_write (nb ∷ nbs) f =
    let rest =
      write_all m (add_word write_from nb) (sub_word to_write nb) nbs (append m write_from nb f) in
    if to_write == 0 then some (true, f) else if nb == 0 then some (false, f) else rest

-- What the system calls of `persist_region` give back.
pub record PersistCalls : Type 0 where
  pub opened : Bool
  pub written : List ℕ
  pub file_synced : Bool
  pub directory_synced : Bool

-- The value of the variable `ret` behind `my_fsync(fd)`: the Boolean `my_fsync(fd) < 0`.
abbrev fsync_ret : Bool → ℕ
fsync_ret file_synced = if file_synced then 0 else 1

-- `ret < 0`, of an int.
abbrev is_negative : ℕ → Bool
is_negative ret = ltb (2 ^ 31 - 1) (ret % 2 ^ 32)

-- `persist_region`: whether it returns a file descriptor, and the file that it leaves.
pub persist_region : PersistCalls → Memory → ℕ → ℕ → Option (Bool × Option File)
persist_region calls m base size =
    if not calls.opened
    then some (false, none)
    else elim (write_all m base size calls.written empty_file) [
      | none ↦ none
      | some (false, f) ↦ some (false, some f)
      | some (true, f) ↦
          let f' = record f { synced = calls.file_synced } in
          if is_negative (fsync_ret calls.file_synced)
          then some (false, some f')
          else some (calls.directory_synced, some f')
    ]

-- An error number, or a result.
pub data Try {ℓ} (A : Type ℓ) : Type ℓ where
  failed : ℕ → Try A
  ok : A → Try A

infixl 5 ◌>>=◌ ◌>>◌
abbrev pub ◌>>=◌ {ℓ κ} : {A : Type ℓ} {B : Type κ} → Try A → (A → Try B) → Try B
failed e >>= f = failed e
ok a >>= f = f a

abbrev pub ◌>>◌ {ℓ} : {B : Type ℓ} → Try (Unit {0}) → Try B → Try B
m >> k = m >>= λ _. k

-- An error return, if the test holds.
abbrev pub fail_if : Bool → ℕ → Try (Unit {0})
fail_if true e = failed e
fail_if false e = ok tt

abbrev pub einval : ℕ
einval = 22

abbrev pub eagain : ℕ
eagain = 11

-- What the system calls for one region give back: is the region mapped where it was, and the error
-- numbers of the others, 0 for success. A read that succeeds gets `nread` bytes.
pub record LoadCalls : Type 0 where
  pub mapped : Bool
  pub open_error : ℕ
  pub read_error : ℕ
  pub nread : ℕ
  pub close_error : ℕ

-- The body of the loop of `map_recovered_regions`: zero pages are mapped, and the file is read.
pub load_region : LoadCalls → File → Region → Memory → Try Memory
load_region calls f r m = do
  fail_if (not calls.mapped) einval
  fail_if (ltb 0 calls.open_error) calls.open_error
  fail_if (ltb 0 calls.read_error) calls.read_error
  fail_if (ltb calls.nread r.size) eagain
  fail_if (ltb 0 calls.close_error) calls.close_error
  ok (store (fill m r.base r.size 0) r.base calls.nread f.bytes)
