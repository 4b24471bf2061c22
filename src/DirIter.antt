-- ===== src/DirIter.antt =====
-- src/undo/mem_region/dir_iter.h: `iterate_dir`, over what `my_getdents` returns. A file name is a
-- number.
pub mod Visits
mod Tests
use persimmon.Base.{
  ℕ, zero, suc, ◌+◌, Bool, true, false, ltb, ◌==◌, if◌then◌else◌, Option, none, some, List, [], ◌∷◌,
}

-- What a call of `my_getdents` gives back: a negated error number, or the bytes that it has filled, with
-- the entries that start at each place of the buffer; 0 bytes are the end of the directory.
pub record Dirents : Type 0 where
  pub error : ℕ
  pub nread : ℕ
  pub d_name : ℕ → ℕ
  pub d_reclen : ℕ → ℕ

-- What is returned, how often the directory has been closed, and the state of the function that is
-- called for each file.
pub record Iterated {ℓ} (S : Type ℓ) : Type ℓ where
  pub ret : ℕ
  pub closes : ℕ
  pub state : S

-- The inner loop, at `bpos`: what the last call of `f` returned. `none` is that the fuel is used up.
pub visit_buffer {ℓ} : {S : Type ℓ} → ℕ → (ℕ → S → ℕ × S) → Dirents → ℕ → S → Option (ℕ × S)
visit_buffer zero f d bpos s = none
visit_buffer (suc fuel) f d bpos s =
    let (ret, s') = f (d.d_name bpos) s in
    let rest = visit_buffer fuel f d (bpos + d.d_reclen bpos) s' in
    if ltb bpos d.nread then (if ret == 0 then rest else some (ret, s')) else some (0, s)

-- The outer loop, over the results of the calls; a buffer has less than `fuel` entries.
visit_all {ℓ} : {S : Type ℓ} → ℕ → (ℕ → S → ℕ × S) → List Dirents → S → Option (Iterated S)
visit_all fuel f [] s = none
visit_all fuel f (d ∷ ds) s =
    if ltb 0 d.error
    then some (record { ret = d.error; closes = 1; state = s })
    else if d.nread == 0
    then some (record { ret = 0; closes = 1; state = s })
    else elim (visit_buffer fuel f d 0 s) [
      | none ↦ none
      | some (ret, s') ↦
          let rest = visit_all fuel f ds s' in
          if ret == 0 then rest else some (record { ret = ret; closes = 1; state = s' })
    ]

-- `iterate_dir`, with the negated error number of `my_open`.
pub iterate_dir {ℓ} :
    {S : Type ℓ} → ℕ → ℕ → (ℕ → S → ℕ × S) → List Dirents → S → Option (Iterated S)
unfolding visit_all
iterate_dir open_error fuel f ds s =
    if ltb 0 open_error
    then some (record { ret = open_error; closes = 0; state = s })
    else visit_all fuel f ds s
