-- ===== src/DirIter/Visits.antt =====
-- Which files are visited.
use persimmon.Base.{
  ℕ, zero, suc, ◌+◌, ◌<◌, ◌≡◌, ◌≢◌, ◌∙◌, refl, true, false, ltb, ◌==◌, if◌then◌else◌, some, List,
  [], ◌∷◌, ◌++◌, length, arith, All, Bool-cases, inl, inr,
}
use persimmon.DirIter.{Dirents, visit_buffer, visit_all, iterate_dir}

-- The entries in the buffer from `bpos` on, as the documentation of getdents64 has it: each has a
-- length, and the last ends where the bytes that were filled end.
abbrev pub Entries : Dirents → ℕ → List ℕ → Type 0
Entries d bpos [] = bpos ≡ d.nread
Entries d bpos (name ∷ names) =
    (bpos < d.nread) × (d.d_name bpos ≡ name) × Entries d (bpos + d.d_reclen bpos) names

-- Reads without an error, that find some entries each, and then the end.
abbrev pub Reads : List Dirents → List (List ℕ) → Type 0
Reads [] buffers = ⊥
Reads (d ∷ ds) [] = (d.error ≡ 0) × (d.nread ≡ 0)
Reads (d ∷ ds) (names ∷ buffers) =
    (d.error ≡ 0) × (d.nread ≢ 0) × Entries d 0 names × Reads ds buffers

abbrev pub concat : List (List ℕ) → List ℕ
concat [] = []
concat (names ∷ buffers) = names ++ concat buffers

-- A function on one file after the other, up to the first that fails.
abbrev pub visits {ℓ} : {S : Type ℓ} → (ℕ → S → ℕ × S) → List ℕ → S → ℕ × S
visits f [] s = (0, s)
visits f (name ∷ names) s =
    let rest = visits f names (f name s).1 in if (f name s).0 == 0 then rest else f name s

module _ {ℓ} {S : Type ℓ} (f : ℕ → S → ℕ × S) where
  visit_buffer-visits :
      (rounds : ℕ) (d : Dirents) (bpos : ℕ) (names : List ℕ) (s : S)
      → length names < rounds
      → Entries d bpos names
      → visit_buffer rounds f d bpos s ≡ some (visits f names s)
  unfolding visit_buffer
  visit_buffer-visits zero d bpos names s l e = absurd (omega arith)
  visit_buffer-visits (suc rounds) d bpos [] s l e =
      let last : ltb bpos d.nread ≡ false = ground arith in rw last refl
  visit_buffer-visits (suc rounds) d bpos (name ∷ names) s l (m, n, e) =
      let more : ltb bpos d.nread ≡ true = ground arith in
      elim (Bool-cases ((f name s).0 == 0)) [
        | inl fine ↦
            rw (more, n, fine) (visit_buffer-visits rounds d _ names (f name s).1 (omega arith) e)
        | inr fails ↦ rw (more, n, fails) refl
      ]

  -- A visit of more files.
  visits-append :
      (names more : List ℕ) (s : S)
      → visits f (names ++ more) s ≡ (
          if (visits f names s).0 == 0
          then visits f more (visits f names s).1
          else visits f names s)
  visits-append [] more s = refl
  visits-append (name ∷ names) more s = elim (Bool-cases ((f name s).0 == 0)) [
    | inl fine ↦ rw (visits, fine) (visits-append names more (f name s).1)
    | inr fails ↦ rw (visits, fails) (rw fails refl)
  ]

  visit_all-visits :
      (fuel : ℕ) (ds : List Dirents) (buffers : List (List ℕ)) (s : S)
      → Reads ds buffers
      → All (λ names. length names < fuel) buffers
      → visit_all fuel f ds s
        ≡ some (record {
          ret = (visits f (concat buffers) s).0;
          closes = 1;
          state = (visits f (concat buffers) s).1;
        })
  unfolding visit_all
  visit_all-visits fuel [] buffers s r l = absurd r
  visit_all-visits fuel (d ∷ ds) [] s (e, z) l = ground arith
  visit_all-visits fuel (d ∷ ds) (names ∷ buffers) s (e, n, entries, r) (l, ls) =
      let fine : ltb 0 d.error ≡ false = ground arith in
      let more : (d.nread == 0) ≡ false = ground arith in
      let here = visit_buffer-visits fuel d 0 names s l entries in
      let all = visits-append names (concat buffers) s in
      elim (Bool-cases ((visits f names s).0 == 0)) [
        | inl visited ↦
            rw (fine, more, here, visited)
              (visit_all-visits fuel ds buffers (visits f names s).1 r ls
                ∙ rw (visits-append names (concat buffers) s, visited) refl)
        | inr fails ↦
            rw (fine, more, here, fails) (rw (visits-append names (concat buffers) s, fails) refl)
      ]

  -- A directory that can be opened and read is iterated over: the function is called for each entry of
  -- each buffer, in order, up to the first call that fails. Its error, or 0, is returned, and the directory
  -- is closed once, whatever happens. This is so if the buffers hold less than `fuel` entries each.
  pub iterate_dir-visits :
      (fuel : ℕ) (ds : List Dirents) (buffers : List (List ℕ)) (s : S)
      → Reads ds buffers
      → All (λ names. length names < fuel) buffers
      → iterate_dir 0 fuel f ds s
        ≡ some (record {
          ret = (visits f (concat buffers) s).0;
          closes = 1;
          state = (visits f (concat buffers) s).1;
        })
  unfolding iterate_dir
  iterate_dir-visits fuel ds buffers s r l = visit_all-visits fuel ds buffers s r l
