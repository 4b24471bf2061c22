-- ===== src/AddressSpace/Tests.antt =====
-- Which regions are replaced.
use persimmon.Base.{ℕ, ◌≡◌, refl, Bool, true, false, Option, none, some, List, [], ◌∷◌, map}
use persimmon.AddressSpace.{MemInfo, should_replace}

abbrev data_pages : MemInfo
data_pages = record {
  base_pc = 0;
  size = 8192;
  free = false;
  read = true;
  write = true;
  exec = false;
  vdso = false;
  stack = false;
  shared = false;
  pretend_write = false;
}

abbrev stack_pages : MemInfo
stack_pages = record data_pages { base_pc = 8192; size = 4096; stack = true }

abbrev nowhere : ℕ → Bool
nowhere p = false

abbrev picks : List MemInfo → List (Option Bool)
picks infos = map (should_replace nowhere nowhere) infos

-- The code is not writable, and a page that only pretends to be writable fails the assertion.
picks_data :
    picks (
      data_pages
      ∷ stack_pages
      ∷ record data_pages { write = false; exec = true }
      ∷ record data_pages { pretend_write = true }
      ∷ [])
    ≡ some true ∷ some false ∷ some false ∷ none ∷ []
unfolding should_replace
picks_data = refl
