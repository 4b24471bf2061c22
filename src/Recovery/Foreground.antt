-- ===== src/Recovery/Foreground.antt =====
-- The foreground reads what the background process sends, one after the other.
use persimmon.Base.{
  ℕ, ◌+◌, ◌-◌, ◌<◌, ◌≡◌, refl, ap, ◌∙◌, true, false, add_word, if◌then◌else◌, List, [], ◌∷◌, ◌++◌,
  map, All, Memory, store, fill, inside, arith, Bool-cases, inl, inr,
}
use persimmon.Region.{Region, does_include}
use persimmon.Region.Points.{IsProper}
use persimmon.RegionManager.{RegionManager, send_regions}
use persimmon.RegionManager.Managed.{held}
use persimmon.RegionFile.{File, LoadCalls, ok}
use persimmon.RegionFile.Load.{loads, load_region-ok}
use persimmon.Recovery.{
  pos, Message, region, tail, recovery_messages, is_sentinel, map_regions, ForegroundCalls,
  map_recovered_regions, read_tail, store_tail, ForegroundState, undo_recover_foreground,
}

-- The file holds the bytes of the region.
abbrev pub Holds : Memory → File → Region → Type 0
Holds image f r = (i : ℕ) → i < r.size → f.bytes i ≡ image (r.base + i)

-- The calls for the regions succeed, and each read gets the whole region.
abbrev pub Loads : (Region → LoadCalls) → Type 0
Loads calls = (r : Region) → calls r ≡ loads r.size

-- The memory with the bytes of `image` in the regions.
abbrev pub restored : Memory → List Region → Memory → Memory
restored image rs m x = if held rs x then image x else m x

abbrev pub loaded_region : File → Region → Memory → Memory
loaded_region f r m = store (fill m r.base r.size 0) r.base r.size f.bytes

loaded_region-restored :
    (image : Memory) (f : File) (r : Region) (m : Memory) (x : ℕ)
    → IsProper r
    → Holds image f r
    → loaded_region f r m x ≡ (if does_include r x then image x else m x)
unfolding store fill does_include
loaded_region-restored image f r m x (n, b) h =
    let end : add_word r.base r.size ≡ r.base + r.size = omega arith in
    elim (Bool-cases (inside r.base r.size x)) [
      | inl i ↦
          let bytes = h (x - r.base) (ground arith) in
          let at : r.base + (x - r.base) ≡ x = ground arith in rw (end, i) (bytes ∙ ap image at)
      | inr o ↦ rw (end, o) refl
    ]

-- The loop of `map_recovered_regions`, on regions and the sentinel.
map_regions-restored :
    (image : Memory) (calls : Region → LoadCalls) (files : Region → File) (rs : List Region)
    (sentinel : Region) (rest : List Message) (m : Memory)
    → Loads calls
    → All IsProper rs
    → All (λ r. Holds image (files r) r) rs
    → is_sentinel sentinel ≡ true
    → (m' : Memory) × (map_regions calls files (map region (rs ++ (sentinel ∷ [])) ++ rest) m
        ≡ ok (rs, (rest, m')))
      × ((x : ℕ) → m' x ≡ restored image rs m x)
unfolding map_regions
map_regions-restored image calls files [] sentinel rest m l p h s = (m, rw s refl, λ x. refl)
map_regions-restored image calls files (r ∷ rs) sentinel rest m l (p, ps) (h, hs) s =
    let n : is_sentinel r ≡ false = ground arith in
    let here = load_region-ok (files r) r m in
    let (m', e, later) =
      map_regions-restored image calls files rs sentinel rest (loaded_region (files r) r m) l ps hs
        s in
    (
      m',
      rw (n, l r, here, e) refl,
      (λ x.
          later x
          ∙ (let mine = loaded_region-restored image (files r) r m x p h in
              elim (Bool-cases (held rs x)) [
                | inl again ↦ rw (restored, again) (ground arith)
                | inr once ↦ rw (restored, once) (ground arith)
              ])),
    )

-- All the other calls succeed too.
abbrev pub succeeding : (Region → LoadCalls) → ForegroundCalls
succeeding calls = record {
  close_unused_error = 0;
  open_directory_error = 0;
  load = calls;
  close_directory_error = 0;
  close_btf_error = 0;
  write_error = 0;
  nwritten = 1;
  close_ftb_error = 0;
}

-- What the background process sends brings the foreground to the same state: if the calls of the system
-- succeed and each read gets a whole region, whose file holds the bytes of `image`, then the foreground
-- maps the regions of the manager in order, its memory is `image` in the regions and unchanged elsewhere, and
-- its tail is the one that was sent. This is so if no region is empty.
pub recovery_messages-undo_recover_foreground :
    (image : Memory) (calls : Region → LoadCalls) (files : Region → File) (mrm : RegionManager)
    (recovered_tail : ℕ) (s : ForegroundState)
    → Loads calls
    → All IsProper mrm.regions
    → All (λ r. Holds image (files r) r) mrm.regions
    → (m : Memory) × (undo_recover_foreground true
          (succeeding calls)
          files
          (recovery_messages mrm recovered_tail)
          s
        ≡ ok (record { p_tail = pos recovered_tail; mapped = mrm.regions; memory = m }))
      × ((x : ℕ) → m x ≡ restored image mrm.regions s.memory x)
unfolding undo_recover_foreground map_recovered_regions recovery_messages read_tail store_tail
    send_regions
recovery_messages-undo_recover_foreground image calls files mrm recovered_tail s l p h =
    let (m, e, all) =
      map_regions-restored image calls files mrm.regions
        (record { base = 0; size = 0; file_id = 0 }) (tail (pos recovered_tail) ∷ []) s.memory l p h
        refl in
    (m, rw e refl, all)
