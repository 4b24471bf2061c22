-- ===== src/Instrument/Hooks.antt =====
-- The hooks of the client, at a write, at munmap and at mmap, keep its invariant.
use persimmon.Base.{
  ℕ, ◌+◌, ◌≤◌, ◌<◌, ◌≡◌, refl, ◌∙◌, sym, ap, Bool, true, false, not, ◌&&◌, ◌||◌, leb, ◌==◌, none,
  some, sub_word, word, Memory, store, inside, arith, Bool-cases, inl, inr, get_elem?, ltb,
}
use persimmon.Ranges.{insert}
use persimmon.UndoLog.{UndoLog, block_size, to_uint}
use persimmon.UndoLog
use persimmon.UndoLog.Restore.{Undoable}
use persimmon.UndoLog.Record.{
  written-Undoable, record_write-Recorded, record_fresh_region-regions,
  record_fresh_region-Undoable, remove_fresh_region-Undoable,
}
use persimmon.Region.{Region, does_include, does_include_region}
use persimmon.RegionManager.{
  RegionManager, Result, success, error, not_managed, Outcome, replace_region,
}
use persimmon.RegionManager.Managed.{held, Managed}
use persimmon.RegionManager.Replace.{succeeds, replace_region-Managed}
use persimmon.RegionManager.Remove.{error≢success}
use persimmon.RegionManager.Unmap.{removed, remove_region-Managed}
use persimmon.Instrument.{
  Client, record_write, munmap, unmapped_as, event_pre_syscall, event_post_syscall, is_success,
  map_failed,
}
use persimmon.Instrument.Ready.{IsReady}

-- A write after its report keeps the invariant, and no report takes a request to commit back. This
-- is so if the write lies in the address space behind the first block, and where it counts as a write
-- to the stack, touches no byte of the last commit.
pub record_write-IsReady :
    (keep : ℕ → Bool) (m₀ : Memory) (deduplicate : Bool) (addr size rsp : ℕ) (v : ℕ → ℕ)
    (c : Client)
    → block_size ≤ addr
    → addr + size + block_size ≤ word
    → (leb (sub_word rsp 128) addr ≡ true → (x : ℕ) → inside addr size x ≡ true → keep x ≡ false)
    → IsReady keep m₀ c
    → IsReady keep m₀
        (record (record_write deduplicate addr size rsp c) { view = store c.view addr size v })
      × (c.should_commit ≡ true → (record_write deduplicate addr size rsp c).should_commit ≡ true)
unfolding record_write
record_write-IsReady keep m₀ deduplicate addr size rsp v c a b stack h =
    elim (Bool-cases (leb (sub_word rsp 128) addr)) [
      | inl skipped ↦ rw skipped (
        record {
          undoable =
              written-Undoable keep m₀ c.view addr size v c.ul h.undoable
                (λ x k i. absurd (let new = stack skipped x i in ground arith));
          managed = h.managed;
          no_new_table = h.no_new_table;
        },
        λ s. s,
      )
      | inr logged ↦ rw logged (
        record {
          undoable =
              (record_write-Recorded keep m₀ c.view deduplicate addr size v c.ul a b
                h.undoable).undoable;
          managed = h.managed;
          no_new_table = h.no_new_table;
        },
        λ s. ground arith,
      )
    ]

unmapped_as-IsReady :
    (keep : ℕ → Bool) (m₀ : Memory) (res : Result) (ul : UndoLog) (mrm : RegionManager) (c : Client)
    → IsReady keep m₀ c
    → Undoable keep m₀ c.view ul
    → Managed mrm
    → IsReady keep m₀ (unmapped_as res ul mrm c).1
unfolding unmapped_as
unmapped_as-IsReady keep m₀ success ul mrm c h u m = record {
  undoable = u;
  managed = m;
  no_new_table = h.no_new_table;
}
unmapped_as-IsReady keep m₀ error ul mrm c h u m = record {
  undoable = u;
  managed = m;
  no_new_table = h.no_new_table;
}
unmapped_as-IsReady keep m₀ not_managed ul mrm c h u m = record {
  undoable = u;
  managed = h.managed;
  no_new_table = h.no_new_table;
}

-- The munmap of a range that one region includes, of a size that is not a multiple of 2^32, raises no
-- assertion and keeps the invariant,
-- whatever the system calls of the region manager give back. If they succeed, the call does not go
-- through to the kernel a second time, the region table counts as modified, and of the addresses
-- that were held just those of the range are held no more.
pub munmap-IsReady :
    (keep : ℕ → Bool) (m₀ : Memory) (unmapped : Bool) (right left : Outcome) (addr size : ℕ)
    (r : Region) (j : ℕ) (c : Client)
    → 0 < to_uint size
    → addr + size < word
    → IsReady keep m₀ c
    → get_elem? c.mrm.regions j ≡ some r
    → does_include_region r (removed addr size) ≡ true
    → (through : Bool) × (c' : Client) × (event_pre_syscall unmapped right left (munmap addr size) c
        ≡ some (through, c'))
      × IsReady keep m₀ c'
      × ((unmapped && (succeeds right && succeeds left)) ≡ true
          → (through ≡ false)
            × (c'.region_table_modified ≡ true)
            × ((p : ℕ)
                → held c'.mrm.regions p
                  ≡ (held c.mrm.regions p && not (does_include (removed addr size) p))))
unfolding event_pre_syscall unmapped_as
munmap-IsReady keep m₀ unmapped right left addr size r j c n b h at within =
    let positive : 0 < size = omega arith in
    let (ul, e, u) = remove_fresh_region-Undoable keep m₀ c.view addr size c.ul n b h.undoable in
    let (res, mrm, e', m, sub, all) =
      remove_region-Managed addr size positive b unmapped right left c.mrm r j h.managed at
        within in
    (
      (unmapped_as res ul mrm c).0,
      (unmapped_as res ul mrm c).1,
      rw (e, e') refl,
      unmapped_as-IsReady keep m₀ res ul mrm c h u m,
      λ ok. let (done, holds) = all ok in rw done (refl, refl, holds),
    )

-- An mmap that the kernel answers with a range of which no address is held, and none belongs to the
-- last commit, is taken over by the region manager, if its system calls succeed: no assertion is
-- raised, the invariant is kept over the zeroed range, the region table counts as modified, the
-- addresses of the range are held from then on, and the range counts as fresh, of its size modulo 2^32.
pub mmap-IsReady :
    (keep : ℕ → Bool) (m₀ : Memory) (o : Outcome) (addr size : ℕ) (c : Client)
    → 0 < size
    → addr + size < word
    → IsReady keep m₀ c
    → c.last_syscall ≡ some size
    → succeeds o ≡ true
    → ((p : ℕ) → addr ≤ p → p < addr + size → held c.mrm.regions p ≡ false)
    → ((x : ℕ) → inside addr size x ≡ true → keep x ≡ false)
    → (c' : Client) × (event_post_syscall o addr c ≡ some c')
      × IsReady keep m₀ (record c' { view = store c.view addr size (λ i. 0) })
      × (c'.region_table_modified ≡ true)
      × (c'.last_syscall ≡ none)
      × (c'.ul.fresh_regions ≡ insert c.ul.fresh_regions addr (to_uint size))
      × ((p : ℕ)
          → held c'.mrm.regions p ≡ (held c.mrm.regions p || (leb addr p && ltb p (addr + size))))
unfolding event_post_syscall is_success
mmap-IsReady keep m₀ o addr size c n b h pending ok free new =
    let (res, mrm, e, a) = replace_region-Managed o addr size c.mrm h.managed n b free in
    let ret : (addr == map_failed) ≡ false = ground arith in
    let done = a.succeeded ok in
    let e' : replace_region o addr size c.mrm ≡ some (success, mrm) =
      e ∙ ap (λ r. some (r, mrm)) done in
    (
      record c {
        mrm = mrm;
        ul = UndoLog.record_fresh_region addr size c.ul;
        region_table_modified = true;
        last_syscall = none;
      },
      rw (event_post_syscall, pending, ret, e') refl,
      record {
        undoable =
            record_fresh_region-Undoable keep m₀ (store c.view addr size (λ i. 0)) addr size c.ul b
              new
              (written-Undoable keep m₀ c.view addr size (λ i. 0) c.ul h.undoable
                (λ x k i. absurd (let x_new = new x i in ground arith)));
        managed = a.managed;
        no_new_table = h.no_new_table;
      },
      refl,
      refl,
      record_fresh_region-regions addr size c.ul,
      (elim a.holds [
        | inl (s, holds) ↦ holds
        | inr (f, same) ↦ absurd (error≢success (sym f ∙ done))
      ]),
    )
