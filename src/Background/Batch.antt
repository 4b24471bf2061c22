-- ===== src/Background/Batch.antt =====
-- src/bg.cc: `_bg_consume` in a build with BATCH_COMMIT, where one commit covers several entries.
use persimmon.Base.{
  ℕ, ◌+◌, ◌%◌, ◌<◌, ◌≡◌, Bool, true, false, not, ◌||◌, ltb, ◌==◌, if◌then◌else◌, none, some, List,
  [], ◌∷◌, ◌++◌, length, replicate, Memory, ◌⊎◌,
}
use persimmon.PsmLog.{log_size, Psm, Run, done, abort, spinning, consume}
use persimmon.PsmLog.Stored.{Stored}
use persimmon.Instrument.{Client}
use persimmon.Background.{Mode, no_persist, undo, chkpt, ConsumeFunc, commit_tail}

-- `IDLE_SPIN` and `COMMIT_BATCH`
abbrev pub idle_spin : ℕ
idle_spin = 10

abbrev pub commit_batch : ℕ
commit_batch = 8

-- The condition of the while loop; the first argument is BATCH_COMMIT_FIXED_BATCH.
abbrev pub goes_on : Bool → Mode → Client → ℕ → Bool
goes_on true mode c consumed = ltb consumed commit_batch
goes_on false undo c consumed = not c.should_commit
goes_on false no_persist c consumed = ltb consumed commit_batch
goes_on false chkpt c consumed = ltb consumed commit_batch

module _ (fixed : Bool) (mode : Mode) (buf : Memory) (f : ConsumeFunc) where
  -- The loops from the do loop on, where `spin` rounds of it have found no entry: how many entries were
  -- consumed, the tail and the client. The list is what the loads of `psm->head` return, in order.
  batch_from : ℕ → ℕ → ℕ → Client → List ℕ → Run (ℕ × (ℕ × Client))
  batch_from spin consumed tail c [] = spinning
  batch_from spin consumed tail c (head ∷ heads) = elim (consume buf f head tail c) [
    | done none ↦
        let waits = batch_from (spin + 1) consumed tail c heads in
        if ltb (spin + 1) idle_spin || consumed == 0 then waits else done (consumed, (tail, c))
    | done (some (tail', c')) ↦
        let rest = batch_from 0 (consumed + 1) tail' c' heads in
        if goes_on fixed mode c' (consumed + 1) then rest else done (consumed + 1, (tail', c'))
    | abort ↦ abort
    | spinning ↦ spinning
  ]

-- `_bg_consume`, batched.
pub bg_consume_batch :
    Bool
    → Mode
    → (Client → Client)
    → ConsumeFunc
    → List ℕ
    → Psm
    → Client
    → ℕ
    → Run (ℕ × (Psm × Client))
unfolding batch_from
bg_consume_batch fixed mode chkpt_commit f heads p c tail =
    let consumed =
      if goes_on fixed mode c 0
      then batch_from fixed mode p.buf f 0 0 tail c heads
      else done (0, (tail, c)) in
    elim consumed [
      | done (n, (tail', c')) ↦
          elim (commit_tail mode chkpt_commit tail' p (record c' { should_commit = false })) [
            | done next ↦ done (tail', next)
            | abort ↦ abort
            | spinning ↦ spinning
          ]
      | abort ↦ abort
      | spinning ↦ spinning
    ]

-- The effects of the entries, in order.
abbrev pub applied : (List ℕ → Client → Client) → List (List ℕ) → Client → Client
applied apply [] c = c
applied apply (bs ∷ es) c = applied apply es (apply bs c)

module _ (fixed : Bool) (mode : Mode) (buf : Memory) (f : ConsumeFunc)
    (apply : List ℕ → Client → Client) where
  -- What a batch leaves of the entries `es`, of which it has taken the first.
  record Ended (head consumed t : ℕ) (c : Client) (es : List (List ℕ)) (k : ℕ) : Type 0 where
    taken : List (List ℕ)
    left : List (List ℕ)
    tail : ℕ
    distance : ℕ
    nonempty : 0 < consumed + length taken
    split : es ≡ taken ++ left
    run :
        batch_from fixed mode buf f 0 consumed t c (replicate k head)
        ≡ done (consumed + length taken, (tail, applied apply taken c))
    in_log : (tail < log_size) × (distance < log_size)
    line : head ≡ (tail + distance) % log_size
    stored : Stored buf tail distance left
    reason :
        (left ≡ []) ⊎ (goes_on fixed mode (applied apply taken c) (consumed + length taken) ≡ false)
