-- ===== src/Recovery/Order.antt =====
-- What holds in each state of the two processes: the background process goes on only when the
-- foreground has mapped all the regions.
use persimmon.Base.{
  ℕ, suc, ◌≡◌, refl, sym, ap, ap₂, inl, inr, subst, ◌∙◌, true, false, List, [], ◌∷◌, ◌++◌, map,
  Memory, arith, append_assoc, append-nil, All,
}
use persimmon.Region.{Region}
use persimmon.RegionManager.{RegionManager, send_regions}
use persimmon.RegionFile.{Try, ok}
use persimmon.Recovery.{pos, Message, region, tail, recovery_messages, is_sentinel}
use persimmon.Recovery.Steps.{
  Background, sending, waiting, resumed, Foreground, mapping, reading_tail, signalling, signalled,
  returned, failed_to_close, returned_error, System, Step, send, close_btf, resume, map_region,
  read_sentinel, read_tail, signal, close_ftb, fail, BeforeByte, Failure, fail_call, fail_close,
  abort, Run, here, next, fails, unsent, start,
}
use persimmon.Recovery.Places.{
  false≢true, Early, Woken, Alive, NotResumed, wakes, Early-NotResumed, HasSignalled, NotSentinel,
  load_all, load_all-append,
}

module _ (capacity : ℕ) (load : Region → Memory → Try Memory) (mrm : RegionManager)
    (recovered_tail : ℕ) (m₀ : Memory) where
  -- What is on its way behind the regions that are still to be mapped.
  abbrev behind : List Region → List Message
  behind todo =
      map region (todo ++ (record { base = 0; size = 0; file_id = 0 } ∷ []))
      ++ (tail (pos recovered_tail) ∷ [])

  -- By the place of the foreground: what is sent or still to be sent, the byte in the other pipe,
  -- where the background process is, and the memory.
  abbrev pub Expect : Foreground → List Message → ℕ → Background → Memory → Type 0
  Expect (mapping rs) stream ftb b m =
      (todo : List Region) × (rs ++ todo ≡ mrm.regions)
      × All NotSentinel todo
      × (stream ≡ behind todo)
      × (ftb ≡ 0)
      × Early b
      × (load_all load rs m₀ ≡ ok m)
  Expect (reading_tail rs) stream ftb b m =
      (rs ≡ mrm.regions)
      × (stream ≡ tail (pos recovered_tail) ∷ [])
      × (ftb ≡ 0)
      × Early b
      × (load_all load rs m₀ ≡ ok m)
  Expect (signalling rs t) stream ftb b m =
      (rs ≡ mrm.regions)
      × (t ≡ pos recovered_tail)
      × (stream ≡ [])
      × (ftb ≡ 0)
      × Early b
      × (load_all load rs m₀ ≡ ok m)
  Expect (signalled rs t) stream ftb b m =
      (rs ≡ mrm.regions)
      × (t ≡ pos recovered_tail)
      × (stream ≡ [])
      × Woken ftb b
      × (load_all load rs m₀ ≡ ok m)
  Expect (returned rs t) stream ftb b m =
      (rs ≡ mrm.regions)
      × (t ≡ pos recovered_tail)
      × (stream ≡ [])
      × Woken ftb b
      × (load_all load rs m₀ ≡ ok m)
  Expect (failed_to_close rs t e) stream ftb b m =
      (rs ≡ mrm.regions)
      × (t ≡ pos recovered_tail)
      × (stream ≡ [])
      × Woken ftb b
      × (load_all load rs m₀ ≡ ok m)
  Expect (returned_error e) stream ftb b m = (ftb ≡ 0) × NotResumed b

  abbrev pub Known : System → Type 0
  Known s = Expect s.foreground (s.btf ++ unsent s.background) s.ftb s.background s.memory

  -- Nothing is known when the background process has failed an assertion.
  abbrev pub Inv : System → Type 0
  Inv s = Alive s.background → Known s

  -- The invariant where the foreground and the first pipe are known.
  at_foreground :
      (s : System) (f : Foreground)
      → s.foreground ≡ f
      → (btf : List Message) → s.btf ≡ btf
      → Known s
      → Expect f (btf ++ unsent s.background) s.ftb s.background s.memory
  at_foreground s f e btf e' i =
      subst (λ pipe. Expect f (pipe ++ unsent s.background) s.ftb s.background s.memory) e'
        (subst (λ f'. Expect f' (s.btf ++ unsent s.background) s.ftb s.background s.memory) e i)

  sent :
      (f : Foreground) (stream : List Message) (ftb : ℕ) (m : Memory) (msg : Message)
      (rest : List Message)
      → Expect f stream ftb (sending (msg ∷ rest)) m
      → Expect f stream ftb (sending rest) m
  sent (mapping rs) stream ftb m msg rest x = x
  sent (reading_tail rs) stream ftb m msg rest x = x
  sent (signalling rs t) stream ftb m msg rest x = x
  sent (signalled rs t) stream ftb m msg rest x = x
  sent (returned rs t) stream ftb m msg rest x = x
  sent (failed_to_close rs t e) stream ftb m msg rest x = x
  sent (returned_error e) stream ftb m msg rest x = x

  closed :
      (f : Foreground) (stream : List Message) (ftb : ℕ) (m : Memory)
      → Expect f stream ftb (sending []) m
      → Expect f stream ftb waiting m
  closed (mapping rs) stream ftb m x = x
  closed (reading_tail rs) stream ftb m x = x
  closed (signalling rs t) stream ftb m x = x
  closed (signalled rs t) stream ftb m x = x
  closed (returned rs t) stream ftb m x = x
  closed (failed_to_close rs t e) stream ftb m x = x
  closed (returned_error e) stream ftb m x = x

  woken :
      (f : Foreground) (stream : List Message) (ftb n : ℕ) (m : Memory)
      → ftb ≡ suc n
      → Expect f stream ftb waiting m
      → Expect f stream n resumed m
  woken (mapping rs) stream ftb n m e (todo, r, a, s, z, y, x) = absurd (ground arith)
  woken (reading_tail rs) stream ftb n m e (r, s, z, y, x) = absurd (ground arith)
  woken (signalling rs t) stream ftb n m e (r, t', s, z, y, x) = absurd (ground arith)
  woken (signalled rs t) stream ftb n m e (r, t', s, z, x) = (r, t', s, tt, x)
  woken (returned rs t) stream ftb n m e (r, t', s, z, x) = (r, t', s, tt, x)
  woken (failed_to_close rs t e') stream ftb n m e (r, t', s, z, x) = (r, t', s, tt, x)
  woken (returned_error e') stream ftb n m e (z, x) = absurd (ground arith)

  -- The region that is next in the pipe is the next of those to be mapped.
  mapped_next :
      (rs : List Region) (r : Region) (rest : List Message) (ftb : ℕ) (b : Background)
      (m m' : Memory)
      → is_sentinel r ≡ false
      → load r m ≡ ok m'
      → Expect (mapping rs) (region r ∷ rest) ftb b m
      → Expect (mapping (rs ++ (r ∷ []))) rest ftb b m'
  mapped_next rs r rest ftb b m m' n l ([], e, a, s, z, y, x) =
      let same : r ≡ record { base = 0; size = 0; file_id = 0 } = cc in
      absurd (false≢true (sym n ∙ ap is_sentinel same))
  mapped_next rs r rest ftb b m m' n l (r' ∷ todo, e, a, s, z, y, x) =
      let same : r ≡ r' = cc in
      let later : rest ≡ behind todo = cc in
      (
        todo,
        append_assoc rs (r ∷ []) todo ∙ (ap (λ (r : Region). rs ++ (r ∷ todo)) same ∙ e),
        a.1,
        later,
        z,
        y,
        load_all-append load rs r m₀ ∙ rw x l,
      )

  sentinel_next :
      (rs : List Region) (r : Region) (rest : List Message) (ftb : ℕ) (b : Background) (m : Memory)
      → is_sentinel r ≡ true
      → Expect (mapping rs) (region r ∷ rest) ftb b m
      → Expect (reading_tail rs) rest ftb b m
  sentinel_next rs r rest ftb b m n ([], e, a, s, z, y, x) = (sym (append-nil rs) ∙ e, cc, z, y, x)
  sentinel_next rs r rest ftb b m n (r' ∷ todo, e, a, s, z, y, x) =
      let same : r ≡ r' = cc in absurd (false≢true (sym (a.0) ∙ (ap is_sentinel (sym same) ∙ n)))

  Step-Inv : (s s' : System) → Step capacity load s s' → Inv s → Inv s'
  Step-Inv s _ (send _ msg rest e l) inv alive =
      let i = inv (subst Alive (sym e) tt) in
      let j = subst (λ b. Expect s.foreground (s.btf ++ unsent b) s.ftb b s.memory) e i in
      sent s.foreground _ s.ftb s.memory msg rest (
        subst (λ stream. Expect s.foreground stream s.ftb (sending (msg ∷ rest)) s.memory)
          (sym (append_assoc s.btf (msg ∷ []) rest)) j)
  Step-Inv s _ (close_btf _ e) inv alive = closed s.foreground _ s.ftb s.memory (
      subst (λ b. Expect s.foreground (s.btf ++ unsent b) s.ftb b s.memory) e
        (inv (subst Alive (sym e) tt)))
  Step-Inv s _ (resume _ n e e') inv alive = woken s.foreground _ s.ftb n s.memory e' (
      subst (λ b. Expect s.foreground (s.btf ++ unsent b) s.ftb b s.memory) e
        (inv (subst Alive (sym e) tt)))
  Step-Inv s _ (map_region _ mapped r rest m f e n l) inv alive =
      mapped_next mapped r _ s.ftb s.background s.memory m n l (at_foreground s _ f _ e (inv alive))
  Step-Inv s _ (read_sentinel _ mapped r rest f e n) inv alive =
      sentinel_next mapped r _ s.ftb s.background s.memory n (at_foreground s _ f _ e (inv alive))
  Step-Inv s _ (read_tail _ mapped t rest f e) inv alive =
      let (r, stream, z, y, x) = at_foreground s _ f _ e (inv alive) in
      let same : t ≡ pos recovered_tail = cc in
      let empty : rest ++ unsent s.background ≡ [] = cc in (r, same, empty, z, y, x)
  Step-Inv s _ (signal _ mapped t f) inv alive =
      let (r, e, stream, z, y, x) = at_foreground s _ f _ refl (inv alive) in
      (r, e, stream, wakes s.background (suc s.ftb) (ap suc z) y, x)
  Step-Inv s _ (close_ftb _ mapped t f) inv alive = at_foreground s _ f _ refl (inv alive)
  Step-Inv s _ (fail _ mapped r rest e f b n l) inv alive =
      let (todo, e', a, stream, z, y, x) = at_foreground s _ f _ b (inv alive) in
      (z, Early-NotResumed s.background y)

  failing :
      (f : Foreground) (stream : List Message) (ftb : ℕ) (b : Background) (m : Memory)
      → BeforeByte f
      → Expect f stream ftb b m
      → (ftb ≡ 0) × NotResumed b
  failing (mapping rs) stream ftb b m h (todo, e, a, s, z, y, x) = (z, Early-NotResumed b y)
  failing (reading_tail rs) stream ftb b m h (e, s, z, y, x) = (z, Early-NotResumed b y)
  failing (signalling rs t) stream ftb b m h (e, e', s, z, y, x) = (z, Early-NotResumed b y)
  failing (signalled rs t) stream ftb b m h x = absurd h
  failing (returned rs t) stream ftb b m h x = absurd h
  failing (failed_to_close rs t e) stream ftb b m h x = absurd h
  failing (returned_error e) stream ftb b m h x = absurd h

  Failure-Inv : (s s' : System) → Failure capacity load s s' → Inv s → Inv s'
  Failure-Inv s _ (fail_call _ e h) inv alive =
      failing s.foreground _ s.ftb s.background s.memory h (inv alive)
  Failure-Inv s _ (fail_close _ mapped t e f) inv alive = at_foreground s _ f _ refl (inv alive)
  Failure-Inv s _ (abort _ h) inv alive = absurd alive

  start-Inv : All NotSentinel mrm.regions → Inv (start mrm recovered_tail m₀)
  unfolding recovery_messages send_regions
  start-Inv a alive = (mrm.regions, refl, a, refl, refl, tt, refl)

  pub Run-Inv :
      (s : System)
      → All NotSentinel mrm.regions
      → Run capacity load (start mrm recovered_tail m₀) s
      → Inv s
  Run-Inv _ a here = start-Inv a
  Run-Inv _ a (next {s = s} {s' = s'} run step) = Step-Inv s s' step (Run-Inv s a run)
  Run-Inv _ a (fails {s = s} {s' = s'} run failure) = Failure-Inv s s' failure (Run-Inv s a run)

  resumed_cases :
      (f : Foreground) (stream : List Message) (ftb : ℕ) (m : Memory)
      → Expect f stream ftb resumed m
      → HasSignalled mrm.regions (pos recovered_tail) f × (load_all load mrm.regions m₀ ≡ ok m)
  resumed_cases (mapping rs) stream ftb m (todo, e, a, s, z, y, x) = absurd y
  resumed_cases (reading_tail rs) stream ftb m (e, s, z, y, x) = absurd y
  resumed_cases (signalling rs t) stream ftb m (e, e', s, z, y, x) = absurd y
  resumed_cases (signalled rs t) stream ftb m (e, e', s, z, x) =
      (inl (ap₂ signalled e e'), subst (λ rs. load_all load rs m₀ ≡ ok m) e x)
  resumed_cases (returned rs t) stream ftb m (e, e', s, z, x) =
      (inr (inl (ap₂ returned e e')), subst (λ rs. load_all load rs m₀ ≡ ok m) e x)
  resumed_cases (failed_to_close rs t err) stream ftb m (e, e', s, z, x) = (
    inr (inr (err, ap₂ (λ rs t. failed_to_close rs t err) e e')),
    subst (λ rs. load_all load rs m₀ ≡ ok m) e x,
  )
  resumed_cases (returned_error e) stream ftb m (z, y) = absurd y

  -- Whatever the order of the steps, and whatever system calls fail: when the background process goes on
  -- behind the recovery, the foreground has mapped all the regions of the manager, in order, its memory
  -- is what loading them one after another gives, and it has read the tail that was sent. It closes its
  -- pipe, or has returned with that tail stored, or has returned the error of that close, with the tail
  -- not stored. This is so if no region is empty.
  pub resumed-returned :
      (s : System)
      → All NotSentinel mrm.regions
      → Run capacity load (start mrm recovered_tail m₀) s
      → s.background ≡ resumed
      → HasSignalled mrm.regions (pos recovered_tail) s.foreground
        × (load_all load mrm.regions m₀ ≡ ok s.memory)
  resumed-returned s a run e = resumed_cases s.foreground _ s.ftb s.memory (
      subst (λ b. Expect s.foreground (s.btf ++ unsent b) s.ftb b s.memory) e
        (Run-Inv s a run (subst Alive (sym e) tt)))
