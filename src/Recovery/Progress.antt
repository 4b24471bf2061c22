-- ===== src/Recovery/Progress.antt =====
-- The recovery ends, and stops before its end only where a process has given up.
use persimmon.Base.{
  ℕ, suc, ◌+◌, ◌*◌, ◌≤◌, ◌<◌, ◌≡◌, refl, sym, subst, ap, false, List, [], ◌∷◌, ◌++◌, map, length,
  Memory, arith, ◌⊎◌, inl, inr, Bool-cases, All,
}
use persimmon.Region.{Region}
use persimmon.RegionManager.{RegionManager, send_regions}
use persimmon.RegionFile.{Try, failed, ok}
use persimmon.Recovery.{ℤ, pos, Message, region, tail, recovery_messages, is_sentinel}
use persimmon.Recovery.Steps.{
  Background, sending, waiting, resumed, aborted, Foreground, mapping, reading_tail, signalling,
  signalled, returned, failed_to_close, returned_error, System, Step, send, close_btf, resume,
  map_region, read_sentinel, read_tail, signal, close_ftb, fail, BeforeByte, BeforeEnd, Failure,
  fail_call, fail_close, abort, Run, here, next, fails, unsent, start,
}
use persimmon.Recovery.Places.{Alive, Woken, NotSentinel}
use persimmon.Recovery.Order.{Expect, Run-Inv}

-- The background process has gone on, and the foreground has returned, behind its byte.
abbrev pub IsFinal : System → Type 0
IsFinal s =
    (s.background ≡ resumed)
    × (rs : List Region) × (t : ℤ) × ((s.foreground ≡ returned rs t)
        ⊎ ((e : ℕ) × (s.foreground ≡ failed_to_close rs t e)))

-- The foreground has returned an error before its byte, or the background process has failed an assertion.
abbrev pub GaveUp : System → Type 0
GaveUp s = ((e : ℕ) × (s.foreground ≡ returned_error e)) ⊎ (s.background ≡ aborted)

-- How far each process is from its end.
abbrev before_end : Background → ℕ
before_end (sending msgs) = 3 + 2 * length msgs
before_end waiting = 2
before_end resumed = 1
before_end aborted = 0

abbrev before_return : Foreground → ℕ
before_return (mapping rs) = 5
before_return (reading_tail rs) = 4
before_return (signalling rs t) = 3
before_return (signalled rs t) = 2
before_return (returned rs t) = 1
before_return (failed_to_close rs t e) = 1
before_return (returned_error e) = 0

abbrev measure : System → ℕ
measure s = before_end s.background + length s.btf + before_return s.foreground

before_end-BeforeEnd : (b : Background) → BeforeEnd b → 1 < before_end b
before_end-BeforeEnd (sending msgs) h = omega arith
before_end-BeforeEnd waiting h = omega arith
before_end-BeforeEnd resumed h = absurd h
before_end-BeforeEnd aborted h = absurd h

before_return-BeforeByte : (f : Foreground) → BeforeByte f → 2 < before_return f
before_return-BeforeByte (mapping rs) h = omega arith
before_return-BeforeByte (reading_tail rs) h = omega arith
before_return-BeforeByte (signalling rs t) h = omega arith
before_return-BeforeByte (signalled rs t) h = absurd h
before_return-BeforeByte (returned rs t) h = absurd h
before_return-BeforeByte (failed_to_close rs t e) h = absurd h
before_return-BeforeByte (returned_error e) h = absurd h

messages-length :
    (rs : List Region) (sentinel : Region) (t : ℤ)
    → length (map region (rs ++ (sentinel ∷ [])) ++ (tail t ∷ [])) ≡ length rs + 2
messages-length [] sentinel t = refl
messages-length (r ∷ rs) sentinel t = let later = messages-length rs sentinel t in omega arith

length-append-one :
    (msgs : List Message) (msg : Message) → length (msgs ++ (msg ∷ [])) ≡ suc (length msgs)
length-append-one [] msg = refl
length-append-one (m ∷ msgs) msg = ap suc (length-append-one msgs msg)

module _ (capacity : ℕ) (load : Region → Memory → Try Memory) where
  Step-measure : (s s' : System) → Step capacity load s s' → measure s' < measure s
  Step-measure s _ (send _ msg rest e l) =
      let one = length-append-one s.btf msg in let b = ap before_end e in omega arith
  Step-measure s _ (close_btf _ e) = let b = ap before_end e in omega arith
  Step-measure s _ (resume _ n e e') = let b = ap before_end e in omega arith
  Step-measure s _ (map_region _ mapped r rest m f e n l) =
      let b = ap before_return f in
      let p = ap (λ (msgs : List Message). length msgs) e in omega arith
  Step-measure s _ (read_sentinel _ mapped r rest f e n) =
      let b = ap before_return f in
      let p = ap (λ (msgs : List Message). length msgs) e in omega arith
  Step-measure s _ (read_tail _ mapped t rest f e) =
      let b = ap before_return f in
      let p = ap (λ (msgs : List Message). length msgs) e in omega arith
  Step-measure s _ (signal _ mapped t f) = let b = ap before_return f in omega arith
  Step-measure s _ (fail _ mapped r rest e f b n l) =
      let b' = ap before_return f in
      let p = ap (λ (msgs : List Message). length msgs) b in omega arith
  Step-measure s _ (close_ftb _ mapped t f) = let b = ap before_return f in omega arith

  Failure-measure : (s s' : System) → Failure capacity load s s' → measure s' < measure s
  Failure-measure s _ (fail_call _ e h) =
      let more = before_return-BeforeByte s.foreground h in omega arith
  Failure-measure s _ (fail_close _ mapped t e f) = let b = ap before_return f in omega arith
  Failure-measure s _ (abort _ h) = let more = before_end-BeforeEnd s.background h in omega arith

  -- The number of steps of a run, those that fail included.
  abbrev pub steps : (first s : System) → Run capacity load first s → ℕ
  steps first _ here = 0
  steps first _ (next {s = s} run step) = suc (steps first s run)
  steps first _ (fails {s = s} run failure) = suc (steps first s run)

  Run-measure :
      (first s : System) (run : Run capacity load first s)
      → steps first s run + measure s ≤ measure first
  Run-measure first _ here = omega arith
  Run-measure first _ (next {s = s} {s' = s'} run step) =
      let before = Run-measure first s run in let less = Step-measure s s' step in omega arith
  Run-measure first _ (fails {s = s} {s' = s'} run failure) =
      let before = Run-measure first s run in let less = Failure-measure s s' failure in omega arith

  -- A step other than the failure of a system call, where a load that fails is a step too.
  abbrev pub CanStep : System → Type 0
  CanStep s = (s' : System) × Step capacity load s s'

  module _ (mrm : RegionManager) (recovered_tail : ℕ) (m₀ : Memory) (room : 0 < capacity) where
    abbrev state : Background → Foreground → List Message → ℕ → Memory → System
    state b f btf ftb m = record {
      background = b;
      foreground = f;
      btf = btf;
      ftb = ftb;
      memory = m;
    }

    -- An empty pipe, where something is still to come: it can be sent.
    can_send :
        (b : Background) (f : Foreground) (ftb : ℕ) (m : Memory) (msg : Message)
        (msgs : List Message)
        → unsent b ≡ msg ∷ msgs
        → CanStep (state b f [] ftb m)
    can_send (sending []) f ftb m msg msgs e = absurd cc
    can_send (sending (msg' ∷ rest)) f ftb m msg msgs e = (_, send _ msg' rest refl room)
    can_send waiting f ftb m msg msgs e = absurd cc
    can_send resumed f ftb m msg msgs e = absurd cc
    can_send aborted f ftb m msg msgs e = absurd cc

    try_load :
        (b : Background) (rs : List Region) (r : Region) (rest : List Message) (ftb : ℕ)
        (m : Memory) (result : Try Memory)
        → is_sentinel r ≡ false
        → load r m ≡ result
        → CanStep (state b (mapping rs) (region r ∷ rest) ftb m)
    try_load b rs r rest ftb m (ok m') n e = (_, map_region _ rs r rest m' refl refl n e)
    try_load b rs r rest ftb m (failed err) n e = (_, fail _ rs r rest err refl refl n e)

    can_map :
        (b : Background) (rs : List Region) (btf : List Message) (ftb : ℕ) (m : Memory)
        → Expect capacity load mrm recovered_tail m₀ (mapping rs) (btf ++ unsent b) ftb b m
        → CanStep (state b (mapping rs) btf ftb m)
    can_map b rs [] ftb m ([], e, a, s, z, y, x) = can_send b (mapping rs) ftb m _ _ s
    can_map b rs [] ftb m (r ∷ todo, e, a, s, z, y, x) = can_send b (mapping rs) ftb m _ _ s
    can_map b rs (region r ∷ rest) ftb m x = elim (Bool-cases (is_sentinel r)) [
      | inl last ↦ (_, read_sentinel _ rs r rest refl refl last)
      | inr more ↦ try_load b rs r rest ftb m (load r m) more refl
    ]
    can_map b rs (tail t ∷ rest) ftb m ([], e, a, s, z, y, x) = absurd cc
    can_map b rs (tail t ∷ rest) ftb m (r ∷ todo, e, a, s, z, y, x) = absurd cc

    -- Behind the byte, the background process goes on.
    signalled_next :
        (b : Background) (f : Foreground) (btf : List Message) (ftb : ℕ) (m : Memory)
        → btf ++ unsent b ≡ []
        → Woken ftb b
        → (b ≡ resumed) ⊎ CanStep (state b f btf ftb m)
    signalled_next (sending []) f btf ftb m s z = inr (_, close_btf _ refl)
    signalled_next (sending (msg ∷ msgs)) f [] ftb m s z = absurd cc
    signalled_next (sending (msg ∷ msgs)) f (first ∷ btf) ftb m s z = absurd cc
    signalled_next waiting f btf ftb m s z = inr (_, resume _ 0 refl z)
    signalled_next resumed f btf ftb m s z = inl refl
    signalled_next aborted f btf ftb m s z = absurd z

    progress :
        (b : Background) (f : Foreground) (btf : List Message) (ftb : ℕ) (m : Memory)
        → Expect capacity load mrm recovered_tail m₀ f (btf ++ unsent b) ftb b m
        → IsFinal (state b f btf ftb m)
          ⊎ CanStep (state b f btf ftb m)
          ⊎ GaveUp (state b f btf ftb m)
    progress b (mapping rs) btf ftb m x = inr (inl (can_map b rs btf ftb m x))
    progress b (reading_tail rs) [] ftb m (e, s, z, y, x) =
        inr (inl (can_send b (reading_tail rs) ftb m _ _ s))
    progress b (reading_tail rs) (tail t ∷ rest) ftb m x =
        inr (inl (_, read_tail _ rs t rest refl refl))
    progress b (reading_tail rs) (region r ∷ rest) ftb m (e, s, z, y, x) = absurd cc
    progress b (signalling rs t) btf ftb m x = inr (inl (_, signal _ rs t refl))
    progress b (signalled rs t) btf ftb m x = inr (inl (_, close_ftb _ rs t refl))
    progress b (returned rs t) btf ftb m (e, e', s, z, x) =
        elim (signalled_next b (returned rs t) btf ftb m s z) [
          | inl over ↦ inl (over, rs, t, inl refl)
          | inr further ↦ inr (inl further)
        ]
    progress b (failed_to_close rs t err) btf ftb m (e, e', s, z, x) =
        elim (signalled_next b (failed_to_close rs t err) btf ftb m s z) [
          | inl over ↦ inl (over, rs, t, inr (err, refl))
          | inr further ↦ inr (inl further)
        ]
    progress b (returned_error e) btf ftb m x = inr (inr (inl (e, refl)))

    -- Nothing of the foreground moves any more once its error is returned.
    blocked :
        (s : System) (e : ℕ)
        → s.foreground ≡ returned_error e
        → s.background ≡ waiting
        → s.ftb ≡ 0
        → (s' : System) → Step capacity load s s'
        → ⊥
    blocked s e f b z _ (send _ msg rest b' l) = cc
    blocked s e f b z _ (close_btf _ b') = cc
    blocked s e f b z _ (resume _ n b' z') = absurd (omega arith)
    blocked s e f b z _ (map_region _ mapped r rest m f' p n l) = cc
    blocked s e f b z _ (read_sentinel _ mapped r rest f' p n) = cc
    blocked s e f b z _ (read_tail _ mapped t rest f' p) = cc
    blocked s e f b z _ (signal _ mapped t f') = cc
    blocked s e f b z _ (close_ftb _ mapped t f') = cc
    blocked s e f b z _ (fail _ mapped r rest e' f' p n l) = cc

    background_cases : (b : Background) → Alive b ⊎ (b ≡ aborted)
    background_cases (sending msgs) = inl tt
    background_cases waiting = inl tt
    background_cases resumed = inl tt
    background_cases aborted = inr refl

    no_byte :
        (s : System) (e : ℕ)
        → s.foreground ≡ returned_error e
        → Expect capacity load mrm recovered_tail m₀ s.foreground
            (s.btf ++ unsent s.background)
            s.ftb
            s.background
            s.memory
        → s.ftb ≡ 0
    no_byte s e f x =
        (subst
          (λ f.
            Expect capacity load mrm recovered_tail m₀ f (s.btf ++ unsent s.background) s.ftb
              s.background s.memory)
          f x).0

    -- The recovery has no more than 2 n + 12 steps for n regions, whatever the order of the steps, whatever
    -- system calls fail, and however small the pipe. In each state that it reaches, the background process has gone
    -- on and the foreground has returned, or one of them can make a step, a load that fails included, or one
    -- has given up before the hand-over. Where the foreground has given up, with its ends of the pipes left open, and the
    -- background process waits for the byte, neither can make a step: that is a deadlock. This is so if no region is
    -- empty and the pipe takes a message.
    pub recovery-ends :
        (s : System)
        → All NotSentinel mrm.regions
        → (run : Run capacity load (start mrm recovered_tail m₀) s)
        → (steps _ s run ≤ 2 * length mrm.regions + 12)
          × (IsFinal s ⊎ CanStep s ⊎ GaveUp s)
          × ((e : ℕ) → s.foreground ≡ returned_error e → s.background ≡ waiting → ¬ CanStep s)
    unfolding recovery_messages send_regions
    recovery-ends s a run =
        let few = Run-measure _ s run in
        let inv = Run-Inv capacity load mrm recovered_tail m₀ s a run in
        (
          let n =
                messages-length mrm.regions (record { base = 0; size = 0; file_id = 0 })
                  (pos recovered_tail) in
              omega arith,
          elim (background_cases s.background) [
            | inl alive ↦ progress s.background s.foreground s.btf s.ftb s.memory (inv alive)
            | inr gone ↦ inr (inr (inr gone))
          ],
          λ e f b can. blocked s e f b (no_byte s e f (inv (subst Alive (sym b) tt))) can.0 can.1,
        )
