-- ===== src/Recovery/Steps.antt =====
-- The two processes side by side, in any order of their steps: what holds in each state.
use persimmon.Base.{ℕ, suc, ◌<◌, ◌≡◌, true, false, List, [], ◌∷◌, ◌++◌, length, Memory}
use persimmon.Region.{Region}
use persimmon.RegionManager.{RegionManager}
use persimmon.RegionFile.{Try, failed, ok}
use persimmon.Recovery.{ℤ, Message, region, tail, recovery_messages, is_sentinel}

-- Where `dr_client_main` is: it has messages to send, waits for the byte of the foreground, goes on, or has failed
-- an assertion.
pub data Background : Type 0 where
  sending : List Message → Background
  waiting : Background
  resumed : Background
  aborted : Background

-- Where `undo_recover_foreground` is: it maps regions, reads the tail, writes the byte, has written it and
-- closes the pipe, or has returned: 0, an error before the byte, or the error of that `close`.
pub data Foreground : Type 0 where
  mapping : List Region → Foreground
  reading_tail : List Region → Foreground
  signalling : List Region → ℤ → Foreground
  signalled : List Region → ℤ → Foreground
  returned : List Region → ℤ → Foreground
  failed_to_close : List Region → ℤ → ℕ → Foreground
  returned_error : ℕ → Foreground

-- The processes with what is in the two pipes, and the memory of the foreground.
pub record System : Type 0 where
  pub background : Background
  pub foreground : Foreground
  pub btf : List Message
  pub ftb : ℕ
  pub memory : Memory

-- The calls that lead to the byte, or write it.
abbrev pub BeforeByte : Foreground → Type 0
BeforeByte (mapping rs) = Unit
BeforeByte (reading_tail rs) = Unit
BeforeByte (signalling rs t) = Unit
BeforeByte (signalled rs t) = ⊥
BeforeByte (returned rs t) = ⊥
BeforeByte (failed_to_close rs t e) = ⊥
BeforeByte (returned_error e) = ⊥

abbrev pub BeforeEnd : Background → Type 0
BeforeEnd (sending msgs) = Unit
BeforeEnd waiting = Unit
BeforeEnd resumed = ⊥
BeforeEnd aborted = ⊥

-- `capacity` is how many messages the pipe takes, and `load` what the body of the loop of
-- `map_recovered_regions` does with a region. An error that the foreground returns leaves its ends of the
-- pipes open.
module _ (capacity : ℕ) (load : Region → Memory → Try Memory) where
  pub data Step : System → System → Type 0 where
    send :
        (s : System) (msg : Message) (rest : List Message)
        → s.background ≡ sending (msg ∷ rest)
        → length s.btf < capacity
        → Step s (record s { background = sending rest; btf = s.btf ++ (msg ∷ []) })
    close_btf :
        (s : System) → s.background ≡ sending [] → Step s (record s { background = waiting })
    resume :
        (s : System) (n : ℕ)
        → s.background ≡ waiting
        → s.ftb ≡ suc n
        → Step s (record s { background = resumed; ftb = n })
    map_region :
        (s : System) (mapped : List Region) (r : Region) (rest : List Message) (m : Memory)
        → s.foreground ≡ mapping mapped
        → s.btf ≡ region r ∷ rest
        → is_sentinel r ≡ false
        → load r s.memory ≡ ok m
        → Step s (record s { foreground = mapping (mapped ++ (r ∷ [])); btf = rest; memory = m })
    read_sentinel :
        (s : System) (mapped : List Region) (r : Region) (rest : List Message)
        → s.foreground ≡ mapping mapped
        → s.btf ≡ region r ∷ rest
        → is_sentinel r ≡ true
        → Step s (record s { foreground = reading_tail mapped; btf = rest })
    read_tail :
        (s : System) (mapped : List Region) (t : ℤ) (rest : List Message)
        → s.foreground ≡ reading_tail mapped
        → s.btf ≡ tail t ∷ rest
        → Step s (record s { foreground = signalling mapped t; btf = rest })
    signal :
        (s : System) (mapped : List Region) (t : ℤ)
        → s.foreground ≡ signalling mapped t
        → Step s (record s { foreground = signalled mapped t; ftb = suc s.ftb })
    close_ftb :
        (s : System) (mapped : List Region) (t : ℤ)
        → s.foreground ≡ signalled mapped t
        → Step s (record s { foreground = returned mapped t })
    fail :
        (s : System) (mapped : List Region) (r : Region) (rest : List Message) (e : ℕ)
        → s.foreground ≡ mapping mapped
        → s.btf ≡ region r ∷ rest
        → is_sentinel r ≡ false
        → load r s.memory ≡ failed e
        → Step s (record s { foreground = returned_error e; btf = rest })

  -- A system call that fails, in either process, at any place.
  pub data Failure : System → System → Type 0 where
    fail_call :
        (s : System) (e : ℕ)
        → BeforeByte s.foreground
        → Failure s (record s { foreground = returned_error e })
    fail_close :
        (s : System) (mapped : List Region) (t : ℤ) (e : ℕ)
        → s.foreground ≡ signalled mapped t
        → Failure s (record s { foreground = failed_to_close mapped t e })
    abort : (s : System) → BeforeEnd s.background → Failure s (record s { background = aborted })

  pub data Run (start : System) : System → Type 0 where
    here : Run start start
    next : {s s' : System} → Run start s → Step s s' → Run start s'
    fails : {s s' : System} → Run start s → Failure s s' → Run start s'

-- What the background process has still to send.
abbrev pub unsent : Background → List Message
unsent (sending msgs) = msgs
unsent waiting = []
unsent resumed = []
unsent aborted = []

-- The start: everything is to be sent, and nothing is mapped.
abbrev pub start : RegionManager → ℕ → Memory → System
start mrm recovered_tail m = record {
  background = sending (recovery_messages mrm recovered_tail);
  foreground = mapping [];
  btf = [];
  ftb = 0;
  memory = m;
}
