-- ===== src/Recovery/Places.antt =====
-- Where the two processes can be, and the loads of the foreground one after another.
use persimmon.Base.{
  ℕ, ◌≡◌, ◌≢◌, refl, ap, fun_ext, ◌⊎◌, ◌∙◌, true, false, List, [], ◌∷◌, ◌++◌, Memory,
}
use persimmon.Region.{Region}
use persimmon.RegionFile.{Try, failed, ok, ◌>>=◌}
use persimmon.Recovery.{ℤ, is_sentinel}
use persimmon.Recovery.Steps.{
  Background, sending, waiting, resumed, aborted, Foreground, signalled, returned, failed_to_close,
}

pub false≢true : false ≢ true
false≢true e = cc

-- The background process has not read the byte.
abbrev pub Early : Background → Type 0
Early (sending msgs) = Unit
Early waiting = Unit
Early resumed = ⊥
Early aborted = ⊥

-- It has read the byte, or can do so.
abbrev pub Woken : ℕ → Background → Type 0
Woken ftb (sending msgs) = ftb ≡ 1
Woken ftb waiting = ftb ≡ 1
Woken ftb resumed = Unit
Woken ftb aborted = ⊥

abbrev pub Alive : Background → Type 0
Alive (sending msgs) = Unit
Alive waiting = Unit
Alive resumed = Unit
Alive aborted = ⊥

abbrev pub NotResumed : Background → Type 0
NotResumed (sending msgs) = Unit
NotResumed waiting = Unit
NotResumed resumed = ⊥
NotResumed aborted = Unit

pub wakes : (b : Background) (ftb : ℕ) → ftb ≡ 1 → Early b → Woken ftb b
wakes (sending msgs) ftb e y = e
wakes waiting ftb e y = e
wakes resumed ftb e y = absurd y
wakes aborted ftb e y = absurd y

pub Early-NotResumed : (b : Background) → Early b → NotResumed b
Early-NotResumed (sending msgs) y = tt
Early-NotResumed waiting y = tt
Early-NotResumed resumed y = absurd y
Early-NotResumed aborted y = absurd y

-- The foreground has written its byte: it closes the pipe, or has returned 0, or the error of `close`.
abbrev pub HasSignalled : List Region → ℤ → Foreground → Type 0
HasSignalled rs t f =
    (f ≡ signalled rs t) ⊎ (f ≡ returned rs t) ⊎ ((e : ℕ) × (f ≡ failed_to_close rs t e))

abbrev pub NotSentinel : Region → Type 0
NotSentinel r = is_sentinel r ≡ false

-- The bodies of the loop, one after another.
abbrev pub load_all : (Region → Memory → Try Memory) → List Region → Memory → Try Memory
load_all load [] m = ok m
load_all load (r ∷ rs) m = load r m >>= load_all load rs

>>=-ok : (t : Try Memory) → (t >>= λ m. ok m) ≡ t
>>=-ok (ok m) = refl
>>=-ok (failed e) = refl

>>=-assoc :
    (t : Try Memory) (f g : Memory → Try Memory) → (t >>= λ m. f m >>= g) ≡ ((t >>= f) >>= g)
>>=-assoc (ok m) f g = refl
>>=-assoc (failed e) f g = refl

pub load_all-append :
    (load : Region → Memory → Try Memory) (rs : List Region) (r : Region) (m : Memory)
    → load_all load (rs ++ (r ∷ [])) m ≡ (load_all load rs m >>= load r)
load_all-append load [] r m = >>=-ok (load r m)
load_all-append load (r' ∷ rs) r m =
    ap (λ (g : Memory → Try Memory). load r' m >>= g) (fun_ext (load_all-append load rs r))
    ∙ >>=-assoc (load r' m) (load_all load rs) (load r)
