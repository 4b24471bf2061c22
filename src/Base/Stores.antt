-- ===== src/Base/Stores.antt =====
-- A memory of bytes, by address, and the stores that a program makes in it.
use Prim.Native.Nat.{ℕ, ◌+◌, ◌-◌, ◌≤◌}
use mathlib.Core.Path.{◌≡◌, refl, fun_ext}
use mathlib.Core.Bool.{Bool, true, false, ◌&&◌}
use native.Mathlib.Omega.{arith}
use persimmon.Base.Tests.{ltb, leb, if◌then◌else◌}

abbrev pub Memory : Type 0
Memory = ℕ → ℕ

-- Does [a, a + n) hold x?
abbrev pub inside : ℕ → ℕ → ℕ → Bool
inside a n x = leb a x && ltb x (a + n)

-- The bytes `v 0`, …, `v (n - 1)` go to the addresses from `a` on.
unfoldable pub store : Memory → ℕ → ℕ → (ℕ → ℕ) → Memory
store m a n v x = if inside a n x then v (x - a) else m x

unfoldable pub fill : Memory → ℕ → ℕ → ℕ → Memory
fill m a n c x = if inside a n x then c else m x

pub store-eq-fill : (m : Memory) (a n c : ℕ) → store m a n (λ _. c) ≡ fill m a n c
unfolding store fill
store-eq-fill m a n c = fun_ext (λ x. refl)

-- Two fills by one byte that meet or overlap are one fill.
pub fill-fill :
    (m : Memory) (a k b j n c : ℕ)
    → a ≤ b
    → b ≤ a + k
    → a + k ≤ b + j
    → b + j ≡ a + n
    → fill (fill m a k c) b j c ≡ fill m a n c
unfolding fill
fill-fill m a k b j n c h₁ h₂ h₃ e = fun_ext (λ x. ground arith)

pub fill-zero : (m : Memory) (a c : ℕ) → fill m a 0 c ≡ m
unfolding fill
fill-zero m a c = fun_ext (λ x. ground arith)

pub store-inside :
    (m : Memory) (a n : ℕ) (v : ℕ → ℕ) (x : ℕ) → inside a n x ≡ true → store m a n v x ≡ v (x - a)
unfolding store
store-inside m a n v x h = rw h

pub store-outside :
    (m : Memory) (a n : ℕ) (v : ℕ → ℕ) (x : ℕ) → inside a n x ≡ false → store m a n v x ≡ m x
unfolding store
store-outside m a n v x h = rw h
