-- ===== src/FastPath/Bits.antt =====
-- What the emitted code computes by `xor` and `and`, as arithmetic.
use Prim.Native.Nat.{bit_and, bit_xor, bit_and-bitwise, bit_xor-bitwise, digits, differ}
use native.Mathlib.Nat.{one-le-pow}
use persimmon.Base.{
  ℕ, zero, suc, ◌+◌, ◌*◌, ◌/◌, ◌%◌, ◌^◌, ◌≤◌, ◌<◌, min, ◌≡◌, refl, ◌∙◌, sym, ap, ◌↔◌, arith, ltb,
  Bool-cases, inl, inr,
}

-- An operation `op` that works digit by digit: by `f` on the digits, and by `z` on what the second number has
-- beyond the first.
module _ (z : ℕ → ℕ) (f : ℕ → ℕ → ℕ) where
  one_round : (rounds x y : ℕ) → x ≤ rounds → digits z f (suc rounds) x y ≡ digits z f rounds x y
  one_round (suc rounds) zero y few = refl
  one_round zero zero y few = refl
  one_round (suc rounds) (suc x) y few =
      ap (λ high. high * 2 + f (suc x % 2) (y % 2))
        (one_round rounds (suc x / 2) (y / 2) (omega arith))
  one_round zero (suc x) y few = absurd (omega arith)

  more_rounds :
      (rounds fewer x y : ℕ)
      → x ≤ fewer
      → fewer ≤ rounds
      → digits z f rounds x y ≡ digits z f fewer x y
  more_rounds zero fewer x y few l =
      let same : zero ≡ fewer = omega arith in ap (λ n. digits z f n x y) same
  more_rounds (suc rounds) fewer x y few l = elim (Bool-cases (ltb rounds fewer)) [
    | inl above ↦ let same : suc rounds ≡ fewer = ground arith in ap (λ n. digits z f n x y) same
    | inr less ↦
        one_round rounds x y (ground arith) ∙ more_rounds rounds fewer x y few (ground arith)
  ]

  module _ (op : ℕ → ℕ → ℕ) (means : (x y : ℕ) → op x y ≡ digits z f x x y)
      (beyond : (y : ℕ) → z y ≡ 2 * z (y / 2) + f 0 (y % 2)) where
    op_digit : (x y : ℕ) → op x y ≡ 2 * op (x / 2) (y / 2) + f (x % 2) (y % 2)
    op_digit zero y = omega (arith, means 0 y, means 0 (y / 2), beyond y)
    op_digit (suc x) y =
        let high = more_rounds x (suc x / 2) (suc x / 2) (y / 2) (omega arith) (omega arith) in
        omega (arith, means (suc x) y, means (suc x / 2) (y / 2), high)

xor_digit : (x y : ℕ) → bit_xor x y ≡ 2 * bit_xor (x / 2) (y / 2) + differ (x % 2) (y % 2)
xor_digit = op_digit (λ y. y) differ bit_xor bit_xor-bitwise (λ y. omega arith)

and_digit : (x y : ℕ) → bit_and x y ≡ 2 * bit_and (x / 2) (y / 2) + min (x % 2) (y % 2)
and_digit = op_digit (λ y. 0) min bit_and bit_and-bitwise (λ y. omega arith)

zero-bit_xor : (b : ℕ) → bit_xor 0 b ≡ b
zero-bit_xor b = bit_xor-bitwise 0 b

differ_digit : (x y : ℕ) → x < 2 → y < 2 → (differ x y < 2) × ((differ x y ≡ 0) ↔ (x ≡ y))
differ_digit zero zero p q = ground arith
differ_digit zero (suc zero) p q = ground arith
differ_digit (suc zero) zero p q = ground arith
differ_digit (suc zero) (suc zero) p q = ground arith
differ_digit (suc (suc x)) y p q = absurd (omega arith)
differ_digit zero (suc (suc y)) p q = absurd (omega arith)
differ_digit (suc zero) (suc (suc y)) p q = absurd (omega arith)

bit_xor_half : (a b : ℕ) → bit_xor a b / 2 ≡ bit_xor (a / 2) (b / 2)
bit_xor_half a b =
    omega (arith, xor_digit a b, (differ_digit (a % 2) (b % 2) (omega arith) (omega arith)).0)

-- Two numbers differ in no digit just when they are equal.
bit_xor-eq-zero_fuel : (n a b : ℕ) → a ≤ n → (bit_xor a b ≡ 0) ↔ (a ≡ b)
bit_xor-eq-zero_fuel n zero b h = (λ e. sym (sym (zero-bit_xor b) ∙ e), λ e. zero-bit_xor b ∙ sym e)
bit_xor-eq-zero_fuel zero (suc a) b h = absurd (omega arith)
bit_xor-eq-zero_fuel (suc n) (suc a) b h =
    let step = xor_digit (suc a) b in
    let (small, same) = differ_digit (suc a % 2) (b % 2) (omega arith) (omega arith) in
    let rest = bit_xor-eq-zero_fuel n (suc a / 2) (b / 2) (omega arith) in
    (
      λ e. omega (arith, rest.0 (omega arith), same.0 (omega arith)),
      λ e. omega (arith, rest.1 (omega arith), same.1 (omega arith)),
    )

bit_xor-eq-zero : (a b : ℕ) → (bit_xor a b ≡ 0) ↔ (a ≡ b)
bit_xor-eq-zero a b = bit_xor-eq-zero_fuel a a b (omega arith)

-- Two addresses differ only in their last five digits just when they lie in one block of 32 bytes.
pub bit_xor-lt-32 : (a b : ℕ) → (bit_xor a b < 32) ↔ (a / 32 ≡ b / 32)
bit_xor-lt-32 a b =
    let h₁ = bit_xor_half a b in
    let h₂ = bit_xor_half (a / 2) (b / 2) in
    let h₃ = bit_xor_half (a / 2 / 2) (b / 2 / 2) in
    let h₄ = bit_xor_half (a / 2 / 2 / 2) (b / 2 / 2 / 2) in
    let h₅ = bit_xor_half (a / 2 / 2 / 2 / 2) (b / 2 / 2 / 2 / 2) in
    let e = bit_xor-eq-zero (a / 2 / 2 / 2 / 2 / 2) (b / 2 / 2 / 2 / 2 / 2) in
    (λ h. omega (arith, e.0 (omega arith)), λ h. omega (arith, e.1 (omega arith)))

-- The number of `k` ones.
ones : ℕ → ℕ
ones zero = 0
ones (suc k) = 2 * ones k + 1

no_digit : (rounds x : ℕ) → x ≤ rounds → bit_and x 0 ≡ 0
no_digit rounds zero few = bit_and-bitwise 0 0
no_digit (suc rounds) (suc x) few =
    let high = no_digit rounds (suc x / 2) (omega arith) in omega (arith, and_digit (suc x) 0)
no_digit zero (suc x) few = absurd (omega arith)

mod-two-mul : (m a : ℕ) → 0 < m → a % (2 * m) ≡ (a / 2) % m * 2 + a % 2
mod-two-mul m a h = grind arith

mod-two-pow-suc : (k a : ℕ) → a % 2 ^ suc k ≡ (a / 2) % 2 ^ k * 2 + a % 2
mod-two-pow-suc k a =
    let twice : 2 ^ suc k ≡ 2 * 2 ^ k = omega arith in
    ap (λ t. a % t) twice ∙ mod-two-mul (2 ^ k) a (one-le-pow k 2 (omega arith))

bit_and-ones : (k a : ℕ) → bit_and a (ones k) ≡ a % 2 ^ k
unfolding ones
bit_and-ones zero a = omega (arith, no_digit a a (omega arith))
bit_and-ones (suc k) a =
    let half : (2 * ones k + 1) / 2 ≡ ones k = omega arith in
    omega (
      arith,
      and_digit a (2 * ones k + 1),
      ap (λ t. bit_and (a / 2) t) half,
      bit_and-ones k (a / 2),
      mod-two-pow-suc k a,
    )

-- The mask `(LOGGED_ADDR_HASH_SIZE - 1) * sizeof(void *)` gives the offset of a slot.
pub bit_and_slot : (a : ℕ) → bit_and a 131064 ≡ 8 * (a / 8 % 16384)
unfolding ones
bit_and_slot a =
    let s₁ = and_digit a 131064 in
    let s₂ = and_digit (a / 2) 65532 in
    let s₃ = and_digit (a / 2 / 2) 32766 in
    omega (arith, s₁, s₂, s₃, bit_and-ones 14 (a / 2 / 2 / 2))
