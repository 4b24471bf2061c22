-- ===== src/Region/Names.antt =====
-- File names: what a region's name tells of the region, and how long it is.
use persimmon.Base.{
  ℕ, zero, suc, ◌+◌, ◌-◌, ◌*◌, ◌/◌, ◌%◌, ◌^◌, ◌≤◌, ◌<◌, ◌≡◌, refl, ◌∙◌, ap, ◌||◌, ltb, ◌==◌,
  if◌then◌else◌, max, arith, word, List, [], ◌∷◌, length, Option, some, none, Bool-cases, inl, inr,
}
use persimmon.Region.{
  Region, hex_len, digit, write_digits, write_hex, make_file_name, file_name_buf_len,
}

-- A number in hexadecimal up to an underscore or a NUL, and what stands behind that.
read_hex : ℕ → List ℕ → ℕ × List ℕ
read_hex n [] = (n, [])
read_hex n (c ∷ cs) =
    let rest = read_hex (16 * n + (if ltb c 97 then c - 48 else c - 87)) cs in
    if c == 95 || c == 0 then (n, cs) else rest

-- The base and the file id that a file name stands for.
pub parse_file_name : List ℕ → Option (ℕ × ℕ)
unfolding read_hex
parse_file_name (a ∷ b ∷ c ∷ d ∷ rest) =
    let (base, rest') = read_hex 0 rest in some (base, (read_hex 0 rest').0)
parse_file_name rest = none

read_hex-digit :
    (n d : ℕ) (rest : List ℕ) → d < 16 → read_hex n (digit d ∷ rest) ≡ read_hex (16 * n + d) rest
unfolding read_hex
read_hex-digit n d rest h = ground arith

read_hex-write_digits :
    (i number : ℕ) (rest : List ℕ)
    → number < 16 ^ i
    → read_hex 0 (write_digits i number rest) ≡ read_hex number rest
unfolding write_digits
read_hex-write_digits zero number rest h = ap (λ n. read_hex n rest) (omega arith)
read_hex-write_digits (suc i) number rest h =
    read_hex-write_digits i (number / 16) (digit (number % 16) ∷ rest) (omega arith)
    ∙ read_hex-digit (number / 16) (number % 16) rest (omega arith)
    ∙ ap (λ n. read_hex n rest) (omega arith)

more_digits : (k n : ℕ) → n / 16 < 16 ^ k → n < 16 ^ suc k
more_digits k n h = omega arith

hex_len-enough : (fuel copy : ℕ) → copy < 16 ^ fuel → copy < 16 ^ hex_len fuel copy
unfolding hex_len
hex_len-enough zero copy h = h
hex_len-enough (suc fuel) copy h =
    let rest = hex_len-enough fuel (copy / 16) (omega arith) in
    elim (Bool-cases (copy == 0)) [
      | inl none_left ↦ rw none_left (ground arith)
      | inr more ↦ rw more (more_digits (hex_len fuel (copy / 16)) copy rest)
    ]

hex_len-most : (fuel k copy : ℕ) → copy < 16 ^ k → hex_len fuel copy ≤ k
unfolding hex_len
hex_len-most zero k copy h = omega arith
hex_len-most (suc fuel) zero copy h = ground arith
hex_len-most (suc fuel) (suc k) copy h =
    let rest = hex_len-most fuel k (copy / 16) (omega arith) in ground arith

length-write_digits :
    (i number : ℕ) (rest : List ℕ) → length (write_digits i number rest) ≡ i + length rest
unfolding write_digits
length-write_digits zero number rest = omega arith
length-write_digits (suc i) number rest =
    length-write_digits i (number / 16) (digit (number % 16) ∷ rest) ∙ omega arith

max-suc : (i : ℕ) → suc i ≡ max 1 (suc i)
max-suc i = omega arith

one_digit-enough : (i n : ℕ) → n < 16 ^ i → n < 16 ^ max 1 i
one_digit-enough zero n h = omega arith
one_digit-enough (suc i) n h = rw⁻¹ (max-suc i) h

-- A number that is written in hexadecimal is read back, whatever follows it.
read_hex-write_hex :
    (number : ℕ) (rest : List ℕ)
    → number < word
    → read_hex 0 (write_hex number rest) ≡ read_hex number rest
unfolding write_hex
read_hex-write_hex number rest h =
    read_hex-write_digits (max 1 (hex_len 16 number)) number rest
      (one_digit-enough (hex_len 16 number) number (hex_len-enough 16 number (omega arith)))

length-write_hex :
    (k number : ℕ) (rest : List ℕ)
    → 0 < k
    → number < 16 ^ k
    → length (write_hex number rest) ≤ k + length rest
unfolding write_hex
length-write_hex k number rest pos h =
    let most = hex_len-most 16 k number h in
    let len = length-write_digits (max 1 (hex_len 16 number)) number rest in omega arith

-- The file name of a region tells its base and its file id, so that regions that differ in one of
-- them have different files, and it fits into the buffer of FILE_NAME_BUF_LEN characters.
pub make_file_name-parse :
    (r : Region)
    → r.base < word
    → r.file_id < 2 ^ 32
    → (parse_file_name (make_file_name r) ≡ some (r.base, r.file_id))
      × (length (make_file_name r) ≤ file_name_buf_len)
unfolding make_file_name parse_file_name
make_file_name-parse r a b = (
  rw
      (
        read_hex-write_hex r.base (95 ∷ write_hex r.file_id (0 ∷ [])) a,
        read_hex-write_hex r.file_id (0 ∷ []) (omega arith),
      )
      refl,
  (let id = length-write_hex 8 r.file_id (0 ∷ []) (omega arith) (omega arith) in
      let base =
        length-write_hex 16 r.base (95 ∷ write_hex r.file_id (0 ∷ [])) (omega arith)
          (omega arith) in
      ground arith),
)
