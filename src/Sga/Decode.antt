-- ===== src/Sga/Decode.antt =====
-- What is decoded: the segments of an entry that is laid out as the foreground lays it out.
use persimmon.Base.{
  ℕ, zero, suc, ◌+◌, ◌/◌, ◌%◌, ◌^◌, ◌≤◌, ◌<◌, ◌≡◌, refl, subst, ◌↔◌, true, ltb, Option, none, some,
  ◌>>=◌, List, [], ◌∷◌, ◌++◌, length, length-append, add_word, Memory, arith, Bool-cases, inl, inr,
}
use persimmon.PsmLog.{Holds}
use persimmon.Sga.{max_segs, Seg, read_len, sign_extend, decode_segs, decode, sga_consume}

with_seg : Seg → List Seg × ℕ → Option (List Seg × ℕ)
with_seg seg (segs, behind) = some (seg ∷ segs, behind)

with_seg-none : (seg : Seg) (r : Option (List Seg × ℕ)) → ((r >>= with_seg seg) ≡ none) ↔ (r ≡ none)
unfolding with_seg
with_seg-none seg none = ((λ e. refl), (λ e. refl))
with_seg-none seg (some (segs, behind)) = ((λ e. absurd cc), (λ e. absurd cc))

-- A failure is a loop that makes more rounds than the array has places.
decode_segs-none :
    (entry : Memory) (left i p : ℕ)
    → i ≤ max_segs
    → (decode_segs entry left i p ≡ none) ↔ (max_segs < i + left)
unfolding decode_segs with_seg
decode_segs-none entry zero i p l = ((λ h. absurd cc), (λ h. absurd (omega arith)))
decode_segs-none entry (suc left) i p l = elim (Bool-cases (ltb i max_segs)) [
  | inl room ↦
      let len = read_len entry p in
      let rest =
        decode_segs-none entry left (suc i) (add_word (add_word p 4) (sign_extend len))
          (ground arith) in
      let step =
        with_seg-none (record { len = len; buf = add_word p 4 })
          (decode_segs entry left (suc i) (add_word (add_word p 4) (sign_extend len))) in
      rw room
        ((λ e. let f = rest.0 (step.0 e) in omega arith), (λ f. step.1 (rest.1 (omega arith))))
  | inr full ↦ rw full ((λ e. ground arith), (λ f. refl))
]

-- The decoding stores behind the end of the array just when the count is from 11 to 127, whatever else the
-- entry holds: nothing checks it.
pub decode-none :
    (entry : Memory) → (decode entry ≡ none) ↔ ((max_segs < entry 0) × (entry 0 < 2 ^ 7))
unfolding decode
decode-none entry = elim (Bool-cases (ltb (entry 0) (2 ^ 7))) [
  | inl positive ↦
      let d = decode_segs-none entry (entry 0) 0 1 (omega arith) in
      rw positive ((λ e. let f = d.0 e in (omega arith, ground arith)), (λ f. d.1 (omega arith)))
  | inr negative ↦ rw negative ((λ e. absurd cc), (λ f. absurd (ground arith)))
]

-- The four bytes of a length.
abbrev pub len_bytes : ℕ → List ℕ
len_bytes n = n % 2 ^ 8 ∷ n / 2 ^ 8 % 2 ^ 8 ∷ n / 2 ^ 16 % 2 ^ 8 ∷ n / 2 ^ 24 % 2 ^ 8 ∷ []

-- Segments as an entry holds them, one behind the other.
abbrev pub layout : List (List ℕ) → List ℕ
layout [] = []
layout (bytes ∷ segs) = len_bytes (length bytes) ++ (bytes ++ layout segs)

-- The segments that are decoded from `p` on.
abbrev pub segs_at : ℕ → List (List ℕ) → List Seg
segs_at p [] = []
segs_at p (bytes ∷ segs) =
    record { len = length bytes; buf = p + 4 } ∷ segs_at (p + 4 + length bytes) segs

Holds-append :
    (m : Memory) (a : ℕ) (bs cs : List ℕ)
    → Holds m a (bs ++ cs)
    → Holds m a bs × Holds m (a + length bs) cs
Holds-append m a [] cs h = (tt, subst (λ x. Holds m x cs) (omega arith) h)
Holds-append m a (b ∷ bs) cs h =
    let (first, rest) = Holds-append m (suc a) bs cs h.1 in
    let at : suc a + length bs ≡ a + suc (length bs) = omega arith in
    ((h.0, first), subst (λ x. Holds m x cs) at rest)

read_len-len_bytes :
    (entry : Memory) (p n : ℕ) → n < 2 ^ 31 → Holds entry p (len_bytes n) → read_len entry p ≡ n
unfolding read_len
read_len-len_bytes entry p n l (a, (b, (c, (d, e)))) =
    let one : p + 1 ≡ suc p = omega arith in
    let two : p + 2 ≡ suc (suc p) = omega arith in
    let three : p + 3 ≡ suc (suc (suc p)) = omega arith in
    rw (one, two, three, a, b, c, d) (omega arith)

layout-length :
    (bytes : List ℕ) (segs : List (List ℕ))
    → length (layout (bytes ∷ segs)) ≡ 4 + length bytes + length (layout segs)
layout-length bytes segs = let l = length-append bytes (layout segs) in omega arith

decode_segs-layout :
    (entry : Memory) (segs : List (List ℕ)) (i p : ℕ)
    → i + length segs ≤ max_segs
    → p + length (layout segs) < 2 ^ 31
    → Holds entry p (layout segs)
    → decode_segs entry (length segs) i p ≡ some (segs_at p segs, p + length (layout segs))
unfolding decode_segs
decode_segs-layout entry [] i p l b h = let same : p + 0 ≡ p = omega arith in rw same refl
decode_segs-layout entry (bytes ∷ segs) i p l b h =
    let n = length bytes in
    let total = layout-length bytes segs in
    let (in_len, rest) = Holds-append entry p (len_bytes n) (bytes ++ layout segs) h in
    let later = (Holds-append entry (p + 4) bytes (layout segs) rest).1 in
    let room : ltb i max_segs ≡ true = ground arith in
    let len = read_len-len_bytes entry p n (omega arith) in_len in
    let buf : add_word p 4 ≡ p + 4 = omega arith in
    let positive : ltb n (2 ^ 31) ≡ true = ground arith in
    let behind : add_word (p + 4) n ≡ p + 4 + n = omega arith in
    let all = decode_segs-layout entry segs (suc i) (p + 4 + n) (omega arith) (omega arith) later in
    let end : p + 4 + n + length (layout segs) ≡ p + length (layout (bytes ∷ segs)) = omega arith in
    rw (room, len, buf, positive, behind, all, end) refl

-- An entry of the log that begins with the number of the segments and then has, for each, its length
-- in four bytes, and its bytes, is decoded to just these segments, with pointers to their bytes, and its
-- whole length is consumed. This is so for at most ten segments and less than 2^31 bytes.
pub sga_consume-layout {ℓ} :
    {S : Type ℓ} (consume_func : Memory → List Seg → S → S) (entry : Memory) (segs : List (List ℕ))
    (s : S)
    → length segs ≤ max_segs
    → 1 + length (layout segs) < 2 ^ 31
    → Holds entry 0 (length segs ∷ layout segs)
    → sga_consume consume_func entry s
      ≡ some (1 + length (layout segs), consume_func entry (segs_at 1 segs) s)
unfolding sga_consume decode
sga_consume-layout consume_func entry segs s l b (count, h) =
    let few : ltb (length segs) (2 ^ 7) ≡ true = ground arith in
    rw (count, few, decode_segs-layout entry segs 0 1 (omega arith) b h) refl
