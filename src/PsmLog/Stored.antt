-- ===== src/PsmLog/Stored.antt =====
-- The entries that the buffer holds, from the tail on: what the producer and the consumer agree on.
use persimmon.Base.{
  ℕ, suc, ◌+◌, ◌-◌, ◌%◌, ◌≤◌, ◌<◌, ◌≡◌, ◌≢◌, ◌⊎◌, inl, inr, List, [], ◌∷◌, ◌++◌, arith, length,
  Memory, subst, sym, ◌∙◌,
}
use persimmon.PsmLog.{log_size, align_to_cache_line_size, Holds}
use persimmon.PsmLog.Live.{distance}

-- The whole lines that an entry takes.
abbrev pub rounded : List ℕ → ℕ
rounded bs = align_to_cache_line_size (length bs)

-- An entry at `t`, of which `d` bytes are left to the head. It starts with a byte other than 0.
pub record Entry (m : Memory) (t d : ℕ) (bs : List ℕ) : Type 0 where
  pub marked : m t ≢ 0
  pub bytes : Holds m t bs
  pub at_line : t % 64 ≡ 0
  pub below_end : t + rounded bs ≤ log_size
  pub before_head : rounded bs ≤ d
  pub in_lines : length bs ≤ rounded bs
  pub nonempty : 0 < rounded bs

-- Padding at `t`, up to the end of the buffer: a byte 0.
pub record Padding (m : Memory) (t d : ℕ) : Type 0 where
  pub zeroed : m t ≡ 0
  pub inner : 0 < t
  pub before_head : log_size - t ≤ d

-- The `d` bytes from `t` on, going round, hold the entries `es`, in order, and padding at the end
-- of the buffer where the next entry did not fit.
abbrev pub Stored : Memory → ℕ → ℕ → List (List ℕ) → Type 0
Stored m t d [] = d ≡ 0
Stored m t d (bs ∷ es) =
    (Entry m t d bs × Stored m ((t + rounded bs) % log_size) (d - rounded bs) es)
    ⊎ (Padding m t d
        × Entry m 0 (d - (log_size - t)) bs
        × Stored m (rounded bs % log_size) (d - (log_size - t) - rounded bs) es)

pub Holds-frame :
    (m m' : Memory) (a : ℕ) (bs : List ℕ)
    → ((x : ℕ) → a ≤ x → x < a + length bs → m' x ≡ m x)
    → Holds m a bs
    → Holds m' a bs
Holds-frame m m' a [] f h = tt
Holds-frame m m' a (b ∷ bs) f h = (
  f a (omega arith) (omega arith) ∙ h.0,
  Holds-frame m m' (suc a) bs (λ x l u. f x (omega arith) (omega arith)) h.1,
)

Entry-frame :
    (m m' : Memory) (t d : ℕ) (bs : List ℕ)
    → t < log_size
    → d < log_size
    → ((x : ℕ) → x < log_size → distance t x < d → m' x ≡ m x)
    → Entry m t d bs
    → Entry m' t d bs
Entry-frame m m' t d bs tb db f e =
    let here : m' t ≡ m t = f t tb (omega (arith, e.nonempty, e.before_head)) in
    record {
      marked = rw here e.marked;
      bytes =
          Holds-frame m m' t bs
            (λ x l u.
              f x (omega (arith, e.below_end, e.in_lines))
                (omega (arith, e.below_end, e.in_lines, e.before_head)))
            e.bytes;
      at_line = e.at_line;
      below_end = e.below_end;
      before_head = e.before_head;
      in_lines = e.in_lines;
      nonempty = e.nonempty;
    }

-- What is stored depends on the bytes in use only.
pub Stored-frame :
    (m m' : Memory) (t d : ℕ) (es : List (List ℕ))
    → t < log_size
    → d < log_size
    → ((x : ℕ) → x < log_size → distance t x < d → m' x ≡ m x)
    → Stored m t d es
    → Stored m' t d es
Stored-frame m m' t d [] tb db f s = s
Stored-frame m m' t d (bs ∷ es) tb db f (inl (e, s)) = inl (
  Entry-frame m m' t d bs tb db f e,
  Stored-frame m m' ((t + rounded bs) % log_size) (d - rounded bs) es (omega arith) (omega arith)
      (λ x b l. f x b (omega (arith, e.below_end, e.before_head, e.nonempty))) s,
)
Stored-frame m m' t d (bs ∷ es) tb db f (inr (p, e, s)) = inr (
  record {
    zeroed = f t tb (omega (arith, p.before_head)) ∙ p.zeroed;
    inner = p.inner;
    before_head = p.before_head;
  },
  Entry-frame m m' 0 (d - (log_size - t)) bs (omega arith) (omega arith)
      (λ x b l. f x b (omega (arith, p.before_head, p.inner))) e,
  Stored-frame m m' (rounded bs % log_size) (d - (log_size - t) - rounded bs) es (omega arith)
      (omega arith)
      (λ x b l.
        f x b (omega (arith, p.before_head, p.inner, e.before_head, e.below_end, e.nonempty)))
      s,
)

Entry-mono :
    {m : Memory} {t : ℕ} {d : ℕ} {bs : List ℕ} (k : ℕ) → Entry m t d bs → Entry m t (d + k) bs
Entry-mono k e = record {
  marked = e.marked;
  bytes = e.bytes;
  at_line = e.at_line;
  below_end = e.below_end;
  before_head = omega (arith, e.before_head);
  in_lines = e.in_lines;
  nonempty = e.nonempty;
}

-- Bytes stored behind one another hold the entries of both.
pub Stored-append :
    (m : Memory) (t d h k n : ℕ) (es fs : List (List ℕ))
    → t < log_size
    → h ≡ (t + d) % log_size
    → n ≡ d + k
    → Stored m t d es
    → Stored m h k fs
    → Stored m t n (es ++ fs)
Stored-append m t d h k n [] fs tb e en s r =
    let eh : h ≡ t = omega arith in
    let ek : k ≡ n = omega arith in
    subst (λ x. Stored m x n fs) eh (subst (λ y. Stored m h y fs) ek r)
Stored-append m t d h k n (bs ∷ es) fs tb e en (inl (a, s)) r = inl (
  subst (λ x. Entry m t x bs) (sym en) (Entry-mono k a),
  Stored-append m ((t + rounded bs) % log_size) (d - rounded bs) h k (n - rounded bs) es fs
      (omega arith) (omega (arith, a.before_head)) (omega (arith, a.before_head)) s r,
)
Stored-append m t d h k n (bs ∷ es) fs tb e en (inr (p, a, s)) r = inr (
  record { zeroed = p.zeroed; inner = p.inner; before_head = omega (arith, p.before_head) },
  subst (λ x. Entry m 0 x bs) (omega (arith, p.before_head)) (Entry-mono k a),
  Stored-append m (rounded bs % log_size) (d - (log_size - t) - rounded bs) h k
      (n - (log_size - t) - rounded bs) es fs (omega arith)
      (omega (arith, a.before_head, p.before_head)) (omega (arith, a.before_head, p.before_head)) s
      r,
)
