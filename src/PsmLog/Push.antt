-- ===== src/PsmLog/Push.antt =====
-- `psm_push` adds its entry behind those that the buffer holds.
use persimmon.Base.{
  ℕ, ◌+◌, ◌-◌, ◌≤◌, ◌<◌, ◌≡◌, ◌≢◌, ◌^◌, refl, List, [], ◌∷◌, ◌++◌, arith, length, All, Memory,
  subst, sym, ◌∙◌, inside, true, false, inl, inr, Bool-cases,
}
use persimmon.PsmLog.{
  log_size, Run-cases, done, done-injective, Psm, PmemCopy, push, reserve, needed, truncated,
}
use persimmon.PsmLog.Live.{distance, IsValid, IsDurable, Lags, IsLive}
use persimmon.PsmLog.Reserve.{Placed, reserve-Placed}
use persimmon.PsmLog.Stored.{rounded, Entry, Stored, Stored-frame, Stored-append}

-- What is in use: the published entries, from the tail to the head, and those that the producer has
-- pushed since.
abbrev pub Contains : Psm → List (List ℕ) → List (List ℕ) → Type 0
Contains p cs us =
    Stored p.buf p.tail (distance p.tail p.head) cs
    × Stored p.buf p.head (distance p.head p.local_head) us

-- `push` behind a reservation at `dest`.
abbrev copied_to : PmemCopy → ℕ → List ℕ → Psm → Psm
copied_to lib dest src q = record q {
  buf = lib.copy q.buf dest src;
  persisted = lib.copy q.persisted dest src;
}

module _ (lib : PmemCopy) (p : Psm) (b : ℕ) (bs : List ℕ) (dest : ℕ) (q : Psm) (v : IsValid p)
    (f : Placed p (rounded (b ∷ bs)) dest q) (ne : b ≢ 0)
    (up : length (b ∷ bs) ≤ rounded (b ∷ bs)) where
  abbrev src : List ℕ
  src = b ∷ bs

  abbrev written : Memory
  written = lib.copy q.buf dest src

  written-kept : (x : ℕ) → x < log_size → IsLive p x → written x ≡ p.buf x
  written-kept x w l =
      lib.kept q.buf dest src x (let out = f.fresh x w l in ground arith) ∙ f.kept x w l

  fits_behind : (d : ℕ) → rounded src ≤ d → Entry written dest d src
  fits_behind d h = record {
    marked = λ e. ne (sym (lib.copied q.buf dest src).0 ∙ e);
    bytes = lib.copied q.buf dest src;
    at_line = f.at_line.1;
    below_end = f.within;
    before_head = h;
    in_lines = up;
    nonempty = omega arith;
  }

  needed-truncated :
      truncated p (rounded src) ≡ true
      → needed p (rounded src) ≡ rounded src + (log_size - p.local_head)
  needed-truncated over = rw over (omega (arith, v.local_head_offset, f.within))

  -- The padding mark outlives the copy, which ends below it.
  mark_kept : truncated p (rounded src) ≡ true → written p.local_head ≡ 0
  mark_kept e =
      let (front, zeroed) = f.front e in
      lib.kept q.buf dest src p.local_head (ground (arith, f.room_left, v.local_head_offset))
      ∙ zeroed

  new_Stored : Stored written p.local_head (needed p (rounded src)) (src ∷ [])
  new_Stored = elim (Bool-cases (truncated p (rounded src))) [
    | inl over ↦
        let (front, zeroed) = f.front over in
        let lines = needed-truncated over in
        inr (
          record {
            zeroed = mark_kept over;
            inner = omega (arith, f.room_left, lines);
            before_head = omega (arith, lines);
          },
          subst (λ x. Entry written x (needed p (rounded src) - (log_size - p.local_head)) src)
              front
              (fits_behind (needed p (rounded src) - (log_size - p.local_head))
                (omega (arith, lines))),
          omega (arith, lines),
        )
    | inr fits ↦
        let lines : needed p (rounded src) ≡ rounded src = rw fits refl in
        inl (
          subst (λ x. Entry written x (needed p (rounded src)) src) (f.here fits)
              (fits_behind (needed p (rounded src)) (omega (arith, lines))),
          omega (arith, lines),
        )
  ]

  -- From any offset between the tail and `local_head`.
  push-Stored :
      (a d : ℕ) (es : List (List ℕ))
      → a < log_size
      → d ≡ distance a p.local_head
      → distance p.tail a + d ≡ distance p.tail p.local_head
      → Stored p.buf a d es
      → Stored written a (distance a q.local_head) (es ++ src ∷ [])
  push-Stored a d es ab ed ad st =
      Stored-append written a d p.local_head (needed p (rounded src)) (distance a q.local_head) es
        (src ∷ []) ab (omega (arith, v.local_head_offset))
        (omega (arith, f.grown, f.room_left, f.next, v.tail_offset, v.local_head_offset))
        (Stored-frame p.buf written a d es ab (omega arith)
          (λ x b l. written-kept x b (omega (arith, v.tail_offset, v.local_head_offset))) st)
        new_Stored

  -- What was persisted of the bytes in use stays so.
  push-Durable :
      (x : ℕ)
      → x < log_size
      → IsLive p x
      → p.persisted x ≡ p.buf x
      → lib.copy q.persisted dest src x ≡ written x
  push-Durable x b l e =
      let out : inside dest (length src) x ≡ false = (let o = f.fresh x b l in ground arith) in
      lib.kept q.persisted dest src x out ∙ f.synced x b l e ∙ sym (lib.kept q.buf dest src x out)

  copied-IsDurable : IsDurable p → IsDurable (copied_to lib dest src q)
  copied-IsDurable d x b l =
      let l' : distance p.tail x < distance p.tail p.head =
        omega (arith, f.same_tail, f.same_head) in
      push-Durable x b (omega (arith, v.published)) (d x b l')

  copied-Contains :
      (cs us : List (List ℕ))
      → Contains p cs us
      → Contains (copied_to lib dest src q) cs (us ++ src ∷ [])
  copied-Contains cs us (c, u) = (
    subst (λ t. Stored written t (distance t q.head) cs) (sym f.same_tail)
        (subst (λ h. Stored written p.tail (distance p.tail h) cs) (sym f.same_head)
          (Stored-frame p.buf written p.tail (distance p.tail p.head) cs v.tail_offset.0
            (omega arith) (λ x b l. written-kept x b (omega (arith, v.published))) c)),
    subst (λ h. Stored written h (distance h q.local_head) (us ++ src ∷ [])) (sym f.same_head)
        (push-Stored p.head (distance p.head p.local_head) us v.head_offset.0 refl
          (omega (arith, v.published, v.tail_offset, v.head_offset, v.local_head_offset)) u),
  )

IsValid-bytes : (p : Psm) (m n : Memory) → IsValid p → IsValid (record p { buf = m; persisted = n })
IsValid-bytes p m n v = record {
  tail_offset = v.tail_offset;
  head_offset = v.head_offset;
  local_head_offset = v.local_head_offset;
  local_tail_offset = v.local_tail_offset;
  synced_head = v.synced_head;
  synced_tail = v.synced_tail;
  published = v.published;
  lagging = v.lagging;
}

module _ (lib : PmemCopy) (p : Psm) (src loads : List ℕ) where
  push-done :
      (dest : ℕ) (r : Psm)
      → reserve p (length src) loads ≡ done (dest, r)
      → push lib p src loads ≡ done (copied_to lib dest src r)
  unfolding push
  push-done dest r s = rw (s, push) refl

  -- `psm_push` returns only where `psm_reserve` does.
  push-inv :
      (q : Psm)
      → push lib p src loads ≡ done q
      → (dest : ℕ) × (r : Psm) × (reserve p (length src) loads ≡ done (dest, r))
        × (copied_to lib dest src r ≡ q)
  unfolding push
  push-inv q e = elim (Run-cases (reserve p (length src) loads)) [
    | inl ((dest, r), s) ↦ (dest, r, s, done-injective (sym (push-done dest r s) ∙ e))
    | inr (inl s) ↦ let stuck = rw (s, push) at e in cc
    | inr (inr s) ↦ let stuck = rw (s, push) at e in cc
  ]

-- Where `psm_push` returns for an entry of less than 2^31 bytes that does not begin with a NUL byte, from a
-- log with the invariants and with loads that return the tail or an earlier one, the invariants hold, the
-- published entries are what they were, and the new entry stands behind those not yet published.
pub push-Contains :
    (lib : PmemCopy) (p : Psm) (b : ℕ) (bs : List ℕ) (loads : List ℕ) (cs us : List (List ℕ))
    (q : Psm)
    → IsValid p
    → IsDurable p
    → All (Lags p) loads
    → b ≢ 0
    → length (b ∷ bs) < 2 ^ 31
    → Contains p cs us
    → push lib p (b ∷ bs) loads ≡ done q
    → IsValid q × IsDurable q × Contains q cs (us ++ (b ∷ bs) ∷ [])
push-Contains lib p b bs loads cs us q v d a ne len st e =
    let (dest, r, s, same) = push-inv lib p (b ∷ bs) loads q e in
    let (w, f, up) = reserve-Placed p (length (b ∷ bs)) loads dest r v a len s in
    subst (λ q. IsValid q × IsDurable q × Contains q cs (us ++ (b ∷ bs) ∷ [])) same
      (
        IsValid-bytes r _ _ w,
        copied-IsDurable lib p b bs dest r v f ne up d,
        copied-Contains lib p b bs dest r v f ne up cs us st,
      )
