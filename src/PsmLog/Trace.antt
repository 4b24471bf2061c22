-- ===== src/PsmLog/Trace.antt =====
-- The producer and the consumer together: the log is a queue. A trace interleaves pushes, commits
-- and consumed entries in any order.
use persimmon.Base.{
  ℕ, ◌+◌, ◌%◌, ◌^◌, ◌<◌, ◌≡◌, ◌≢◌, refl, inl, List, [], ◌∷◌, ◌++◌, append_assoc, append-nil, arith,
  length, All, subst, sym, ap, ◌∙◌, false, some,
}
use persimmon.PsmLog.{
  log_size, Psm, done, PmemCopy, push, commit, consume, initial, update_tail, done-injective,
}
use persimmon.PsmLog.Live.{distance, IsValid, IsDurable, Lags}
use persimmon.PsmLog.Stored.{Stored, Stored-append}
use persimmon.PsmLog.Push.{Contains, push-Contains}
use persimmon.PsmLog.Commit.{Committed, commit-Committed}
use persimmon.PsmLog.Consume.{applied, Reads, consume-Stored, consume-empty}

-- A commit publishes what was pushed.
commit-Contains :
    (p q : Psm) (cs us : List (List ℕ))
    → IsValid p
    → Committed p q
    → Contains p cs us
    → Contains q (cs ++ us) []
commit-Contains p q cs us v c (a, b) =
    let whole : Stored p.buf p.tail (distance p.tail p.local_head) (cs ++ us) =
      Stored-append p.buf p.tail (distance p.tail p.head) p.head (distance p.head p.local_head)
        (distance p.tail p.local_head) cs us v.tail_offset.0
        (omega (arith, v.tail_offset, v.head_offset))
        (omega (arith, v.published, v.tail_offset, v.head_offset, v.local_head_offset)) a b in
    (
      subst (λ m. Stored m q.tail (distance q.tail q.head) (cs ++ us)) (sym c.same_buf)
          (subst (λ t. Stored p.buf t (distance t q.head) (cs ++ us)) (sym c.same_tail)
            (subst (λ h. Stored p.buf p.tail (distance p.tail h) (cs ++ us)) (sym c.head_published)
              whole)),
      omega (arith, c.head_published, c.same_local_head, v.local_head_offset),
    )

-- `update_tail` on the way from the tail to the head.
tail_moved :
    (p : Psm) (t d : ℕ) (cs us : List (List ℕ))
    → IsValid p
    → IsDurable p
    → Stored p.buf p.head (distance p.head p.local_head) us
    → t < log_size
    → t % 64 ≡ 0
    → distance p.tail t + d ≡ distance p.tail p.head
    → Stored p.buf t d cs
    → IsValid (update_tail p t) × IsDurable (update_tail p t) × Contains (update_tail p t) cs us
unfolding update_tail
tail_moved p t d cs us v dur b tb line way st = (
  record {
    tail_offset = (tb, line);
    head_offset = v.head_offset;
    local_head_offset = v.local_head_offset;
    local_tail_offset = v.local_tail_offset;
    synced_head = v.synced_head;
    synced_tail = refl;
    published = omega (arith, v.published, v.tail_offset, v.head_offset, v.local_head_offset);
    lagging = omega (
      arith, v.lagging, v.published, v.tail_offset, v.head_offset, v.local_head_offset,
      v.local_tail_offset,
    );
  },
  λ x w l. dur x w (omega (arith, v.tail_offset, v.head_offset)),
  (subst (λ d. Stored p.buf t d cs) (omega (arith, v.tail_offset, v.head_offset)) st, b),
)

module _ {S : Type 0} (f : (ℕ → ℕ) → S → ℕ × S) (apply : List ℕ → S → S) where
  -- What a step of the consumer takes, and what it leaves.
  record Taken (p : Psm) (s : S) (t : ℕ) (s' : S) (cs us : List (List ℕ)) : Type 0 where
    first : List ℕ
    rest : List (List ℕ)
    split : cs ≡ first ∷ rest
    state : s' ≡ apply first s
    valid : IsValid (update_tail p t)
    durable : IsDurable (update_tail p t)
    contains : Contains (update_tail p t) rest us
    readable : All (Reads f apply) rest

  consume-Taken :
      (p : Psm) (s : S) (t : ℕ) (s' : S) (cs us : List (List ℕ))
      → IsValid p
      → IsDurable p
      → Contains p cs us
      → All (Reads f apply) cs
      → consume p.buf f p.head p.tail s ≡ done (some (t, s'))
      → Taken p s t s' cs us
  consume-Taken p s t s' [] us v d (a, b) r e =
      let same : p.tail ≡ p.head = omega (arith, v.tail_offset, v.head_offset) in
      let none_left = consume-empty f apply p.buf p.tail s in
      let e' = rw (← same) at e in absurd (cc)
  consume-Taken p s t s' (c ∷ cs) us v d (a, b) r e =
      let (t', d', e', tb, db, eh, st, line, way) =
        consume-Stored f apply p.buf p.tail (distance p.tail p.head) p.head c cs s v.tail_offset.0
          (omega arith) (omega (arith, v.tail_offset, v.head_offset)) r.0 a in
      let et : t' ≡ t = cc in
      let k = tail_moved p t' d' cs us v d b tb line way st in
      subst (λ t. Taken p s t s' (c ∷ cs) us) et
        (record {
          first = c;
          rest = cs;
          split = refl;
          state = cc;
          valid = k.0;
          durable = k.1;
          contains = k.2;
          readable = r.1;
        })

module _ {S : Type 0} (lib : PmemCopy) (f : (ℕ → ℕ) → S → ℕ × S) (apply : List ℕ → S → S)
    (s₀ : S) where
  -- The log, the state of the consumer's application, and the entries pushed so far.
  pub data Trace : Psm → S → List (List ℕ) → Type 0 where
    start : Trace initial s₀ []
    pushes :
        {p : Psm} {s : S} {es : List (List ℕ)} (b : ℕ) (bs loads : List ℕ) (q : Psm)
        → Trace p s es
        → All (Lags p) loads
        → b ≢ 0
        → length (b ∷ bs) < 2 ^ 31
        → Reads f apply (b ∷ bs)
        → push lib p (b ∷ bs) loads ≡ done q
        → Trace q s (es ++ (b ∷ bs) ∷ [])
    commits :
        {p : Psm} {s : S} {es : List (List ℕ)} (q : Psm)
        → Trace p s es
        → commit p false ≡ done q
        → Trace q s es
    consumes :
        {p : Psm} {s : S} {es : List (List ℕ)} (t : ℕ) (s' : S)
        → Trace p s es
        → consume p.buf f p.head p.tail s ≡ done (some (t, s'))
        → Trace (update_tail p t) s' es

  -- Consumed, published and pushed entries, in this order, are those pushed, and the consumer's
  -- state is what the consumed ones make.
  pub record Queue (p : Psm) (s : S) (es : List (List ℕ)) : Type 0 where
    pub valid : IsValid p
    pub durable : IsDurable p
    pub consumed : List (List ℕ)
    pub published : List (List ℕ)
    pub pushed : List (List ℕ)
    pub in_order : es ≡ consumed ++ (published ++ pushed)
    pub state : s ≡ applied apply consumed s₀
    pub contains : Contains p published pushed
    pub readable : All (Reads f apply) published × All (Reads f apply) pushed

  start-Queue : Queue initial s₀ []
  unfolding initial
  start-Queue = record {
    valid = omega arith;
    durable = λ x b l. refl;
    consumed = [];
    published = [];
    pushed = [];
    in_order = refl;
    state = refl;
    contains = omega arith;
    readable = (tt, tt);
  }

  All-snoc :
      (us : List (List ℕ)) (u : List ℕ)
      → All (Reads f apply) us
      → Reads f apply u
      → All (Reads f apply) (us ++ u ∷ [])
  All-snoc [] u a r = (r, tt)
  All-snoc (x ∷ us) u a r = (a.0, All-snoc us u a.1 r)

  All-append :
      (cs us : List (List ℕ))
      → All (Reads f apply) cs
      → All (Reads f apply) us
      → All (Reads f apply) (cs ++ us)
  All-append [] us a b = b
  All-append (x ∷ cs) us a b = (a.0, All-append cs us a.1 b)

  applied-snoc :
      (cs : List (List ℕ)) (c : List ℕ) (s : S)
      → applied apply (cs ++ c ∷ []) s ≡ apply c (applied apply cs s)
  applied-snoc [] c s = refl
  applied-snoc (x ∷ cs) c s = applied-snoc cs c (apply x s)

  -- In any order of whole pushes, commits that publish, and consumptions with the tail updated behind each,
  -- from the empty log on, in which each call returns: no entry is lost, repeated or reordered. The entries
  -- pushed are, in this order, those consumed, those published and those not yet published; the latter two are
  -- in the buffer, and the consumer's state is what the former make. This is so if each entry does not begin
  -- with a NUL byte, is shorter than 2^31 bytes, and is read by the application as it was pushed, and each
  -- load of a push returns the tail or an earlier one.
  pub Trace-Queue : {p : Psm} {s : S} {es : List (List ℕ)} → Trace p s es → Queue p s es
  Trace-Queue start = start-Queue
  Trace-Queue (pushes {p = p} {s = s} {es = es} b bs loads q t lags ne len reads e) =
      let r = Trace-Queue t in
      let (v, d, c) =
        push-Contains lib p b bs loads r.published r.pushed q r.valid r.durable lags ne len
          r.contains e in
      record {
        valid = v;
        durable = d;
        consumed = r.consumed;
        published = r.published;
        pushed = r.pushed ++ (b ∷ bs) ∷ [];
        in_order = ap (λ x. x ++ (b ∷ bs) ∷ []) r.in_order ∙ simp append_assoc;
        state = r.state;
        contains = c;
        readable = (r.readable.0, All-snoc r.pushed (b ∷ bs) r.readable.1 reads);
      }
  Trace-Queue (commits {p = p} {s = s} {es = es} q t e) =
      let r = Trace-Queue t in
      let (q', e', c') = commit-Committed p false r.valid r.durable (inl refl) in
      let c = subst (Committed p) (done-injective (sym e' ∙ e)) c' in
      record {
        valid = c.valid;
        durable = c.durable;
        consumed = r.consumed;
        published = r.published ++ r.pushed;
        pushed = [];
        in_order =
            r.in_order ∙ ap (λ x. r.consumed ++ x) (sym (append-nil (r.published ++ r.pushed)));
        state = r.state;
        contains = commit-Contains p q r.published r.pushed r.valid c r.contains;
        readable = (All-append r.published r.pushed r.readable.0 r.readable.1, tt);
      }
  Trace-Queue (consumes {p = p} {s = s} {es = es} tl s' t e) =
      let r = Trace-Queue t in
      let k =
        consume-Taken f apply p s tl s' r.published r.pushed r.valid r.durable r.contains
          r.readable.0 e in
      record {
        valid = k.valid;
        durable = k.durable;
        consumed = r.consumed ++ k.first ∷ [];
        published = k.rest;
        pushed = r.pushed;
        in_order =
            r.in_order ∙ (ap (λ x. r.consumed ++ (x ++ r.pushed)) k.split ∙ simp append_assoc);
        state = k.state ∙ ap (apply k.first) r.state ∙ sym (applied-snoc r.consumed k.first s₀);
        contains = k.contains;
        readable = (k.readable, r.readable.1);
      }
