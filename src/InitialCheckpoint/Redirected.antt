-- ===== src/InitialCheckpoint/Redirected.antt =====
-- Where the standard streams go, and that no descriptor is lost.
use persimmon.Base.{
  ℕ, suc, ◌≤◌, ◌<◌, ◌≡◌, ◌≢◌, refl, sym, ap, fun_ext, ◌∙◌, Bool, true, false, ltb, ◌==◌,
  if◌then◌else◌, Option, none, some, arith, Bool-cases, inl, inr,
}
use persimmon.UndoLog.{update}
use persimmon.RegionFile.{ok}
use persimmon.InitialCheckpoint.{
  Target, dev_null_ro, dev_null_wo, pmem_dir, images_dir, log_file, Fds, redirect_stdin,
  redirect_outputs, Dump, dumped, restored, Checkpointed, after_dump, take_initial_chkpt,
}

-- The descriptors from `n` on are not in use.
abbrev pub Below : ℕ → Fds → Type 0
Below n fds = (x : ℕ) → n ≤ x → fds x ≡ none

-- RLIMIT_NOFILE
abbrev pub limit : ℕ
limit = 1024

-- By its documentation, the system takes the lowest descriptor that is not in use.
abbrev pub IsPick : (Fds → ℕ) → Type 0
IsPick pick =
    (n : ℕ) (fds : Fds) → n ≤ limit → Below n fds → (fds (pick fds) ≡ none) × (pick fds ≤ n)

-- The standard streams are open.
abbrev pub HasStreams : Fds → Type 0
HasStreams fds = (fds 0 ≢ none) × (fds 1 ≢ none) × (fds 2 ≢ none)

abbrev pub succeeds : ℕ → ℕ
succeeds n = 0

-- stdin, stdout and stderr as in the arguments, and the others as they were.
abbrev pub streams : Option Target → Target → Fds → Fds
streams first out fds x =
    if x == 0 then first else if x == 1 then some out else if x == 2 then some out else fds x

-- A descriptor that is not in use is none of those that are.
unused_apart : (fds : Fds) (fd used : ℕ) → fds fd ≡ none → fds used ≢ none → fd ≢ used
unused_apart fds fd used n h e = h (sym (ap fds e) ∙ n)

redirect_stdin-streams :
    (pick : Fds → ℕ) (fds : Fds)
    → fds (pick fds) ≡ none
    → HasStreams fds
    → redirect_stdin succeeds 0 pick fds ≡ ok (update fds 0 (some dev_null_ro))
unfolding redirect_stdin
redirect_stdin-streams pick fds p (i, o, e) =
    let fd = pick fds in
    let apart = unused_apart fds fd 0 p i in
    ap ok (
      fun_ext (λ x. elim (Bool-cases (x == fd)) [
        | inl here ↦
            let same : x ≡ fd = ground arith in
            let unused : fds x ≡ none = ap fds same ∙ p in ground arith
        | inr elsewhere ↦ elim (Bool-cases (x == 0)) [
          | inl first ↦
              let own : (fd == fd) ≡ true = ground arith in rw (elsewhere, first, own) refl
          | inr other ↦ rw (elsewhere, other) refl
        ]
      ]))

redirect_outputs-streams :
    (n : ℕ) (pick : Fds → ℕ) (target : Target) (fds : Fds)
    → fds (pick fds) ≡ none
    → HasStreams fds
    → redirect_outputs succeeds n pick target fds
      ≡ ok (update (update fds 1 (some target)) 2 (some target))
unfolding redirect_outputs
redirect_outputs-streams n pick target fds p (i, o, e) =
    let fd = pick fds in
    let not_out = unused_apart fds fd 1 p o in
    let not_err = unused_apart fds fd 2 p e in
    let own : (fd == fd) ≡ true = ground arith in
    let out : (fd == 1) ≡ false = ground arith in
    ap ok (
      fun_ext (λ x. elim (Bool-cases (x == fd)) [
        | inl here ↦
            let same : x ≡ fd = ground arith in
            let unused : fds x ≡ none = ap fds same ∙ p in ground arith
        | inr elsewhere ↦ elim (Bool-cases (x == 2)) [
          | inl err ↦ rw (elsewhere, err, out, own) refl
          | inr not_two ↦ elim (Bool-cases (x == 1)) [
            | inl one ↦ rw (elsewhere, not_two, one, own) refl
            | inr neither ↦ rw (elsewhere, not_two, neither) refl
          ]
        ]
      ]))

-- The table once the streams are redirected; descriptors that it does not use were not in use before.
silent : Fds → Fds
silent fds =
    update (update (update fds 0 (some dev_null_ro)) 1 (some dev_null_wo)) 2 (some dev_null_wo)

silent-streams : (fds : Fds) (x : ℕ) → silent fds x ≡ streams (some dev_null_ro) dev_null_wo fds x
unfolding silent
silent-streams fds x = ground arith

silent-unused :
    (fds : Fds) (fd : ℕ) → silent fds fd ≡ none → (fd ≢ 0) × (fd ≢ 1) × (fd ≢ 2) × (fds fd ≡ none)
unfolding silent
silent-unused fds fd e = (
  λ z. absurd (ground arith),
  λ z. absurd (ground arith),
  λ z. absurd (ground arith),
  ground arith,
)

-- The two directories are opened, and that of the images is closed.
module _ (pick : Fds → ℕ) (fds : Fds) where
  abbrev dirfd : ℕ
  dirfd = pick (silent fds)

  abbrev with_dir : Fds
  with_dir = update (silent fds) dirfd (some pmem_dir)

  abbrev imgs_dirfd : ℕ
  imgs_dirfd = pick with_dir

  abbrev with_images : Fds
  with_images = update with_dir imgs_dirfd (some images_dir)

  abbrev closed : Fds
  closed = update with_images imgs_dirfd none

  abbrev at_end : Fds
  at_end = update (update (update closed 1 (some log_file)) 2 (some log_file)) dirfd none

  -- Their descriptors were not in use.
  module _ (h : HasStreams fds) (dir_unused : silent fds dirfd ≡ none)
      (imgs_unused : with_dir imgs_dirfd ≡ none) where
    imgs_dirfd-unused : (imgs_dirfd ≢ dirfd) × (silent fds imgs_dirfd ≡ none)
    imgs_dirfd-unused = ((λ s. absurd (ground arith)), ground arith)

    closed-streams : (x : ℕ) → x ≢ dirfd → closed x ≡ silent fds x
    closed-streams x n =
        let (apart, unused) = imgs_dirfd-unused in
        elim (Bool-cases (x == imgs_dirfd)) [
          | inl here ↦
              let same : x ≡ imgs_dirfd = ground arith in
              rw here (sym (ap (silent fds) same ∙ unused))
          | inr elsewhere ↦
              let other : (x == dirfd) ≡ false = ground arith in rw (elsewhere, other) refl
        ]

    closed-HasStreams : HasStreams closed
    closed-HasStreams =
        let (z, o, t, u) = silent-unused fds dirfd dir_unused in
        (
          (λ e. let c = closed-streams 0 (λ s. z (sym s)) ∙ silent-streams fds 0 in cc),
          (λ e. let c = closed-streams 1 (λ s. o (sym s)) ∙ silent-streams fds 1 in cc),
          (λ e. let c = closed-streams 2 (λ s. t (sym s)) ∙ silent-streams fds 2 in cc),
        )

    at_end-streams : (x : ℕ) → at_end x ≡ streams (some dev_null_ro) log_file fds x
    at_end-streams x = elim (Bool-cases (x == dirfd)) [
      | inl here ↦
          let same : x ≡ dirfd = ground arith in
          let (z, o, t, u) = silent-unused fds x (ap (silent fds) same ∙ dir_unused) in ground arith
      | inr elsewhere ↦
          let c = closed-streams x (λ s. absurd (ground arith)) ∙ silent-streams fds x in
          ground arith
    ]

    at_dump-streams :
        (x : ℕ)
        → x ≢ dirfd
        → x ≢ imgs_dirfd
        → with_images x ≡ streams (some dev_null_ro) dev_null_wo fds x
    at_dump-streams x n n' =
        let first : (x == imgs_dirfd) ≡ false = ground arith in
        let second : (x == dirfd) ≡ false = ground arith in
        rw (first, second) (silent-streams fds x)

    run :
        (jumps : Bool)
        → closed (pick closed) ≡ none
        → after_dump succeeds pick (if jumps then restored else dumped) dirfd with_images closed
          ≡ ok (record { at_dump = with_images; at_end = at_end; jumps = jumps })
    unfolding after_dump
    run true p = rw (redirect_outputs-streams 14 pick log_file closed p closed-HasStreams) refl
    run false p = rw (redirect_outputs-streams 14 pick log_file closed p closed-HasStreams) refl

  up_to_dump :
      (dump : Dump)
      → HasStreams fds
      → fds (pick fds) ≡ none
      → (let no_stdin = update fds 0 (some dev_null_ro) in no_stdin (pick no_stdin) ≡ none)
      → take_initial_chkpt succeeds pick dump fds
        ≡ after_dump succeeds pick dump dirfd with_images closed
  unfolding take_initial_chkpt silent
  up_to_dump dump h p p' =
      let start = redirect_stdin-streams pick fds p h in
      let silenced =
        redirect_outputs-streams 3 pick dev_null_wo (update fds 0 (some dev_null_ro)) p'
          ((λ e. absurd cc), h.1, h.2) in
      rw (start, silenced) refl

HasStreams-Below : (n : ℕ) (fds : Fds) → HasStreams fds → Below n fds → 2 < n
HasStreams-Below n fds h b = elim (Bool-cases (ltb 2 n)) [
  | inl more ↦ ground arith
  | inr few ↦ absurd (h.2 (b 2 (ground arith)))
]

closed-Below :
    (n fd : ℕ) (t : Option Target) (fds : Fds)
    → Below n fds
    → Below n (update (update fds fd t) fd none)
closed-Below n fd t fds b x h = let old = b x h in ground arith

-- A table stays below a bound.
update-Below :
    (n fd : ℕ) (t : Option Target) (fds : Fds) → fd < n → Below n fds → Below n (update fds fd t)
update-Below n fd t fds l b x h = let old = b x h in ground arith

-- If the calls succeed, the image that CRIU dumps has /dev/null for all the standard streams, so that it can
-- be restored without them, and two descriptors besides those that were open before, of the two
-- directories. Behind the dump, in the process that goes on and in one that is restored from the image,
-- stdout and stderr are the log file, stdin is /dev/null, and every other descriptor is as it was
-- before: none is left open. This is so if the standard streams are open, and two more descriptors are free.
pub take_initial_chkpt-streams :
    (pick : Fds → ℕ) (fds : Fds) (jumps : Bool) (n : ℕ)
    → IsPick pick
    → HasStreams fds
    → Below n fds
    → n < limit
    → (c : Checkpointed) × (take_initial_chkpt succeeds pick
          (if jumps then restored else dumped)
          fds
        ≡ ok c)
      × (c.jumps ≡ jumps)
      × (dirfd : ℕ) × (imgs_dirfd : ℕ) × (fds dirfd ≡ none)
      × (fds imgs_dirfd ≡ none)
      × ((x : ℕ)
          → x ≢ dirfd
          → x ≢ imgs_dirfd
          → c.at_dump x ≡ streams (some dev_null_ro) dev_null_wo fds x)
      × ((x : ℕ) → c.at_end x ≡ streams (some dev_null_ro) log_file fds x)
unfolding silent
take_initial_chkpt-streams pick fds jumps n p h b l =
    let two : 2 < n = HasStreams-Below n fds h b in
    let b0 = update-Below n 0 (some dev_null_ro) fds (omega arith) b in
    let b1 : Below n (silent fds) =
      update-Below n 2 (some dev_null_wo) _ two
        (update-Below n 1 (some dev_null_wo) _ (omega arith) b0) in
    let first = p n (silent fds) (omega arith) b1 in
    let b2 : Below (suc n) (with_dir pick fds) =
      update-Below (suc n) (dirfd pick fds) (some pmem_dir) (silent fds) (ground arith)
        (λ x g. b1 x (omega arith)) in
    let second = p (suc n) (with_dir pick fds) (omega arith) b2 in
    let third =
      p (suc n) (closed pick fds) (omega arith)
        (closed-Below (suc n) (imgs_dirfd pick fds) (some images_dir) (with_dir pick fds) b2) in
    let zeroth = p n fds (omega arith) b in
    let next = p n (update fds 0 (some dev_null_ro)) (omega arith) b0 in
    (
      record { at_dump = with_images pick fds; at_end = at_end pick fds; jumps = jumps },
      up_to_dump pick fds _ h zeroth.0 next.0 ∙ run pick fds h first.0 second.0 jumps third.0,
      refl,
      dirfd pick fds,
      imgs_dirfd pick fds,
      (silent-unused fds _ first.0).3,
      (silent-unused fds _ (imgs_dirfd-unused pick fds h first.0 second.0).1).3,
      at_dump-streams pick fds h first.0 second.0,
      at_end-streams pick fds h first.0 second.0,
    )
