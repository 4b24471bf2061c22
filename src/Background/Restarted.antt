-- ===== src/Background/Restarted.antt =====
-- The calls of a commit, and what a restart makes of what each leaves in persistent memory.
use persimmon.Base.{
  ℕ, zero, suc, ◌+◌, ◌<◌, ◌≡◌, refl, [], ◌∷◌, ℕ_discrete, fun_ext, ◌∙◌, ap, Bool, true, false,
  Option, none, some, Memory, arith,
}
use persimmon.PsmLog.{Psm, update_tail}
use persimmon.UndoLog.{LogEntry, UndoLog, Recovered, Committing, num_entries}
use persimmon.UndoLog
use persimmon.UndoLog.Restore.{Undoable}
use persimmon.UndoLog.Clear.{committed-cleaned, partly_cleared, partly_cleared-recovers}
use persimmon.UndoLog.Protocol.{Recovers, crash-atomic}
use persimmon.UndoLog.Run.{Process, commit_and_cleanup, Run, Inv, Run-append, Run-Inv}
use persimmon.Instrument.{Client, instrument_commit, instrument_cleanup}
use persimmon.Instrument.Ready.{instrument_commit-Committing, instrument_cleanup-UndoLog}
use persimmon.Background.{run_calls, restart, recovered_tail}

-- The restart returns the tail `t`, a memory that agrees with `m` on the kept bytes, and an empty log.
abbrev pub Returns :
    Bool → (ℕ → Bool) → Psm → (ℕ → LogEntry) → Memory → ℕ → (ℕ → Bool) → Memory → Type 0
Returns deduplicate does_manage p log image t kept m =
    (m' : Memory) × (ul : UndoLog) × (restart deduplicate does_manage p log image
      ≡ some (t, (m', ul)))
    × ((x : ℕ) → kept x ≡ true → m' x ≡ m x)
    × (ul.len ≡ 0)

-- The log can undo to that memory, too.
abbrev pub Restarts :
    Bool → (ℕ → Bool) → Psm → (ℕ → LogEntry) → Memory → ℕ → (ℕ → Bool) → Memory → Type 0
Restarts deduplicate does_manage p log image t kept m =
    (m' : Memory) × (ul : UndoLog) × (restart deduplicate does_manage p log image
      ≡ some (t, (m', ul)))
    × ((x : ℕ) → kept x ≡ true → m' x ≡ m x)
    × (ul.len ≡ 0)
    × Undoable (λ x. true) m' m' ul

restart-Recovered :
    (deduplicate : Bool) (does_manage : ℕ → Bool) (p : Psm) (log : ℕ → LogEntry) (image : Memory)
    (ul : UndoLog) (r : Recovered)
    → UndoLog.init deduplicate true log ≡ some ul
    → UndoLog.recover does_manage ul image ≡ some r
    → restart deduplicate does_manage p log image ≡ some (recovered_tail p r, (r.memory, r.ul))
unfolding restart
restart-Recovered deduplicate does_manage p log image ul r e f = rw (restart, e, f) refl

-- A recovery, as a restart.
pub as_restart :
    (deduplicate : Bool) (does_manage : ℕ → Bool) (p : Psm) (log : ℕ → LogEntry) (image : Memory)
    (kept : ℕ → Bool) (m : Memory) (found : Option ℕ) (table : Bool)
    → Recovers deduplicate does_manage log image found table kept m
    → Restarts deduplicate does_manage p log image
        (elim found [ none ↦ p.log_tail | some t ↦ t ])
        kept
        m
as_restart deduplicate does_manage p log image kept m found table
      (ul, r, e, f, t, c, same, empty, u) =
    (
      r.memory,
      r.ul,
      restart-Recovered deduplicate does_manage p log image ul r e f
          ∙ ap
              (λ (o : Option ℕ).
                some (elim o [ none ↦ p.log_tail | some t' ↦ t' ], (r.memory, r.ul)))
              t,
      same,
      empty,
      u,
    )

-- The client's undo log and memory are those of the process.
abbrev pub client_of : Client → Process → Client
client_of c q = record c { ul = q.ul; view = q.view; image = q.image }

-- The calls for the undo log, with what a recovery makes of what they leave.
pub record Crashable (deduplicate : Bool) (does_manage : ℕ → Bool) (q : Process) (c : Client)
    (tail : ℕ) : Type 0 where
  pub committing : Committing
  pub c₁ : Client
  pub c₂ : Client
  pub undo_log_commit : UndoLog.commit tail q.view q.image q.ul ≡ some committing
  pub drained :
      committing.drained ≡ (committing.ul.log, committing.image) ∷ (q.ul.log, committing.image) ∷ []
  pub committed : instrument_commit tail (client_of c q) ≡ some c₁
  pub cleaned : instrument_cleanup true true c₁ ≡ some c₂
  pub before : Recovers deduplicate does_manage q.ul.log q.image none false q.kept q.committed
  pub at_drain :
      Recovers deduplicate does_manage q.ul.log committing.image none false q.kept q.committed
  pub behind : Recovers deduplicate does_manage c₁.ul.log c₁.image (some tail) true q.mapped q.view
  pub at_end : Recovers deduplicate does_manage c₂.ul.log c₂.image none false q.mapped q.view
  pub persistent : (x : ℕ) → q.mapped x ≡ true → c₁.image x ≡ q.view x

pub commit_calls-Crashable :
    (deduplicate : Bool) (s q : Process) (does_manage : ℕ → Bool) (c : Client) (tail : ℕ)
    → Inv s
    → Run deduplicate s q
    → q.ul.len + 1 < num_entries
    → ((i : ℕ) → i < q.ul.len → does_manage (q.ul.log i).addr ≡ true)
    → Crashable deduplicate does_manage q c tail
commit_calls-Crashable deduplicate s q does_manage c tail h run room managed =
    let (before, (committing, e, drained, at_drain, behind)) =
      crash-atomic deduplicate s q does_manage tail h run room managed in
    let (c₁, e₁, ul₁, image₁, view₁) =
      instrument_commit-Committing tail (client_of c q) committing e in
    let (ul', cleaned, len, u) =
      committed-cleaned q.kept q.mapped q.committed q.view q.image q.ul tail committing
        (Run-Inv deduplicate s q run h).undoable e in
    let (c₂, e₂, ul₂, image₂) = instrument_cleanup-UndoLog c₁ ul' (rw ul₁ cleaned) in
    let q' : Process = record q {
      kept = q.mapped;
      committed = q.view;
      image = committing.image;
      ul = ul';
    } in
    let run' =
      Run-append deduplicate s q q' run (commit_and_cleanup q tail committing ul' e cleaned) in
    let at_end =
      crash-atomic deduplicate s q' does_manage tail h run' (omega arith)
        (λ i l. absurd (omega arith)) in
    record {
      committing = committing;
      c₁ = c₁;
      c₂ = c₂;
      undo_log_commit = e;
      drained = drained;
      committed = e₁;
      cleaned = e₂;
      before = before;
      at_drain = at_drain;
      behind = rw (ul₁, image₁) behind;
      at_end = rw (ul₂, image₂, image₁) at_end.0;
      persistent = λ x m.
          ap (λ (f : Memory). f x) image₁
          ∙ (Run-Inv deduplicate s q' run' h).intact x m (rw len refl);
    }

pub run_calls-nil : (n : ℕ) (s : Psm × Client) → run_calls n [] s ≡ some s
unfolding run_calls
run_calls-nil zero s = refl
run_calls-nil (suc n) s = refl

partly_cleared-zero : (log : ℕ → LogEntry) → partly_cleared 0 log ≡ log
partly_cleared-zero log = fun_ext (λ i. ground arith)

pub interrupted-Returns :
    (deduplicate : Bool) (does_manage : ℕ → Bool) (q : Process) (c : Client) (p : Psm) (tail k : ℕ)
    → (a : Crashable deduplicate does_manage q c tail)
    → Returns deduplicate does_manage
        (update_tail p tail)
        (partly_cleared k a.c₁.ul.log)
        a.c₁.image
        tail
        q.mapped
        q.view
unfolding update_tail
interrupted-Returns deduplicate does_manage q c p tail k a = elim (ℕ_discrete k 0) [
  | yes none_cleared ↦
      let (m', ul, e, same, empty, u) =
        as_restart deduplicate does_manage (update_tail p tail) a.c₁.ul.log a.c₁.image q.mapped
          q.view (some tail) true a.behind in
      let whole : partly_cleared k a.c₁.ul.log ≡ a.c₁.ul.log =
        ap (λ n. partly_cleared n a.c₁.ul.log) none_cleared ∙ partly_cleared-zero a.c₁.ul.log in
      (
        m',
        ul,
        ap (λ log. restart deduplicate does_manage (update_tail p tail) log a.c₁.image) whole ∙ e,
        same,
        empty,
      )
  | no some_cleared ↦
      let (ul, r, started, recovered, no_tail, memory, empty) =
        partly_cleared-recovers k a.c₁.ul.log deduplicate does_manage a.c₁.image (omega arith) in
      (
        r.memory,
        r.ul,
        restart-Recovered deduplicate does_manage (update_tail p tail) _ a.c₁.image ul r started
              recovered
            ∙ ap (λ (o : Option ℕ). some (elim o [ none ↦ tail | some t' ↦ t' ], (r.memory, r.ul)))
                no_tail,
        λ x m. ap (λ (f : Memory). f x) memory ∙ a.persistent x m,
        empty,
      )
]
