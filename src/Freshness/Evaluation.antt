-- ===== src/Freshness/Evaluation.antt =====
-- What an evaluation marks, and which symbols it asks to resubscribe.
use lynx_monitor.Prelude.{
  ℕ, ◌≡◌, refl, Text, Bool, true, false, ◌&&◌, ◌||◌, Option, none, some, List, [], ◌∷◌, any, Result,
  ok, raise, text_eq, text_equality, arith, Bool-cases, Result-cases, Error, sym, ap, ◌∙◌, inl, inr,
}
use lynx_monitor.RawQueue.{or_text}
use lynx_monitor.Pool.{add_once, contains}
use lynx_monitor.Pool.Members.{Distinct, add_once-Distinct, contains-add_once}
use lynx_monitor.Freshness.{
  SymbolFreshness, SymbolFreshnessTracker, Clock, Report, settled, degraded_reason_of,
  evaluate_from, evaluate,
}

abbrev pub is_some {ℓ} : {A : Type ℓ} → Option A → Bool
is_some none = false
is_some (some a) = true

-- A subscribed stream that is marked as degraded.
abbrev pub wants : Text → Text × SymbolFreshness → Bool
wants s (k, state) = state.subscribed && state.degraded && text_eq state.symbol s

module _ {T : Type 0} (clock : Clock T) (max_queue_backlog : ℕ) (current : Text) where
  -- A state before and after an evaluation: a stream that is not subscribed stays as it is; a subscribed
  -- one gets the reason that it has at that time, and nothing else changes.
  pub record IsMarked (before after : SymbolFreshness) : Type 0 where
    pub idle : before.subscribed ≡ false → after ≡ before
    pub judged :
        before.subscribed ≡ true
        → (r : Option Text) × (degraded_reason_of clock max_queue_backlog before current ≡ ok r)
          × (after.degraded_reason ≡ r)
          × (after.degraded ≡ is_some r)
          × (after.resubscribe_requested ≡ is_some r)
          × (settled after ≡ settled before)

  abbrev pub AllMarked : List (Text × SymbolFreshness) → List (Text × SymbolFreshness) → Type 0
  AllMarked [] [] = Unit
  AllMarked [] (f ∷ fs) = false ≡ true
  AllMarked (e ∷ es) [] = false ≡ true
  AllMarked (e ∷ es) (f ∷ fs) = (f.0 ≡ e.0) × IsMarked e.1 f.1 × AllMarked es fs

  -- What the loop has to show for the symbols it returns.
  record Marks (symbols out : List Text) (es fs : List (Text × SymbolFreshness)) : Type 0 where
    marked : AllMarked es fs
    asked : (s : Text) → contains out s ≡ (contains symbols s || any (wants s) fs)
    distinct : Distinct symbols → Distinct out

  abbrev run :
      List (Text × SymbolFreshness) → List Text → Result (List Text) × List (Text × SymbolFreshness)
  run = evaluate_from clock max_queue_backlog current

  -- The state of a stream that is found degraded.
  abbrev flagged : Text → SymbolFreshness → SymbolFreshness
  flagged reason state = record state {
    degraded = true;
    degraded_reason = some reason;
    resubscribe_requested = true;
  }

  module _ (k : Text) (state : SymbolFreshness) (es : List (Text × SymbolFreshness))
      (symbols : List Text) where
    run_idle :
        state.subscribed ≡ false
        → run ((k, state) ∷ es) symbols ≡ ((run es symbols).0, (k, state) ∷ (run es symbols).1)
    unfolding evaluate_from
    run_idle h = simp h

    run_good :
        state.subscribed ≡ true
        → degraded_reason_of clock max_queue_backlog state current ≡ ok none
        → run ((k, state) ∷ es) symbols
          ≡ ((run es symbols).0, (k, settled state) ∷ (run es symbols).1)
    unfolding evaluate_from
    run_good h r = simp (h, r)

    run_bad :
        (reason : Text)
        → state.subscribed ≡ true
        → degraded_reason_of clock max_queue_backlog state current ≡ ok (some reason)
        → run ((k, state) ∷ es) symbols ≡ (
          (run es (add_once symbols state.symbol)).0,
          (k, flagged reason state) ∷ (run es (add_once symbols state.symbol)).1,
        )
    unfolding evaluate_from
    run_bad reason h r = simp (h, r)

    run_error :
        (e : Error)
        → state.subscribed ≡ true
        → degraded_reason_of clock max_queue_backlog state current ≡ raise e
        → (run ((k, state) ∷ es) symbols).0 ≡ raise e
    unfolding evaluate_from
    run_error e h r = simp (h, r)

  run_none : (symbols : List Text) → run [] symbols ≡ (ok symbols, [])
  unfolding evaluate_from
  run_none symbols = refl

  idle-Marks :
      (k : Text) (state : SymbolFreshness) (es fs : List (Text × SymbolFreshness))
      (symbols out : List Text)
      → state.subscribed ≡ false
      → Marks symbols out es fs
      → Marks symbols out ((k, state) ∷ es) ((k, state) ∷ fs)
  idle-Marks k state es fs symbols out h m = record {
    marked = (refl, record { idle = λ e. refl; judged = λ e. ground arith }, m.marked);
    asked = λ s. ground (arith, m.asked s);
    distinct = m.distinct;
  }

  good-Marks :
      (k : Text) (state : SymbolFreshness) (es fs : List (Text × SymbolFreshness))
      (symbols out : List Text)
      → state.subscribed ≡ true
      → degraded_reason_of clock max_queue_backlog state current ≡ ok none
      → Marks symbols out es fs
      → Marks symbols out ((k, state) ∷ es) ((k, settled state) ∷ fs)
  good-Marks k state es fs symbols out h r m = record {
    marked = (
      refl,
      record { idle = λ e. ground arith; judged = λ e. (none, r, refl, refl, refl, refl) },
      m.marked,
    );
    asked = λ s. ground (arith, m.asked s);
    distinct = m.distinct;
  }

  bad-Marks :
      (k reason : Text) (state : SymbolFreshness) (es fs : List (Text × SymbolFreshness))
      (symbols out : List Text)
      → state.subscribed ≡ true
      → degraded_reason_of clock max_queue_backlog state current ≡ ok (some reason)
      → Marks (add_once symbols state.symbol) out es fs
      → Marks symbols out ((k, state) ∷ es) ((k, flagged reason state) ∷ fs)
  bad-Marks k reason state es fs symbols out h r m = record {
    marked = (
      refl,
      record { idle = λ e. ground arith; judged = λ e. (some reason, r, refl, refl, refl, refl) },
      m.marked,
    );
    asked = λ s. ground (arith, m.asked s, contains-add_once symbols state.symbol s);
    distinct = λ d. m.distinct (add_once-Distinct symbols state.symbol d);
  }

  run-Marks :
      (es : List (Text × SymbolFreshness)) (symbols out : List Text)
      → (run es symbols).0 ≡ ok out
      → Marks symbols out es (run es symbols).1
  run-Marks [] symbols out h =
      let same : symbols ≡ out = ground (arith, run_none symbols) in
      rw (run_none symbols, ← same)
        (record { marked = tt; asked = λ s. ground arith; distinct = λ d. d })
  run-Marks ((k, state) ∷ es) symbols out h = elim (Bool-cases state.subscribed) [
    | inr idle ↦
        let split = run_idle k state es symbols idle in
        rw split (
          idle-Marks k state es (run es symbols).1 symbols out idle
            (run-Marks es symbols out (sym (ap (λ w. w.0) split) ∙ h)))
    | inl live ↦ elim (Result-cases (degraded_reason_of clock max_queue_backlog state current)) [
      | inr (e, r) ↦ absurd (ground (arith, run_error k state es symbols e live r))
      | inl (none, r) ↦
          let split = run_good k state es symbols live r in
          rw split (
            good-Marks k state es (run es symbols).1 symbols out live r
              (run-Marks es symbols out (sym (ap (λ w. w.0) split) ∙ h)))
      | inl (some reason, r) ↦
          let split = run_bad k state es symbols reason live r in
          rw split (
            bad-Marks k reason state es (run es (add_once symbols state.symbol)).1 symbols out live
              r (run-Marks es (add_once symbols state.symbol) out (sym (ap (λ w. w.0) split) ∙ h)))
    ]
  ]

-- If an evaluation reports, then every stream that is not subscribed is as before, every subscribed one
-- carries exactly the reason that the policy gives at the time of the report, and nothing else changes; the
-- symbols to resubscribe are exactly those of the subscribed streams that are degraded, each once.
pub evaluate_lem :
    {T : Type 0} (clock : Clock T) (now_iso : Text) (now : Option Text) (t : SymbolFreshnessTracker)
    (report : Report)
    → (evaluate clock now_iso now t).0 ≡ ok report
    → AllMarked clock t.max_queue_backlog report.evaluated_at t.state_by_symbol
        (evaluate clock now_iso now t).1.state_by_symbol
      × ((s : Text)
          → contains report.resubscribe_symbols s
            ≡ any (wants s) (evaluate clock now_iso now t).1.state_by_symbol)
      × Distinct report.resubscribe_symbols
unfolding evaluate
evaluate_lem clock now_iso now t report h =
    let current = or_text now now_iso in
    elim (Result-cases (evaluate_from clock t.max_queue_backlog current t.state_by_symbol []).0) [
      | inr (e, r) ↦ absurd (ground (arith, r))
      | inl (out, r) ↦
          let m = run-Marks clock t.max_queue_backlog current t.state_by_symbol [] out r in
          let at : report.evaluated_at ≡ current = ground (arith, r) in
          let symbols : report.resubscribe_symbols ≡ out = ground (arith, r) in
          rw (at, symbols) (m.marked, m.asked, m.distinct tt)
    ]
