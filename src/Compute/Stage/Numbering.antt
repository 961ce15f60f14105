-- ===== src/Compute/Stage/Numbering.antt =====
-- The steps of the handlers for ticks: the numbers that they take and the events that they publish.
use lynx_monitor.Prelude.{
  ℕ, ◌+◌, Text, Bool, true, false, Option, none, some, List, [], ◌∷◌, ◌++◌, ◌≡◌, refl, length,
  if◌then◌else◌, codes, text_equality, Result, ok, raise, arith, sym, subst,
}
use mathlib.Core.List.{append-nil}
use lynx_monitor.Prelude.Dict.{get}
use lynx_monitor.Value.{Value, Fields}
use lynx_monitor.Contracts.{Python}
use lynx_monitor.Compute.Confirmed.{Arithmetic}
use lynx_monitor.Compute.Minutes.{minute_bucket}
use lynx_monitor.Compute.Stage.{OctopusComputeV2, Job}
use lynx_monitor.Compute.Stage.Handlers.{Services, deliver, alert_payload, note, cache_state}
use lynx_monitor.Compute.Stage.Ticks.{
  number_alert, publish_alert, publish_state, publish_latest_bar, cache_if_any, is_due, flushed,
  flush_at, should_publish_latest_bar,
}
use lynx_monitor.Compute.Stage.Emission.{
  Ends, returned, raised, Ends-proceed, After, Numbered, After-Numbered, first, next_number-Ends,
  cache_set_terminal_snapshot-Ends, note_event-Ends, publish_processed-Ends,
}

module _ {B K D : Type 0} (py : Python) (arithmetic : Arithmetic) (services : Services B K D)
    (start : OctopusComputeV2 B K) where
  -- A handler has returned events that were emitted, one for each number that it took; or it has raised.
  abbrev pub HasEmitted : Text → Result (List Fields) × Job B K → Type 0
  HasEmitted symbol =
      Ends (λ events j. After services.bus symbol start events (length events) j)
        (Numbered services.bus symbol start)

  pub deliver-HasEmitted :
      (result_type symbol source_ts trade_date : Text) (payload : Fields → Fields) (j : Job B K)
      → After services.bus symbol start [] 0 j
      → HasEmitted symbol
          (deliver py arithmetic services result_type symbol source_ts trade_date payload j)
  unfolding deliver
  deliver-HasEmitted result_type symbol source_ts trade_date payload j h =
      Ends-proceed _ _ (next_number-Ends services.bus symbol start [] 0 j h) λ seq j1 q.
        Ends-proceed _ _
          (cache_set_terminal_snapshot-Ends services.bus symbol start py
            services.set_terminal_snapshot trade_date symbol [] 1 j1 q.1)
          λ u j2 h2.
            Ends-proceed _ _
              (publish_processed-Ends services.bus symbol start py services.fresh_id
                services.now_iso result_type source_ts seq (payload j2.state) [] 1 j2
                (omega (arith, q.0)) h2)
              λ event j3 h3.
                Ends-proceed _ _
                  (note_event-Ends services.bus symbol start py services.fresh_id services.now_iso
                    source_ts (event ∷ []) 1 j3 h3)
                  λ v j4 h4. returned h4

  -- The numbers that an alert takes
  abbrev pub taken : Option (Fields × ℕ) → ℕ
  taken none = 0
  taken (some numbered) = 1

  abbrev pub HasNumber : ℕ → Option (Fields × ℕ) → Type 0
  HasNumber n none = Unit
  HasNumber n (some (alert, seq)) = seq ≡ n

  module _ (symbol : Text) where
    pub number_alert-Ends :
        (es : List Fields) (k : ℕ) (alert : Option Fields) (j : Job B K)
        → After services.bus symbol start es k j
        → Ends
            (λ numbered j'.
              HasNumber (first services.bus symbol start + k + 1) numbered
              × After services.bus symbol start es (k + taken numbered) j')
            (Numbered services.bus symbol start)
            (number_alert py arithmetic services symbol alert j)
    number_alert-Ends es k none j h = returned (tt, (h.0, (omega (arith, h.1.0), h.1.1)))
    number_alert-Ends es k (some alert) j h =
        Ends-proceed _ _ (next_number-Ends services.bus symbol start es k j h)
          λ seq j1 q. returned (q.0, q.1)

    pub publish_alert-Ends :
        (source_ts : Text) (es : List Fields) (k : ℕ) (numbered : Option (Fields × ℕ)) (j : Job B K)
        → HasNumber (first services.bus symbol start + length es + 1) numbered
        → After services.bus symbol start es k j
        → Ends
            (λ alerts j'.
              (length alerts ≡ taken numbered)
              × After services.bus symbol start (es ++ alerts) k j')
            (Numbered services.bus symbol start)
            (publish_alert py arithmetic services symbol source_ts numbered j)
    publish_alert-Ends source_ts es k none j n h =
        returned
          (refl, subst (λ fs. After services.bus symbol start fs k j) (sym (append-nil es)) h)
    publish_alert-Ends source_ts es k (some (alert, seq)) j n h =
        Ends-proceed _ _
          (publish_processed-Ends services.bus symbol start py services.fresh_id services.now_iso
            (codes "big_trade_alert") source_ts seq
            (alert_payload py arithmetic services alert j.state) es k j n h)
          λ event j1 h1. returned (refl, h1)

    pub publish_state-Ends :
        (source_ts : Text) (seq k : ℕ) (j : Job B K)
        → seq ≡ first services.bus symbol start + 1
        → After services.bus symbol start [] k j
        → Ends
            (λ event j'. After services.bus symbol start (event ∷ []) k j')
            (Numbered services.bus symbol start)
            (publish_state py arithmetic services symbol source_ts seq j)
    publish_state-Ends source_ts seq k j n h =
        publish_processed-Ends services.bus symbol start py services.fresh_id services.now_iso
          (codes "snapshot") source_ts seq j.state [] k j (omega (arith, n)) h

    pub note-Ends :
        (source_ts : Text) (es : List Fields) (k : ℕ) (j : Job B K)
        → After services.bus symbol start es k j
        → Ends
            (λ (u : Unit {0}) j'. After services.bus symbol start es k j')
            (Numbered services.bus symbol start)
            (note py arithmetic services symbol source_ts j)
    note-Ends source_ts es k j h =
        note_event-Ends services.bus symbol start py services.fresh_id services.now_iso source_ts es
          k j h

    pub cache_state-Ends :
        (trade_date : Text) (es : List Fields) (k : ℕ) (j : Job B K)
        → After services.bus symbol start es k j
        → Ends
            (λ (u : Unit {0}) j'. After services.bus symbol start es k j')
            (Numbered services.bus symbol start)
            (cache_state py arithmetic services trade_date symbol j)
    cache_state-Ends trade_date es k j h =
        cache_set_terminal_snapshot-Ends services.bus symbol start py services.set_terminal_snapshot
          trade_date symbol es k j h

    pub cache_if_any-Ends :
        (trade_date : Text) (events es : List Fields) (k : ℕ) (j : Job B K)
        → After services.bus symbol start es k j
        → Ends
            (λ (u : Unit {0}) j'. After services.bus symbol start es k j')
            (Numbered services.bus symbol start)
            (cache_if_any py arithmetic services trade_date symbol events j)
    cache_if_any-Ends trade_date [] es k j h = returned h
    cache_if_any-Ends trade_date (e ∷ events) es k j h = cache_state-Ends trade_date es k j h

    pub publish_latest_bar-Ends :
        (source_ts : Text) (due : Bool) (j : Job B K)
        → After services.bus symbol start [] 0 j
        → HasEmitted symbol (publish_latest_bar py arithmetic services symbol source_ts due j)
    publish_latest_bar-Ends source_ts false j h = returned h
    publish_latest_bar-Ends source_ts true j h =
        Ends-proceed _ _ (next_number-Ends services.bus symbol start [] 0 j h) λ seq j1 q.
          Ends-proceed _ _ (publish_state-Ends source_ts seq 1 j1 (omega (arith, q.0)) q.1)
            λ event j2 h2. returned h2

    flush_at-Ends :
        (now_value : Value) (minute_ts : Text) (j : Job B K)
        → After services.bus symbol start [] 0 j
        → Ends
            (λ (due : Bool) j'. After services.bus symbol start [] 0 j')
            (Numbered services.bus symbol start)
            (flush_at py arithmetic services symbol now_value minute_ts j)
    flush_at-Ends now_value minute_ts j h = flushes (
        is_due py arithmetic services (get j.stage.latest_bar_flushed_minute_by_symbol symbol)
          (get j.stage.latest_bar_flush_at_by_symbol symbol) minute_ts now_value)
      where
        flushes :
            (b : Bool)
            → Ends
                (λ (due : Bool) j'. After services.bus symbol start [] 0 j')
                (Numbered services.bus symbol start)
                (if b
                  then (ok true, flushed py arithmetic services symbol minute_ts now_value j)
                  else (ok false, j))
        flushes true = returned h
        flushes false = returned h

    pub should_publish_latest_bar-Ends :
        (timestamp : Text) (j : Job B K)
        → After services.bus symbol start [] 0 j
        → Ends
            (λ (due : Bool) j'. After services.bus symbol start [] 0 j')
            (Numbered services.bus symbol start)
            (should_publish_latest_bar py arithmetic services symbol timestamp j)
    unfolding should_publish_latest_bar
    should_publish_latest_bar-Ends [] j h = returned h
    should_publish_latest_bar-Ends (c ∷ t) j h =
        Ends-proceed _ _ (bucketed (minute_bucket services.datetimes services.is_after (c ∷ t)))
          λ minute_ts j1 h1. flush_at-Ends _ minute_ts j1 h1
      where
        bucketed :
            (r : Result Text)
            → Ends
                (λ (minute_ts : Text) j'. After services.bus symbol start [] 0 j')
                (Numbered services.bus symbol start)
                (r, j)
        bucketed (ok minute_ts) = returned h
        bucketed (raise e) = raised (After-Numbered services.bus symbol start [] 0 j h)
