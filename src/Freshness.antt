-- ===== src/Freshness.antt =====
-- backend/beast_market/freshness.py: `SymbolFreshnessTracker`, which notices streams of events that dry up.
-- A method gets the tracker and the time that `now_iso()` would give it. `Clock` stands for the datetimes
-- and floats of the standard library: a point in time is an element of `T`, and `older` is the comparison of
-- a difference with the age that the policy allows.
pub mod Streams
pub mod Evaluation
use lynx_monitor.Prelude.{
  ℕ, Text, Bool, true, false, not, ◌||◌, Option, none, some, List, [], ◌∷◌, ◌++◌, ltb, eqb,
  if◌then◌else◌, Result, ok, raise, ◌>>=◌, codes, text_eq, text_equality,
}
use lynx_monitor.Prelude.Dict.{Dict, get, put}
use lynx_monitor.Symbols.{is_empty}
use lynx_monitor.Value.{ℤ, pos, negsuc}
use lynx_monitor.RawQueue.{or_text}
use lynx_monitor.Pool.{add_once, text_le}

pub record SymbolFreshness : Type 0 where
  pub symbol : Text
  pub period : Option Text
  pub stream_kind : Option Text
  pub subscribed : Bool
  pub subscribed_at : Option Text
  pub latest_event_at : Option Text
  pub latest_ingest_at : Option Text
  pub queue_backlog : ℕ
  pub degraded : Bool
  pub degraded_reason : Option Text
  pub resubscribe_requested : Bool

-- SymbolFreshness(symbol=symbol, period=period, stream_kind=stream_kind)
abbrev pub fresh_state : Text → Option Text → Option Text → SymbolFreshness
fresh_state symbol period stream_kind = record {
  symbol = symbol;
  period = period;
  stream_kind = stream_kind;
  subscribed = false;
  subscribed_at = none;
  latest_event_at = none;
  latest_ingest_at = none;
  queue_backlog = 0;
  degraded = false;
  degraded_reason = none;
  resubscribe_requested = false;
}

-- Whether a text that may be absent counts as true.
abbrev pub given : Option Text → Bool
given none = false
given (some t) = not (is_empty t)

unfoldable pub freshness_key : Text → Option Text → Option Text → Text
freshness_key symbol period stream_kind =
    if given period || given stream_kind
    then symbol ++ (b'|' ∷ (or_text period [] ++ (b'|' ∷ or_text stream_kind [])))
    else symbol

-- `stream_id`, which the class computes in the same way.
unfoldable pub stream_id : SymbolFreshness → Text
unfolding freshness_key
stream_id state = freshness_key state.symbol state.period state.stream_kind

-- value.replace("Z", "+00:00")
unfoldable pub replace_z : Text → Text
replace_z [] = []
replace_z (c ∷ t) =
    let rest = replace_z t in if eqb c b'Z' then codes "+00:00" ++ rest else c ∷ rest

pub record Clock (T : Type 0) : Type 0 where
  pub timestamp : Text → Result T  -- datetime.fromisoformat(value).timestamp()
  pub older : T → T → Bool  -- current - value > max_event_age_seconds

pub record SymbolFreshnessTracker : Type 0 where
  pub max_queue_backlog : ℕ
  pub state_by_symbol : Dict Text SymbolFreshness

pub record Report : Type 0 where
  pub evaluated_at : Text
  pub resubscribe_symbols : List Text
  pub symbol_freshness : List (Text × SymbolFreshness)

-- The state that `_state` returns; it is in the table from then on.
unfoldable pub state_of :
    Text → Option Text → Option Text → SymbolFreshnessTracker → SymbolFreshness
unfolding freshness_key get
state_of symbol period stream_kind t =
    elim (get t.state_by_symbol (freshness_key symbol period stream_kind)) [
      | none ↦ fresh_state symbol period stream_kind
      | some state ↦ state
    ]

-- What a method leaves in the table for the state that `_state` gave it.
unfoldable pub store :
    Text
    → Option Text
    → Option Text
    → SymbolFreshness
    → SymbolFreshnessTracker
    → SymbolFreshnessTracker
unfolding freshness_key put
store symbol period stream_kind state t = record t {
  state_by_symbol = put t.state_by_symbol (freshness_key symbol period stream_kind) state;
}

abbrev pub settled : SymbolFreshness → SymbolFreshness
settled state = record state {
  degraded = false;
  degraded_reason = none;
  resubscribe_requested = false;
}

unfoldable pub mark_subscribed :
    Text → Text → Option Text → Option Text → SymbolFreshnessTracker → SymbolFreshnessTracker
unfolding state_of store
mark_subscribed now symbol period stream_kind t =
    store symbol period stream_kind
      (settled (record (state_of symbol period stream_kind t) {
        subscribed = true;
        subscribed_at = some now;
      }))
      t

unfoldable pub mark_unsubscribed :
    Text → Option Text → Option Text → SymbolFreshnessTracker → SymbolFreshnessTracker
unfolding state_of store
mark_unsubscribed symbol period stream_kind t =
    store symbol period stream_kind
      (settled (record (state_of symbol period stream_kind t) {
        subscribed = false;
        subscribed_at = none;
      }))
      t

-- `_inherit_subscription`: a stream takes over the subscription of its symbol. A stream that is its own
-- parent has none to take over.
unfoldable pub inherit_subscription :
    Text → SymbolFreshness → SymbolFreshnessTracker → SymbolFreshness
unfolding freshness_key get
inherit_subscription symbol state t =
    if state.subscribed
    then state
    else elim (get t.state_by_symbol (freshness_key symbol none none)) [
      | none ↦ state
      | some parent ↦
          if parent.subscribed
          then record state { subscribed = true; subscribed_at = parent.subscribed_at }
          else state
    ]

unfoldable pub record_event :
    Text
    → Text
    → Text
    → Option Text
    → Option Text
    → Option Text
    → SymbolFreshnessTracker
    → SymbolFreshnessTracker
unfolding state_of store inherit_subscription
record_event now symbol source_ts ingest_ts period stream_kind t =
    let state = inherit_subscription symbol (state_of symbol period stream_kind t) t in
    store symbol period stream_kind
      (settled (record state {
        latest_event_at = some source_ts;
        latest_ingest_at = some (or_text ingest_ts now);
      }))
      t

-- max(0, queue_backlog)
abbrev at_least_zero : ℤ → ℕ
at_least_zero (pos n) = n
at_least_zero (negsuc n) = 0

unfoldable pub record_backlog :
    Text → ℤ → Option Text → Option Text → SymbolFreshnessTracker → SymbolFreshnessTracker
unfolding state_of store inherit_subscription
record_backlog symbol queue_backlog period stream_kind t =
    let state = inherit_subscription symbol (state_of symbol period stream_kind t) t in
    store symbol period stream_kind (record state { queue_backlog = at_least_zero queue_backlog }) t

-- `snapshot`: the table, sorted by key. The states stand for their `as_dict`.
unfoldable pub insert_entry :
    Text × SymbolFreshness → List (Text × SymbolFreshness) → List (Text × SymbolFreshness)
unfolding text_le
insert_entry e [] = e ∷ []
insert_entry e (f ∷ fs) =
    let later = insert_entry e fs in if text_le e.0 f.0 then e ∷ f ∷ fs else f ∷ later

unfoldable pub snapshot_from : List (Text × SymbolFreshness) → List (Text × SymbolFreshness)
unfolding insert_entry
snapshot_from [] = []
snapshot_from (e ∷ es) = insert_entry e (snapshot_from es)

-- `latest_event_at_by_symbol`
unfoldable pub latest_from : Dict Text Text → List (Text × SymbolFreshness) → Dict Text Text
unfolding text_le get put
latest_from latest [] = latest
latest_from latest ((k, state) ∷ rest) =
    let at = or_text state.latest_event_at [] in
    let known = or_text (get latest state.symbol) [] in
    latest_from (if text_le at known then latest else put latest state.symbol at) rest

unfoldable pub latest_event_at_by_symbol : SymbolFreshnessTracker → Dict Text Text
unfolding latest_from
latest_event_at_by_symbol t = latest_from [] t.state_by_symbol

module _ {T : Type 0} (clock : Clock T) where
  unfoldable pub parse_ts : Text → Result T
  unfolding replace_z
  parse_ts value = clock.timestamp (replace_z value)

  -- parse_ts(current) - parse_ts(value) > max_event_age_seconds
  unfoldable pub is_older : Text → Text → Result Bool
  unfolding parse_ts
  is_older current value = do
    now ← parse_ts current
    then_ ← parse_ts value
    ok (clock.older now then_)

  unfoldable pub degraded_reason_of : ℕ → SymbolFreshness → Text → Result (Option Text)
  unfolding is_older
  degraded_reason_of max_queue_backlog state current =
      if ltb max_queue_backlog state.queue_backlog
      then ok (some (codes "queue_backlog_exceeded"))
      else if given state.latest_event_at
      then (do
        late ← is_older current (or_text state.latest_event_at [])
        ok (if late then some (codes "stale_event_stream") else none))
      else if given state.subscribed_at
      then (do
        late ← is_older current (or_text state.subscribed_at [])
        ok (if late then some (codes "no_events_after_subscribe") else none))
      else ok (some (codes "no_events_after_subscribe"))

  -- The loop of `evaluate`. Where a time cannot be parsed it raises, and the states before that one stay
  -- marked.
  unfoldable pub evaluate_from :
      ℕ
      → Text
      → List (Text × SymbolFreshness)
      → List Text
      → Result (List Text) × List (Text × SymbolFreshness)
  unfolding degraded_reason_of add_once
  evaluate_from max_queue_backlog current [] symbols = (ok symbols, [])
  evaluate_from max_queue_backlog current ((k, state) ∷ rest) symbols =
      let go = evaluate_from max_queue_backlog current rest in
      if not state.subscribed
      then ((go symbols).0, (k, state) ∷ (go symbols).1)
      else elim (degraded_reason_of max_queue_backlog state current) [
        | raise e ↦ (raise e, (k, state) ∷ rest)
        | ok none ↦ ((go symbols).0, (k, settled state) ∷ (go symbols).1)
        | ok (some reason) ↦ (
          (go (add_once symbols state.symbol)).0,
          (
            k,
            record state {
              degraded = true;
              degraded_reason = some reason;
              resubscribe_requested = true;
            },
          )
              ∷ (go (add_once symbols state.symbol)).1,
        )
      ]

  unfoldable pub evaluate :
      Text → Option Text → SymbolFreshnessTracker → Result Report × SymbolFreshnessTracker
  unfolding evaluate_from snapshot_from
  evaluate now_iso now t =
      let current = or_text now now_iso in
      let run = evaluate_from t.max_queue_backlog current t.state_by_symbol [] in
      let t' = record t { state_by_symbol = run.1 } in
      (
        elim (run.0) [
          | raise e ↦ raise e
          | ok symbols ↦ ok (record {
            evaluated_at = current;
            resubscribe_symbols = symbols;
            symbol_freshness = snapshot_from t'.state_by_symbol;
          })
        ],
        t',
      )
