-- ===== src/Contracts/Validated.antt =====
-- What the bus accepts of the raw events that are made and validated.
use lynx_monitor.Prelude.{
  ℕ, ◌≡◌, refl, String, Text, true, Option, none, some, List, [], ◌∷◌, Result, ok, raise, ◌>>=◌,
  arith, codes, Result-cases, inl, inr, text_eq_iff, subst, string_eq,
}
use lynx_monitor.Value.{Value, str, Fields, find, assign, get_value}
use lynx_monitor.Contracts.{Python, raw_event_kinds, is_canonical_value, validate_event_envelope}
use lynx_monitor.Contracts.Events.{
  validate_raw_market_event, validate_tagged, validate_raw_payload, make_raw_market_event,
  with_period, envelope, or_now,
}
use lynx_monitor.Bus.{validate_event_bus_publish_inputs}

module _ (py : Python) (message : Fields) where
  envelope_symbol :
      (required : List String)
      → validate_event_envelope py message required ≡ ok tt
      → is_canonical_value (get_value message "symbol") ≡ true
  unfolding validate_event_envelope
  envelope_symbol required h = ground arith

  envelope_of_tagged :
      (tag : String) (allowed : List Text) (unsupported : Text)
      (validate_payload : Value → Fields → Result (Unit {0}))
      → validate_tagged py tag allowed unsupported validate_payload message ≡ ok tt
      → validate_event_envelope py message (tag ∷ []) ≡ ok tt
  unfolding validate_tagged
  envelope_of_tagged tag allowed unsupported validate_payload h =
      elim (Result-cases (validate_event_envelope py message (tag ∷ []))) [
        | inl (u, e) ↦ e
        | inr (e', e) ↦ absurd (ground (arith, e))
      ]

  validated_symbol :
      validate_raw_market_event py message ≡ ok tt
      → is_canonical_value (get_value message "symbol") ≡ true
  unfolding validate_raw_market_event
  validated_symbol h = envelope_symbol ("kind" ∷ []) (
      envelope_of_tagged "kind" raw_event_kinds (codes "unsupported RawMarketEvent kind: ")
        validate_raw_payload h)

  -- A raw event that passes validation is accepted by the bus, on any topic, under its own symbol.
  pub validated_publishes :
      (topic : String) (key : Text)
      → validate_raw_market_event py message ≡ ok tt
      → get_value message "symbol" ≡ str key
      → validate_event_bus_publish_inputs topic key message ≡ ok tt
  unfolding validate_event_bus_publish_inputs is_canonical_value
  validated_publishes topic key h own =
      let canonical = validated_symbol h in ground (arith, own, canonical, text_eq_iff key key)

-- A record that is returned once it is checked.
pub checked :
    (draft result : Fields) (check : Result (Unit {0}))
    → (check >>= λ _. ok draft) ≡ ok result
    → (check ≡ ok tt) × (draft ≡ result)
checked draft result (ok u) h = ground arith
checked draft result (raise e) h = absurd (ground arith)

symbol_of_draft :
    (py : Python) (kind : Value) (event_id symbol source source_ts ingest_ts : Text)
    (payload : Fields) (seq : ℕ) (period : Option Text)
    → get_value
        (with_period py period
          (envelope py "kind" kind event_id symbol source source_ts ingest_ts payload seq))
        "symbol"
      ≡ str symbol
unfolding assign find
symbol_of_draft py kind event_id symbol source source_ts ingest_ts payload seq none = refl
symbol_of_draft py kind event_id symbol source source_ts ingest_ts payload seq (some []) = refl
symbol_of_draft py kind event_id symbol source source_ts ingest_ts payload seq (some (c ∷ p)) = refl

-- What `make_raw_market_event` returns passes validation, carries the symbol it was given, and is accepted
-- by the bus, on any topic, under that symbol.
pub make_raw-validated :
    (py : Python) (topic : String) (fresh now kind symbol source : Text) (payload : Fields)
    (seq : ℕ) (source_ts ingest_ts period event_id : Option Text) (event : Fields)
    → make_raw_market_event py fresh now kind symbol source payload seq source_ts ingest_ts period
        event_id
      ≡ ok event
    → (validate_raw_market_event py event ≡ ok tt)
      × (get_value event "symbol" ≡ str symbol)
      × (validate_event_bus_publish_inputs topic symbol event ≡ ok tt)
unfolding make_raw_market_event
make_raw-validated py topic fresh now kind symbol source payload seq source_ts ingest_ts period
      event_id event made =
    let draft = with_period py period (
      envelope py "kind" (str kind) (or_now py event_id fresh) symbol source
        (or_now py source_ts now) (or_now py ingest_ts now) payload seq) in
    let (valid, same) = checked draft event (validate_raw_market_event py draft) made in
    let own : get_value draft "symbol" ≡ str symbol =
      symbol_of_draft py (str kind) (or_now py event_id fresh) symbol source
        (or_now py source_ts now) (or_now py ingest_ts now) payload seq period in
    subst
      (λ e.
        (validate_raw_market_event py e ≡ ok tt)
        × (get_value e "symbol" ≡ str symbol)
        × (validate_event_bus_publish_inputs topic symbol e ≡ ok tt))
      same (valid, own, validated_publishes py draft topic symbol valid own)
