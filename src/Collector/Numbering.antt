-- ===== src/Collector/Numbering.antt =====
-- The numbers of the collector's events.
use lynx_monitor.Prelude.{
  ℕ, ◌+◌, Text, Option, none, some, [], ◌∷◌, ◌≡◌, refl, ap, sym, ◌∙◌, text_equality, Result, ok,
  raise,
}
use lynx_monitor.Prelude.Dict.{put}
use lynx_monitor.Value.{Value, int, pos, str, Fields, find, assign, get_value}
use lynx_monitor.Contracts.{Python, raw_topic}
use lynx_monitor.Contracts.Events.{
  make_raw_market_event, validate_raw_market_event, envelope, with_period, or_now,
}
use lynx_monitor.Contracts.Validated.{checked}
use lynx_monitor.Bus.{EventBus}
use lynx_monitor.Freshness.{mark_subscribed}
use lynx_monitor.Runtime.RawEvents.{number_at}
use lynx_monitor.Collector.{
  RealtimeCollectorV2, published, made, ingest_event, sync_freshness_health,
}

seq_of_draft :
    (py : Python) (kind : Value) (event_id symbol source source_ts ingest_ts : Text)
    (payload : Fields) (seq : ℕ) (period : Option Text)
    → get_value
        (with_period py period
          (envelope py "kind" kind event_id symbol source source_ts ingest_ts payload seq))
        "seq"
      ≡ int (pos seq)
unfolding assign find
seq_of_draft py kind event_id symbol source source_ts ingest_ts payload seq none = refl
seq_of_draft py kind event_id symbol source source_ts ingest_ts payload seq (some []) = refl
seq_of_draft py kind event_id symbol source source_ts ingest_ts payload seq (some (c ∷ p)) = refl

-- What is made carries the number that it was given.
made_seq :
    (py : Python) (fresh now kind symbol source : Text) (payload : Fields) (seq : ℕ)
    (source_ts period : Option Text) (event : Fields)
    → make_raw_market_event py fresh now kind symbol source payload seq source_ts none period none
      ≡ ok event
    → get_value event "seq" ≡ int (pos seq)
unfolding make_raw_market_event
made_seq py fresh now kind symbol source payload seq source_ts period event h =
    let draft = with_period py period (
      envelope py "kind" (str kind) (or_now py none fresh) symbol source (or_now py source_ts now)
        (or_now py none now) payload seq) in
    let (valid, same) = checked draft event (validate_raw_market_event py draft) h in
    ap (λ e. get_value e "seq") (sym same)
    ∙ seq_of_draft py (str kind) (or_now py none fresh) symbol source (or_now py source_ts now)
        (or_now py none now) payload seq period

module _ {W : Type 0} (py : Python) (bus : EventBus W) (times : Value → Value → Result Value) where
  -- The collector after an event of a symbol: the symbol's number is the next one in any case; an event that is
  -- returned carries it, and where nothing is returned only the subscription of the stream is noted.
  abbrev pub IsNumbered :
      (now kind symbol : Text)
      → Option Text
      → RealtimeCollectorV2 W
      → Result Fields × RealtimeCollectorV2 W
      → Type 0
  IsNumbered now kind symbol period c (result, d) =
      let seq = number_at c.seq_by_symbol symbol + 1 in
      (d.seq_by_symbol ≡ put c.seq_by_symbol symbol seq) × elim result [
        | ok event ↦ get_value event "seq" ≡ int (pos seq)
        | raise e ↦ d.freshness ≡ mark_subscribed now symbol period (some kind) c.freshness
      ]

  abbrev pub numbered :
      (now kind symbol : Text) → Option Text → RealtimeCollectorV2 W → RealtimeCollectorV2 W
  numbered now kind symbol period c = record c {
    freshness = mark_subscribed now symbol period (some kind) c.freshness;
    seq_by_symbol = put c.seq_by_symbol symbol (number_at c.seq_by_symbol symbol + 1);
  }

  published-IsNumbered :
      (now kind symbol : Text) (period : Option Text) (event : Fields) (r : Result (Unit {0}) × W)
      (c : RealtimeCollectorV2 W)
      → get_value event "seq" ≡ int (pos (number_at c.seq_by_symbol symbol + 1))
      → IsNumbered now kind symbol period c (
          published py bus times now kind symbol period event r (numbered now kind symbol period c))
  unfolding sync_freshness_health
  published-IsNumbered now kind symbol period event (ok _, w) c h = (refl, h)
  published-IsNumbered now kind symbol period event (raise e, w) c h = (refl, refl)

  made-IsNumbered :
      (now kind symbol : Text) (period : Option Text) (r : Result Fields)
      (c : RealtimeCollectorV2 W)
      → ((event : Fields)
          → r ≡ ok event
          → get_value event "seq" ≡ int (pos (number_at c.seq_by_symbol symbol + 1)))
      → IsNumbered now kind symbol period c
          (made py bus times now kind symbol period r (numbered now kind symbol period c))
  made-IsNumbered now kind symbol period (raise e) c h = (refl, refl)
  made-IsNumbered now kind symbol period (ok event) c h =
      published-IsNumbered now kind symbol period event (bus.publish raw_topic symbol event c.bus) c
        (h event refl)

  -- An event that the collector takes in uses up the next number of its symbol and of no other, whether it is
  -- refused, cannot be published, or is returned; if it is returned it carries that number, and otherwise no event
  -- of its stream is recorded.
  pub ingest_event-IsNumbered :
      (now fresh kind symbol : Text) (payload : Fields) (period source_ts : Option Text)
      (c : RealtimeCollectorV2 W)
      → IsNumbered now kind symbol period c
          (ingest_event py bus times now fresh kind symbol payload period source_ts c)
  unfolding ingest_event
  ingest_event-IsNumbered now fresh kind symbol payload period source_ts c =
      made-IsNumbered now kind symbol period _ c (
        made_seq py fresh now kind symbol c.source payload (number_at c.seq_by_symbol symbol + 1)
          source_ts period)
