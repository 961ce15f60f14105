-- ===== src/Tests/Ingests.antt =====
-- The callback's way to the collector, subscriptions, minute bars and alerts.
use lynx_monitor.Prelude.{
  ℕ, zero, suc, ◌+◌, ◌-◌, ◌≡◌, refl, ap, Text, codes, true, false, none, some, List, [], ◌∷◌,
  if◌then◌else◌, leb, ltb, length, arith, text_equality, text_eq, ok, other_error, fail,
}
use lynx_monitor.Symbols.{zeros}
use lynx_monitor.Value.{Value, Fields, field, end, str, int, pos, list, nil, dict, find}
use lynx_monitor.Contracts.{Python}
use lynx_monitor.Runtime.{text_or}
use lynx_monitor.Freshness.{Report, fresh_state, replace_z}
use lynx_monitor.RawQueue.{RawCallback, BoundedRawEventQueue, init, push}
use lynx_monitor.RawQueue.Runs.{new_queue, init-IsValid, push-IsValid}
use lynx_monitor.RawQueue.Contract.{IsValid}
use lynx_monitor.Session.{Datetimes, minute_bucket}
use lynx_monitor.Session.Buckets.{ReadsBack}
use lynx_monitor.Bars.{Numbers, takes_tick, upsert_minute_bar, prepend_unique_alert}
use lynx_monitor.Bars.Converted.{Converted}
use lynx_monitor.Bars.Entered.{IsEntered, upsert_minute_bar-Converted}
use lynx_monitor.Bars.Alerts.{IsNewest, prepend_unique_alert-IsNewest}
use lynx_monitor.Callbacks.{Stamps}
use lynx_monitor.Callbacks.Normalize.{callback_event, normalize_xtquant_callback}
use lynx_monitor.Callbacks.Kinds.{Yields, normalize_xtquant_callback-Yields}
use lynx_monitor.Ingest.{IngestHooks, Ingesting, pair, drain_all}
use lynx_monitor.Ingest.Drain.{IsDrained, drain_all-IsDrained}
use lynx_monitor.Subscriptions.{Feed, Managed, no_subscription_stats, resubscribe_round}
use lynx_monitor.Subscriptions.Cooldown.{resubscribe_round-resubscribe_round}

abbrev tencent : Text
tencent = codes "00700.HK"

abbrev python : Python
python = record { format = λ v. []; fromisoformat = λ t. true }

-- Datetimes that are counted in minutes of the day, and written as so many zeros
abbrev minutes : Datetimes ℕ
minutes = record {
  fromisoformat = λ t. some (length t);
  has_tzinfo = λ d. true;
  replace_tzinfo = λ d. d;
  astimezone = λ d. d;
  date_text = λ d. codes "20260601";
  hour = λ d. 10;
  minute = λ d. d;
  start_of_minute = λ d. d;
  isoformat = zeros;
}

zeros_plain : (n : ℕ) → replace_z (zeros n) ≡ zeros n
unfolding replace_z
zeros_plain zero = refl
zeros_plain (suc n) = ap (◌∷◌ 48) (zeros_plain n)

length-zeros : (n : ℕ) → length (zeros n) ≡ n
length-zeros zero = refl
length-zeros (suc n) = ap suc (length-zeros n)

reads_back : ReadsBack minutes
reads_back = record {
  plain = zeros_plain;
  read_back = λ d. ap some (length-zeros d);
  aware = λ d. refl;
  same_zone = λ d. refl;
  start_again = λ d. refl;
}

abbrev numbers : Numbers
numbers = record {
  to_float = λ v. ok v;
  to_int = λ v. ok v;
  plus = λ v w. v;
  maximum = λ v w. v;
  minimum = λ v w. v;
  equal = λ v w. false;
}

abbrev tick : Fields
tick = field "timestamp" (str (codes "10:15")) (field "price" (int (pos 3)) end)

upsert_minute_bar-Converted_example :
    Converted
      (List Fields)
      numbers
      (IsEntered python numbers minutes tick [])
      (upsert_minute_bar python numbers minutes (list nil) tick (some (codes "20260601")))
unfolding minute_bucket find text_eq takes_tick text_or
upsert_minute_bar-Converted_example =
    upsert_minute_bar-Converted python numbers minutes (list nil) tick (some (codes "20260601"))
      refl

abbrev alert : Fields
alert = field "id" (str (codes "a1")) end

prepend_unique_alert-IsNewest_example :
    IsNewest python numbers alert
      (dict alert ∷ dict end ∷ [])
      (prepend_unique_alert python numbers alert (dict alert ∷ dict end ∷ []))
unfolding find text_or
prepend_unique_alert-IsNewest_example =
    prepend_unique_alert-IsNewest python numbers alert (dict alert ∷ dict end ∷ []) refl

newest_alerts :
    prepend_unique_alert python numbers alert (dict alert ∷ dict end ∷ [])
    ≡ ok (dict alert ∷ dict end ∷ [])
unfolding prepend_unique_alert find text_eq
newest_alerts = refl

abbrev callback : ℕ → RawCallback ℕ
callback n = record {
  symbol = some (codes "700");
  code = none;
  period = none;
  upper_period = none;
  kind = none;
  body = n;
}

made : init 2 ≡ ok (new_queue (RawCallback ℕ) 2)
unfolding init
made = refl

abbrev two_callbacks : BoundedRawEventQueue (RawCallback ℕ)
two_callbacks = (push (callback 2) (push (callback 1) (new_queue (RawCallback ℕ) 2)).0).0

two_callbacks-IsValid : IsValid two_callbacks
two_callbacks-IsValid =
    push-IsValid (callback 2) (push (callback 1) (new_queue (RawCallback ℕ) 2)).0
      (push-IsValid (callback 1) (new_queue (RawCallback ℕ) 2) (init-IsValid 2 _ made).0)

-- A collector that takes every tick, and a normaliser that refuses the payload 2
abbrev ingest_hooks : IngestHooks ℕ ℕ
ingest_hooks = record {
  collector = record {
    ingest_tick = λ symbol t w. (ok (field "symbol" (str symbol) end), w + 1);
    ingest_event = λ kind symbol period source_ts p w. (ok p, w);
    record_queue_backlog = λ symbol n period kind w. w;
    publish_degraded = λ w. w;
  };
  normalizer = λ p. if leb 2 p.body then fail other_error (codes "bad") else ok (pair tencent end);
  reject_sink = none;
}

abbrev worker : Ingesting ℕ ℕ
worker = record {
  worker = record {
    queue = two_callbacks;
    received = 2;
    enqueued = 2;
    rejected = 0;
    processed = 0;
    failed = 0;
    dead_letters = [];
  };
  world = 0;
}

drain_all-IsDrained_example : IsDrained worker (drain_all python ingest_hooks 2 worker).1
unfolding push
drain_all-IsDrained_example =
    drain_all-IsDrained python ingest_hooks 2 worker two_callbacks-IsValid (omega arith)

one_failed : (drain_all python ingest_hooks 2 worker).1.worker.failed ≡ 1
unfolding push drain_all text_eq
one_failed = refl

-- A feed whose world is its clock, with a cooldown of 30
abbrev feed : Feed ℕ ℕ
feed = record {
  start = λ w. (ok tt, w);
  stop = λ w. (ok tt, w);
  subscribe = λ symbol w. (ok tt, w + 1);
  unsubscribe = λ symbol w. (ok tt, w + 1);
  subscribe_symbol = λ symbol w. (ok tt, w);
  unsubscribe_symbol = λ symbol w. (ok tt, w);
  evaluate_freshness = λ w. (fail other_error (codes "no tracker"), w);
  set_process = λ process w. w;
  now = λ w. w;
  cooling = λ now previous. ltb (now - previous) 30;
}

abbrev managed : Managed ℕ ℕ
managed = record {
  manager = record {
    last_resubscribe_at_by_symbol = [];
    stats = no_subscription_stats;
    running = true;
    subscribed_symbols = tencent ∷ [];
  };
  world = 100;
}

abbrev report : Report
report = record {
  evaluated_at = codes "1";
  resubscribe_symbols = tencent ∷ [];
  symbol_freshness = (tencent, fresh_state tencent none none) ∷ [];
}

resubscribe_round-resubscribe_round_example :
    resubscribe_round feed report tencent
      (record (resubscribe_round feed report tencent managed).1 { world = 120 })
    ≡ (ok tt, record (resubscribe_round feed report tencent managed).1 { world = 120 })
unfolding text_eq resubscribe_round
resubscribe_round-resubscribe_round_example =
    resubscribe_round-resubscribe_round feed report report tencent managed 120 refl refl refl

abbrev stamps : Stamps
stamps = record {
  now = codes "2026-06-01T02:00:00.000+00:00";
  is_milliseconds = λ v. false;
  from_seconds = λ v. ok (codes "2026-06-01T02:00:00.000+00:00");
  from_milliseconds = λ v. ok (codes "2026-06-01T02:00:00.000+00:00");
  hk_from_milliseconds = λ v. ok (codes "2026-06-01T10:00:00.000+08:00");
  hk_minute_of = λ t. ok (codes "2026-06-01T10:00:00.000+08:00");
}

abbrev legacy_tick : Value
legacy_tick = dict (
    field "symbol" (str (codes "700"))
      (field "data" (dict (field "Price" (int (pos 3)) (field "Volume" (int (pos 200)) end))) end))

normalize_xtquant_callback-Yields_example :
    Yields (normalize_xtquant_callback python numbers (λ v w. v) stamps legacy_tick)
normalize_xtquant_callback-Yields_example =
    normalize_xtquant_callback-Yields python numbers (λ v w. v) stamps legacy_tick

legacy_event :
    normalize_xtquant_callback python numbers (λ v w. v) stamps legacy_tick
    ≡ ok (
        callback_event
          (codes "tick")
          tencent
          (codes "hktransaction")
          (codes "2026-06-01T02:00:00.000+00:00")
          (field "price" (int (pos 3)) (
            field "volume" (int (pos 200)) (
              field "turnover"
                (int (pos 3))
                (field "side" (str (codes "neutral")) (field "broker_code" (str []) end))))))
unfolding normalize_xtquant_callback text_eq find
legacy_event = refl
