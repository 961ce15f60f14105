-- ===== src/Ingest/Drain.antt =====
-- `drain_all` empties the queue.
use lynx_monitor.Prelude.{
  ℕ, zero, suc, ◌+◌, ◌≤◌, ◌<◌, Text, ◌≡◌, refl, ap, ◌∙◌, sym, subst, inl, inr, ◌⊎◌, arith,
  Option-cases, Result, ok, raise, Error,
}
use lynx_monitor.Value.{Fields}
use lynx_monitor.Contracts.{Python}
use lynx_monitor.RawQueue.{RawCallback, pop, backlog}
use lynx_monitor.RawQueue.Contract.{IsValid, pop-IsValid, pop-progress}
use lynx_monitor.Ingest.{
  RealtimeIngestWorker, Ingesting, IngestHooks, record_rejected_callback, sink_answered,
  note_backlog, callback_symbol, ingested, ingest_failed, ingest_answered, normalized_then,
  drain_once, drain_all, failure_reason, failure_counted,
}

zero-cases : (n : ℕ) → (n ≡ 0) ⊎ ((k : ℕ) × (n ≡ suc k))
zero-cases zero = inl refl
zero-cases (suc n) = inr (n, refl)

module _ {P W : Type 0} where
  -- The queue, and how many payloads were processed or failed
  record Same (x y : Ingesting P W) : Type 0 where
    queue : x.worker.queue ≡ y.worker.queue
    processed : x.worker.processed ≡ y.worker.processed
    failed : x.worker.failed ≡ y.worker.failed

  -- One payload less in the queue, one more processed or failed
  record Consumed (w : RealtimeIngestWorker P) (y : Ingesting P W) : Type 0 where
    queue_left : y.worker.queue ≡ w.queue
    counted : y.worker.processed + y.worker.failed ≡ w.processed + w.failed + 1

  -- The worker after `drain_all`: nothing is left, and each payload was processed or failed.
  pub record IsDrained (x y : Ingesting P W) : Type 0 where
    pub valid : IsValid y.worker.queue
    pub left : backlog y.worker.queue ≡ 0
    pub counted :
        y.worker.processed + y.worker.failed
        ≡ x.worker.processed + x.worker.failed + backlog x.worker.queue

module _ {P W : Type 0} (py : Python) (hooks : IngestHooks P W) where
  sink_answered-Same :
      (payload : RawCallback P) (r : Result (Unit {0}) × W) (x : Ingesting P W)
      → Same (sink_answered py hooks payload r x.worker) x
  sink_answered-Same payload (ok _, world) x = record {
    queue = refl;
    processed = refl;
    failed = refl;
  }
  sink_answered-Same payload (raise e, world) x = record {
    queue = refl;
    processed = refl;
    failed = refl;
  }

  record_rejected-Same :
      (payload : RawCallback P) (reason : Text) (x : Ingesting P W)
      → Same (record_rejected_callback py hooks payload reason x) x
  unfolding record_rejected_callback
  record_rejected-Same payload reason x = elim (Option-cases (hooks.reject_sink)) [
    | inl e ↦
        simp (record_rejected_callback, e)
          (record { queue = refl; processed = refl; failed = refl })
    | inr (sink, e) ↦
        simp (record_rejected_callback, e)
          (sink_answered-Same payload (sink payload reason x.world) x)
  ]

  note_backlog-worker :
      (symbol : Text) (x : Ingesting P W) → (note_backlog py hooks symbol x).worker ≡ x.worker
  note_backlog-worker symbol x = ground arith

  ingest_failed-Consumed :
      (payload : RawCallback P) (e : Error) (x : Ingesting P W)
      → Consumed x.worker (ingest_failed py hooks payload e x)
  unfolding ingest_failed
  ingest_failed-Consumed payload e x =
      let noted = note_backlog py hooks (callback_symbol payload) x in
      let h =
        record_rejected-Same payload (failure_reason py hooks e)
          (failure_counted py hooks payload e noted) in
      let w = note_backlog-worker (callback_symbol payload) x in
      record {
        queue_left = h.queue ∙ ap (λ v. v.queue) w;
        counted =
            ground (arith, h.processed, h.failed, ap (λ v. v.processed) w, ap (λ v. v.failed) w);
      }

  ingest_answered-Consumed :
      (payload : RawCallback P) (r : Result Fields × W) (w : RealtimeIngestWorker P)
      → Consumed w (ingest_answered py hooks payload r w).1
  unfolding ingested
  ingest_answered-Consumed payload (ok event, world) w = record {
    queue_left = refl;
    counted = omega arith;
  }
  ingest_answered-Consumed payload (raise e, world) w =
      ingest_failed-Consumed payload e (record { worker = w; world = world })

  -- A round on a valid queue that is not empty takes one payload from it, which is processed or fails.
  drain_once-Consumed :
      (x : Ingesting P W)
      → IsValid x.worker.queue
      → 0 < backlog x.worker.queue
      → Consumed (record x.worker { queue = (pop x.worker.queue).1 }) (drain_once py hooks x).1
  unfolding drain_once
  drain_once-Consumed x valid pending =
      let (payload, taken, shorter) = pop-progress x.worker.queue valid pending in
      let w : RealtimeIngestWorker P = record x.worker { queue = (pop x.worker.queue).1 } in
      rw (drain_once, taken)
        (ingest_answered-Consumed payload
          (normalized_then py hooks (hooks.normalizer payload) x.world) w)

  round-IsDrained :
      (fuel : ℕ) (x : Ingesting P W)
      → IsValid x.worker.queue
      → backlog x.worker.queue ≤ suc fuel
      → ((y : Ingesting P W)
          → IsValid y.worker.queue
          → backlog y.worker.queue ≤ fuel
          → IsDrained y (drain_all py hooks fuel y).1)
      → (n : ℕ) → backlog x.worker.queue ≡ suc n
      → IsDrained x (drain_all py hooks fuel (drain_once py hooks x).1).1
  round-IsDrained fuel x valid enough later n e =
      let pending : 0 < backlog x.worker.queue = omega (arith, e) in
      let shorter = (pop-progress x.worker.queue valid pending).2 in
      let c = drain_once-Consumed x valid pending in
      let x' = (drain_once py hooks x).1 in
      let fewer : backlog x'.worker.queue + 1 ≡ backlog x.worker.queue =
        omega (arith, shorter, ap backlog c.queue_left) in
      let rest =
        later x' (subst IsValid (sym c.queue_left) (pop-IsValid x.worker.queue valid))
          (omega (arith, fewer, enough)) in
      record {
        valid = rest.valid;
        left = rest.left;
        counted = omega (arith, rest.counted, c.counted, fewer);
      }

  -- From a valid queue, `drain_all` with as many rounds as the queue has entries, or more, comes to the end of
  -- its loop: the queue is empty and valid, and as many payloads as it had entries were processed or failed.
  pub drain_all-IsDrained :
      (fuel : ℕ) (x : Ingesting P W)
      → IsValid x.worker.queue
      → backlog x.worker.queue ≤ fuel
      → IsDrained x (drain_all py hooks fuel x).1
  unfolding drain_all
  drain_all-IsDrained zero x valid enough = record {
    valid = valid;
    left = omega (arith, enough);
    counted = omega (arith, enough);
  }
  drain_all-IsDrained (suc fuel) x valid enough = elim (zero-cases (backlog x.worker.queue)) [
    | inl e ↦ rw (drain_all, e) (record { valid = valid; left = e; counted = omega (arith, e) })
    | inr (n, e) ↦
        rw (drain_all, e) (round-IsDrained fuel x valid enough (drain_all-IsDrained fuel) n e)
  ]
