-- ===== src/Consumer/Offsets.antt =====
-- Which offset a poll commits: it passes the records that were processed and, if bad records are skipped,
-- those that were recorded as dead letters; it never passes any other.
use lynx_monitor.Prelude.{
  ℕ, suc, ◌+◌, ◌≤◌, ◌≡◌, ◌⊎◌, inl, inr, refl, Text, Bool, true, false, Option, none, some, List, [],
  ◌∷◌, ◌++◌, if◌then◌else◌, Result, ok, raise, arith, length, Bool-cases, Error, subst, sym, ◌∙◌,
}
use lynx_monitor.Value.{Fields}
use lynx_monitor.Contracts.{Python}
use lynx_monitor.Bus.{DeadLetterRecord}
use lynx_monitor.Consumer.{
  PolledRecord, EventConsumer, Processors, WorkerStats, RawEventConsumerWorker, Progress,
  write_dead_letter, succeed, give_up, handle_record, handle_records, poll_and_process,
  validate_and_process, limited,
}

-- The records follow one another from offset `n` on, where they carry offsets at all.
abbrev pub Sequential : ℕ → List PolledRecord → Type 0
Sequential n [] = Unit
Sequential n (r ∷ rs) = ((r.offset ≡ none) ⊎ (r.offset ≡ some n)) × Sequential (n + 1) rs

module _ {W : Type 0} (py : Python) (procs : Processors W) (trade_date : Text) where
  write_dead_letter_counts :
      (letter : DeadLetterRecord) (stats : WorkerStats) (w : W)
      → ((write_dead_letter py procs trade_date letter stats w).0.processed ≡ stats.processed)
        × ((write_dead_letter py procs trade_date letter stats w).0.failed ≡ stats.failed)
  unfolding write_dead_letter
  write_dead_letter_counts letter stats w = ground arith

  -- What counts towards the offset: processed records, and failed ones if they are skipped.
  abbrev pub passed : RawEventConsumerWorker → ℕ
  passed worker =
      worker.stats.processed + (if worker.skip_bad_records then worker.stats.failed else 0)

  record Round (p q : Progress W) (go : Bool) : Type 0 where
    setup :
        (q.worker.topic ≡ p.worker.topic) × (q.worker.skip_bad_records ≡ p.worker.skip_bad_records)
    handled :
        q.worker.stats.processed + q.worker.stats.failed
        ≡ p.worker.stats.processed + p.worker.stats.failed + 1
    kept : p.worker.stats.processed ≤ q.worker.stats.processed
    offset : q.next_offset + passed p.worker ≡ p.next_offset + passed q.worker
    commits :
        (q.should_commit ≡ true)
        ⊎ ((q.next_offset ≡ p.next_offset) × (q.should_commit ≡ p.should_commit) × (go ≡ false))
    goes : go ≡ true → passed q.worker ≡ passed p.worker + 1
    stops : go ≡ false → (passed q.worker ≡ passed p.worker) × (p.worker.skip_bad_records ≡ false)

  succeed-Round :
      (r : PolledRecord) (out : List Fields × List Fields) (p : Progress W) (w : W)
      → (r.offset ≡ none) ⊎ (r.offset ≡ some p.next_offset)
      → Round p (succeed py procs trade_date r out (record p { world = w })) true
  unfolding succeed
  succeed-Round r out p w follows = ground arith

  give_up-Round :
      (r : PolledRecord) (e : Error) (p : Progress W) (w : W)
      → (r.offset ≡ none) ⊎ (r.offset ≡ some p.next_offset)
      → Round p (give_up py procs trade_date r e (record p { world = w })) p.worker.skip_bad_records
  unfolding give_up
  give_up-Round r e p w follows =
      let letter : DeadLetterRecord = record {
        topic = p.worker.topic;
        key = r.entry.key;
        value = r.entry.value;
        reason = e.message;
      } in
      let stats : WorkerStats = record (p.worker.stats) {
        failed = p.worker.stats.failed + 1;
        dead_letters = p.worker.stats.dead_letters ++ letter ∷ [];
      } in
      elim (Bool-cases p.worker.skip_bad_records) [
        | inl skip ↦ ground (arith, write_dead_letter_counts letter stats w)
        | inr keep ↦ ground (arith, write_dead_letter_counts letter stats w)
      ]

  handle_record-Round :
      (r : PolledRecord) (p : Progress W)
      → (r.offset ≡ none) ⊎ (r.offset ≡ some p.next_offset)
      → Round p (handle_record py procs trade_date r p).0 (handle_record py procs trade_date r p).1
  unfolding handle_record
  handle_record-Round r p follows =
      choose (validate_and_process py procs trade_date p.worker.topic r.entry p.world).0
    where
      w : W
      w = (validate_and_process py procs trade_date p.worker.topic r.entry p.world).1

      after_outcome : Result (List Fields × List Fields) → Progress W × Bool
      after_outcome o = elim o [
        | ok output ↦ (succeed py procs trade_date r output (record p { world = w }), true)
        | raise e ↦
            (give_up py procs trade_date r e (record p { world = w }), p.worker.skip_bad_records)
      ]

      choose :
          (o : Result (List Fields × List Fields)) → Round p (after_outcome o).0 (after_outcome o).1
      choose (ok output) = succeed-Round r output p w follows
      choose (raise e) = give_up-Round r e p w follows

  -- What a run of the loop over `n` records leaves.
  record Loop (n : ℕ) (p q : Progress W) : Type 0 where
    setup :
        (q.worker.topic ≡ p.worker.topic) × (q.worker.skip_bad_records ≡ p.worker.skip_bad_records)
    offset : q.next_offset + passed p.worker ≡ p.next_offset + passed q.worker
    commits :
        (q.should_commit ≡ true)
        ⊎ ((q.next_offset ≡ p.next_offset) × (q.should_commit ≡ p.should_commit))
    ended :
        (passed q.worker ≡ passed p.worker + n)
        ⊎ ((p.worker.skip_bad_records ≡ false)
            × (passed q.worker + 1 ≤ passed p.worker + n)
            × (q.worker.stats.failed ≡ p.worker.stats.failed + 1))

  joined :
      {n : ℕ} {go : Bool} (p q s : Progress W)
      → go ≡ true
      → Round p q go
      → Loop n q s
      → Loop (suc n) p s
  joined p q s goes round rest = record {
    setup = (rest.setup.0 ∙ round.setup.0, rest.setup.1 ∙ round.setup.1);
    offset = omega arith;
    commits = ground arith;
    ended = ground (arith, round.goes goes);
  }

  stopped : {n : ℕ} {go : Bool} (p q : Progress W) → go ≡ false → Round p q go → Loop (suc n) p q
  stopped p q stops round = record {
    setup = round.setup;
    offset = round.offset;
    commits = ground arith;
    ended = ground (arith, round.stops stops);
  }

  handle_records-Loop :
      (rs : List PolledRecord) (p : Progress W)
      → Sequential p.next_offset rs
      → Loop (length rs) p (handle_records py procs trade_date rs p)
  unfolding handle_records
  handle_records-Loop [] p h = record {
    setup = (refl, refl);
    offset = omega arith;
    commits = inr (refl, refl);
    ended = inl (omega arith);
  }
  handle_records-Loop (r ∷ rs) p h =
      let q = (handle_record py procs trade_date r p).0 in
      let round = handle_record-Round r p h.0 in
      elim (Bool-cases (handle_record py procs trade_date r p).1) [
        | inl goes ↦
            let next : q.next_offset ≡ p.next_offset + 1 = omega (arith, round.goes goes) in
            let rest = handle_records-Loop rs q (subst (λ n. Sequential n rs) (sym next) h.1) in
            rw (goes, handle_records)
              (joined p q (handle_records py procs trade_date rs q) goes round rest)
        | inr stops ↦ rw (stops, handle_records) (stopped p q stops round)
      ]

  module _ {C : Type 0} (consumer : EventConsumer C) where
    -- If the polled records that are taken follow one another from the committed offset on, or carry
    -- no offset, then the committed offset advances by as many as the passed records, which are those
    -- processed and, if bad records are skipped, those that failed; and every record taken is passed,
    -- unless bad records are not skipped and one has failed.
    pub poll-offset :
        (max_records : Option ℕ) (worker : RawEventConsumerWorker) (c : C) (w : W)
        → Sequential (consumer.committed_offset worker.topic c) (
            limited max_records
              (consumer.poll worker.topic (consumer.committed_offset worker.topic c) c))
        → (consumer.committed_offset worker.topic
                (poll_and_process py procs trade_date consumer max_records worker c w).2
              + passed worker
            ≡ consumer.committed_offset worker.topic c
              + passed (poll_and_process py procs trade_date consumer max_records worker c w).1)
          × ((passed (poll_and_process py procs trade_date consumer max_records worker c w).1
                ≡ passed worker
                  + length (
                      limited max_records
                        (consumer.poll worker.topic (consumer.committed_offset worker.topic c) c)))
              ⊎ ((worker.skip_bad_records ≡ false)
                  × ((poll_and_process py procs trade_date consumer max_records worker c
                        w).1.stats.failed
                      ≡ worker.stats.failed + 1)))
    unfolding poll_and_process
    poll-offset max_records worker c w h =
        let offset = consumer.committed_offset worker.topic c in
        let start : Progress W = record {
          worker = record worker { last_terminal_messages = [] };
          world = w;
          processed_events = [];
          next_offset = offset;
          should_commit = false;
        } in
        let records = limited max_records (consumer.poll worker.topic offset c) in
        let loop = handle_records-Loop records start h in
        ground (
          arith,
          loop.setup,
          loop.offset,
          loop.commits,
          loop.ended,
          consumer.committed_offset-commit worker.topic
              (handle_records py procs trade_date records start).next_offset c,
        )
