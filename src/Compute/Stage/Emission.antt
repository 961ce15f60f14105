-- ===== src/Compute/Stage/Emission.antt =====
-- What the steps of a handler do to the numbers of a symbol and to the bus.
use lynx_monitor.Prelude.{
  ℕ, ◌+◌, ◌≤◌, Text, false, none, some, List, [], ◌∷◌, ◌++◌, ◌≡◌, refl, sym, ap, subst, ◌∙◌, length,
  codes, text_eq, text_equality, Result, ok, raise, arith, if◌then◌else◌,
}
use lynx_monitor.Prelude.Dict.{Dict, put, get-put}
use lynx_monitor.Value.{int, pos, str, Fields, find, get_value}
use lynx_monitor.Contracts.{Python, processed_topic}
use lynx_monitor.Contracts.Events.{
  make_processed_market_event, validate_processed_market_event, envelope, or_now,
}
use lynx_monitor.Contracts.Validated.{checked}
use lynx_monitor.Bus.{EventBus}
use lynx_monitor.Runtime.RawEvents.{number_at}
use lynx_monitor.Compute.Edit.{Edit}
use lynx_monitor.Compute.Stage.{
  OctopusComputeV2, Job, Handler, proceed, edit, next_number, cache_set_terminal_snapshot,
  publish_processed, note_event, cached, mark_redis_degraded, sent, send,
}

-- A handler has ended: what it returned and left is such, or what it left when it raised.
pub data Ends {B K A : Type 0} (Q : A → Job B K → Type 0) (R : Job B K → Type 0)
    : Result A × Job B K → Type 0 where
  returned : {a : A} {j : Job B K} → Q a j → Ends Q R (ok a, j)
  raised : {e : _} {j : Job B K} → R j → Ends Q R (raise e, j)

module _ {B K : Type 0} where
  pub Ends-proceed :
      {A A' : Type 0} {Q : A → Job B K → Type 0} (Q' : A' → Job B K → Type 0) {R : Job B K → Type 0}
      (f : A → Handler B K A') {r : Result A × Job B K}
      → Ends Q R r
      → ((a : A) (j : Job B K) → Q a j → Ends Q' R (f a j))
      → Ends Q' R (proceed f r)
  unfolding proceed
  Ends-proceed Q' f (returned q) next = next _ _ q
  Ends-proceed Q' f (raised r) next = raised r

processed_seq :
    (py : Python) (fresh now result_type symbol source source_ts : Text) (payload : Fields)
    (seq : ℕ) (event : Fields)
    → make_processed_market_event py fresh now result_type symbol source payload seq
        (some source_ts)
        none
        none
        none
      ≡ ok event
    → get_value event "seq" ≡ int (pos seq)
unfolding make_processed_market_event find
processed_seq py fresh now result_type symbol source source_ts payload seq event h =
    let draft =
      envelope py "result_type" (str result_type) (or_now py none fresh) symbol source
        (or_now py (some source_ts) now) (or_now py none now) payload seq in
    let (valid, same) = checked draft event (validate_processed_market_event py draft) h in
    ap (λ e. get_value e "seq") (sym same)

module _ {B : Type 0} (bus : EventBus B) (symbol : Text) where
  -- The events were published one after the other with the numbers from `n + 1` on, and nothing else was.
  abbrev pub Emitted : List Fields → ℕ → B → B → Type 0
  Emitted [] n b after = after ≡ b
  Emitted (e ∷ es) n b after =
      ((bus.publish processed_topic symbol e b).0 ≡ ok tt)
      × ((get_value e "seq" ≡ int (pos (n + 1)))
          × Emitted es (n + 1) (bus.publish processed_topic symbol e b).1 after)

  Emitted-append :
      (es : List Fields) (e : Fields) (n m : ℕ) (b after : B)
      → Emitted es n b after
      → (bus.publish processed_topic symbol e after).0 ≡ ok tt
      → get_value e "seq" ≡ int (pos m)
      → m ≡ n + length es + 1
      → Emitted (es ++ (e ∷ [])) n b (bus.publish processed_topic symbol e after).1
  Emitted-append [] e n m b after h o s k = (
    ap (λ b'. (bus.publish processed_topic symbol e b').0) (sym h) ∙ o,
    (
      s ∙ ap (λ i. int (pos i)) (omega arith),
      ap (λ b'. (bus.publish processed_topic symbol e b').1) h,
    ),
  )
  Emitted-append (f ∷ es) e n m b after h o s k = (
    h.0,
    (
      h.1.0,
      Emitted-append es e (n + 1) m (bus.publish processed_topic symbol f b).1 after h.1.1 o s
          (omega arith),
    ),
  )

number_at-put :
    (d : Dict Text ℕ) (k t : Text) (v : ℕ)
    → number_at (put d k v) t ≡ (if text_eq k t then v else number_at d t)
number_at-put d k t v = ground (arith, get-put d k t v)

number_at-put_other :
    (d : Dict Text ℕ) (k t : Text) (v : ℕ)
    → text_eq k t ≡ false
    → number_at (put d k v) t ≡ number_at d t
number_at-put_other d k t v ne = ground (arith, number_at-put d k t v)

number_at-put_self : (d : Dict Text ℕ) (k : Text) (v : ℕ) → number_at (put d k v) k ≡ v
number_at-put_self d k v = ground (arith, number_at-put d k k v, text_equality.same_iff k k)

-- The stage of a job, against the stage at its start
module _ {B K : Type 0} (bus : EventBus B) (symbol : Text) (start : OctopusComputeV2 B K) where
  abbrev pub first : ℕ
  first = number_at start.seq_by_symbol symbol

  abbrev pub OthersKept : Job B K → Type 0
  OthersKept j =
      (t : Text)
      → text_eq symbol t ≡ false
      → number_at j.stage.seq_by_symbol t ≡ number_at start.seq_by_symbol t

  -- `es` were emitted since, and the symbol has taken `k` numbers.
  abbrev pub After : List Fields → ℕ → Job B K → Type 0
  After es k j =
      Emitted bus symbol es first start.bus j.stage.bus
      × ((number_at j.stage.seq_by_symbol symbol ≡ first + k) × OthersKept j)

  -- No number was given back.
  abbrev pub Numbered : Job B K → Type 0
  Numbered j = (first ≤ number_at j.stage.seq_by_symbol symbol) × OthersKept j

  pub After-Numbered : (es : List Fields) (k : ℕ) (j : Job B K) → After es k j → Numbered j
  After-Numbered es k j h = (omega (arith, h.1.0), h.1.1)

  pub edit-Ends :
      {A : Type 0} (m : Edit A) (es : List Fields) (k : ℕ) (j : Job B K)
      → After es k j
      → Ends (λ (a : A) j'. After es k j') Numbered (edit m j)
  unfolding edit
  edit-Ends {A} m es k j h = edited (m j.state)
    where
      edited :
          (r : Result A × Fields)
          → Ends (λ (a : A) j'. After es k j') Numbered (r.0, record j { state = r.1 })
      edited (ok a, s) = returned h
      edited (raise e, s) = raised (After-Numbered es k j h)

  pub next_number-Ends :
      (es : List Fields) (k : ℕ) (j : Job B K)
      → After es k j
      → Ends (λ seq j'. (seq ≡ first + k + 1) × After es (k + 1) j') Numbered (next_number symbol j)
  unfolding next_number
  next_number-Ends es k j h = returned (
    omega (arith, h.1.0),
    (
      h.0,
      (
        number_at-put_self j.stage.seq_by_symbol symbol (number_at j.stage.seq_by_symbol symbol + 1)
            ∙ omega (arith, h.1.0),
        λ t ne.
            number_at-put_other j.stage.seq_by_symbol symbol t
              (number_at j.stage.seq_by_symbol symbol + 1) ne
            ∙ h.1.1 t ne,
      ),
    ),
  )

  pub cache_set_terminal_snapshot-Ends :
      (py : Python) (set_terminal_snapshot : Text → Text → Fields → K → Result (Unit {0}) × K)
      (trade_date s : Text) (es : List Fields) (k : ℕ) (j : Job B K)
      → After es k j
      → Ends
          (λ (u : Unit {0}) j'. After es k j')
          Numbered
          (cache_set_terminal_snapshot py set_terminal_snapshot trade_date s j)
  unfolding cache_set_terminal_snapshot mark_redis_degraded
  cache_set_terminal_snapshot-Ends py set_terminal_snapshot trade_date s es k j h =
      returned (caught (set_terminal_snapshot trade_date s j.state j.stage.cache))
    where
      caught :
          (r : Result (Unit {0}) × K)
          → After es k (cached py r.0 (record j { stage = record j.stage { cache = r.1 } }))
      caught (ok u, c) = ground (arith, h)
      caught (raise e, c) = h

  pub note_event-Ends :
      (py : Python) (fresh_id : Text → Text → ℕ → Text) (now_iso source_ts : Text)
      (es : List Fields) (k : ℕ) (j : Job B K)
      → After es k j
      → Ends
          (λ (u : Unit {0}) j'. After es k j')
          Numbered
          (note_event py bus fresh_id now_iso symbol source_ts j)
  unfolding note_event
  note_event-Ends py fresh_id now_iso source_ts es k j h = returned h

  pub publish_processed-Ends :
      (py : Python) (fresh_id : Text → Text → ℕ → Text) (now_iso result_type source_ts : Text)
      (seq : ℕ) (payload : Fields) (es : List Fields) (k : ℕ) (j : Job B K)
      → seq ≡ first + length es + 1
      → After es k j
      → Ends
          (λ event j'. After (es ++ (event ∷ [])) k j')
          Numbered
          (publish_processed py bus fresh_id now_iso result_type symbol seq source_ts payload j)
  unfolding publish_processed
  publish_processed-Ends py fresh_id now_iso result_type source_ts seq payload es k j n h =
      published
        (make_processed_market_event py (fresh_id result_type symbol seq) now_iso result_type symbol
          (codes "octopus") payload seq (some source_ts) none none none)
        (processed_seq py (fresh_id result_type symbol seq) now_iso result_type symbol
          (codes "octopus") source_ts payload seq)
    where
      sent_lem :
          (event : Fields) (r : Result (Unit {0}) × B)
          → bus.publish processed_topic symbol event j.stage.bus ≡ r
          → get_value event "seq" ≡ int (pos seq)
          → Ends
              (λ e j'. After (es ++ (e ∷ [])) k j')
              Numbered
              (sent py bus fresh_id now_iso event r j)
      sent_lem event (ok u, b) e s = returned (
        subst (λ b'. Emitted bus symbol (es ++ (event ∷ [])) first start.bus b') (ap (λ r. r.1) e)
            (Emitted-append bus symbol es event first seq start.bus j.stage.bus h.0
              (ap (λ r. r.0) e) s n),
        h.1,
      )
      sent_lem event (raise x, b) e s = raised (After-Numbered es k j h)

      published :
          (made : Result Fields)
          → ((event : Fields) → made ≡ ok event → get_value event "seq" ≡ int (pos seq))
          → Ends
              (λ event j'. After (es ++ (event ∷ [])) k j')
              Numbered
              (send py bus fresh_id now_iso symbol made j)
      published (ok event) s =
          sent_lem event (bus.publish processed_topic symbol event j.stage.bus) refl (s event refl)
      published (raise e) s = raised (After-Numbered es k j h)
