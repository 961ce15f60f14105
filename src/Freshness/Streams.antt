-- ===== src/Freshness/Streams.antt =====
-- What an event or a mark does to its own stream, to the other streams, and to the keys of the table.
use lynx_monitor.Prelude.{
  ◌≡◌, refl, Text, false, ◌||◌, Option, none, some, List, [], ◌∷◌, All, if◌then◌else◌, text_eq,
  text_eq_iff, text_equality, arith, Bool-cases, Option-cases, inl, inr, ap, sym, ◌∙◌, eq_refl,
}
use lynx_monitor.Prelude.Dict.{Dict, get, put, get-put}
use lynx_monitor.Value.{ℤ}
use lynx_monitor.RawQueue.{or_text}
use lynx_monitor.Freshness.{
  SymbolFreshness, SymbolFreshnessTracker, freshness_key, stream_id, state_of, store, settled,
  inherit_subscription, mark_subscribed, mark_unsubscribed, record_event, record_backlog,
}

-- Every state stands under the key of its own stream.
abbrev pub IsKeyed : Dict Text SymbolFreshness → Type 0
IsKeyed = All (λ e. e.0 ≡ stream_id e.1)

get-IsKeyed :
    (d : Dict Text SymbolFreshness) (k : Text) (s : SymbolFreshness)
    → IsKeyed d
    → get d k ≡ some s
    → k ≡ stream_id s
unfolding get
get-IsKeyed [] k s h found = ground arith
get-IsKeyed ((j, r) ∷ d) k s h found = elim (Bool-cases (text_eq j k)) [
  | inl e ↦ ground (arith, text_eq_iff j k, h.0)
  | inr e ↦ get-IsKeyed d k s h.1 (ground arith)
]

put-IsKeyed :
    (d : Dict Text SymbolFreshness) (k : Text) (s : SymbolFreshness)
    → IsKeyed d
    → k ≡ stream_id s
    → IsKeyed (put d k s)
unfolding put
put-IsKeyed [] k s h own = (own, tt)
put-IsKeyed ((j, r) ∷ d) k s h own = elim (Bool-cases (text_eq j k)) [
  | inl e ↦ rw e ((text_eq_iff j k).0 e ∙ own, h.1)
  | inr e ↦ rw e (h.0, put-IsKeyed d k s h.1 own)
]

module _ (symbol : Text) (period stream_kind : Option Text) where
  key_of_state :
      (t : SymbolFreshnessTracker)
      → IsKeyed t.state_by_symbol
      → freshness_key symbol period stream_kind ≡ stream_id (state_of symbol period stream_kind t)
  unfolding state_of stream_id
  key_of_state t h =
      elim (Option-cases (get t.state_by_symbol (freshness_key symbol period stream_kind))) [
        | inl e ↦ rw (e, state_of, stream_id) refl
        | inr (s, e) ↦
            rw (e, state_of)
              (get-IsKeyed t.state_by_symbol (freshness_key symbol period stream_kind) s h e)
      ]

  state_of-store :
      (s : SymbolFreshness) (t : SymbolFreshnessTracker) (other : Text) (p k : Option Text)
      → state_of other p k (store symbol period stream_kind s t) ≡ (
          if text_eq (freshness_key symbol period stream_kind) (freshness_key other p k)
          then s
          else state_of other p k t)
  unfolding state_of store
  state_of-store s t other p k = ground (
    arith,
    get-put t.state_by_symbol (freshness_key symbol period stream_kind) (freshness_key other p k) s,
  )

  store-IsKeyed :
      (s : SymbolFreshness) (t : SymbolFreshnessTracker)
      → IsKeyed t.state_by_symbol
      → stream_id s ≡ stream_id (state_of symbol period stream_kind t)
      → IsKeyed (store symbol period stream_kind s t).state_by_symbol
  unfolding store
  store-IsKeyed s t h same =
      put-IsKeyed t.state_by_symbol (freshness_key symbol period stream_kind) s h
        (key_of_state t h ∙ sym same)

stream_id-inherit_subscription :
    (symbol : Text) (s : SymbolFreshness) (t : SymbolFreshnessTracker)
    → stream_id (inherit_subscription symbol s t) ≡ stream_id s
unfolding inherit_subscription stream_id
stream_id-inherit_subscription symbol s t =
    elim (Option-cases (get t.state_by_symbol (freshness_key symbol none none))) [
      | inl e ↦ ground (arith, e)
      | inr (parent, e) ↦ ground (arith, e)
    ]

subscribed-inherit_subscription :
    (symbol : Text) (s : SymbolFreshness) (t : SymbolFreshnessTracker)
    → (inherit_subscription symbol s t).subscribed
      ≡ (s.subscribed || (state_of symbol none none t).subscribed)
unfolding inherit_subscription state_of
subscribed-inherit_subscription symbol s t =
    elim (Option-cases (get t.state_by_symbol (freshness_key symbol none none))) [
      | inl e ↦ ground (arith, e)
      | inr (parent, e) ↦ ground (arith, e)
    ]

-- The state that an event leaves.
abbrev after_event : Text → Text → Option Text → SymbolFreshness → SymbolFreshness
after_event now source_ts ingest_ts s =
    settled (record s {
      latest_event_at = some source_ts;
      latest_ingest_at = some (or_text ingest_ts now);
    })

record_event_stores :
    (now symbol source_ts : Text) (ingest_ts period stream_kind : Option Text)
    (t : SymbolFreshnessTracker)
    → record_event now symbol source_ts ingest_ts period stream_kind t
      ≡ store symbol period stream_kind
          (after_event now source_ts ingest_ts
            (inherit_subscription symbol (state_of symbol period stream_kind t) t))
          t
unfolding record_event
record_event_stores now symbol source_ts ingest_ts period stream_kind t = refl

-- What an event leaves behind in the table.
pub record IsRecorded (symbol source_ts : Text) (period stream_kind : Option Text)
    (before after : SymbolFreshnessTracker) : Type 0 where
  pub latest : (state_of symbol period stream_kind after).latest_event_at ≡ some source_ts
  pub healthy : (state_of symbol period stream_kind after).degraded ≡ false
  pub subscription : (state_of symbol period stream_kind after).subscribed ≡ (
      (state_of symbol period stream_kind before).subscribed
      || (state_of symbol none none before).subscribed)
  pub others :
      (other : Text) (p k : Option Text)
      → text_eq (freshness_key symbol period stream_kind) (freshness_key other p k) ≡ false
      → state_of other p k after ≡ state_of other p k before

-- An event leaves its stream with the event's time, not degraded, and subscribed exactly if it was or its
-- symbol is subscribed as a whole. Every stream under another key is as before.
pub record_event-IsRecorded :
    (now symbol source_ts : Text) (ingest_ts period stream_kind : Option Text)
    (t : SymbolFreshnessTracker)
    → IsRecorded symbol source_ts period stream_kind t
        (record_event now symbol source_ts ingest_ts period stream_kind t)
record_event-IsRecorded now symbol source_ts ingest_ts period stream_kind t =
    let s =
      after_event now source_ts ingest_ts
        (inherit_subscription symbol (state_of symbol period stream_kind t) t) in
    let key = freshness_key symbol period stream_kind in
    let own : state_of symbol period stream_kind (store symbol period stream_kind s t) ≡ s =
      state_of-store symbol period stream_kind s t symbol period stream_kind
      ∙ ap (λ b. if b then s else state_of symbol period stream_kind t) (eq_refl key) in
    rw (record_event_stores now symbol source_ts ingest_ts period stream_kind t) (record {
      latest = ap (λ r. r.latest_event_at) own;
      healthy = ap (λ r. r.degraded) own;
      subscription =
          ap (λ r. r.subscribed) own
          ∙ subscribed-inherit_subscription symbol (state_of symbol period stream_kind t) t;
      others = λ other p k differs.
          state_of-store symbol period stream_kind s t other p k
          ∙ ap (λ b. if b then s else state_of other p k t) differs;
    })

-- The calls that change the table.
pub data Update : Type 0 where
  subscribe unsubscribe : Text → Option Text → Option Text → Update
  event : Text → Text → Option Text → Option Text → Option Text → Update
  backlog : Text → ℤ → Option Text → Option Text → Update

unfoldable pub update : Text → Update → SymbolFreshnessTracker → SymbolFreshnessTracker
unfolding mark_subscribed mark_unsubscribed record_event record_backlog
update now (subscribe symbol p k) = mark_subscribed now symbol p k
update now (unsubscribe symbol p k) = mark_unsubscribed symbol p k
update now (event symbol source_ts ingest_ts p k) = record_event now symbol source_ts ingest_ts p k
update now (backlog symbol n p k) = record_backlog symbol n p k

unfoldable pub updates : List (Text × Update) → SymbolFreshnessTracker → SymbolFreshnessTracker
unfolding update
updates [] t = t
updates ((now, u) ∷ us) t = updates us (update now u t)

update-IsKeyed :
    (now : Text) (u : Update) (t : SymbolFreshnessTracker)
    → IsKeyed t.state_by_symbol
    → IsKeyed (update now u t).state_by_symbol
unfolding update stream_id
update-IsKeyed now (subscribe symbol p k) t h = store-IsKeyed symbol p k _ t h refl
update-IsKeyed now (unsubscribe symbol p k) t h = store-IsKeyed symbol p k _ t h refl
update-IsKeyed now (event symbol source_ts ingest_ts p k) t h =
    store-IsKeyed symbol p k _ t h (stream_id-inherit_subscription symbol (state_of symbol p k t) t)
update-IsKeyed now (backlog symbol n p k) t h =
    store-IsKeyed symbol p k _ t h (stream_id-inherit_subscription symbol (state_of symbol p k t) t)

-- After any sequence of marks, events and backlogs on a tracker in which every state stands under the key
-- that its own symbol, period and kind make, this is still so.
pub updates-IsKeyed :
    (us : List (Text × Update)) (t : SymbolFreshnessTracker)
    → IsKeyed t.state_by_symbol
    → IsKeyed (updates us t).state_by_symbol
unfolding updates
updates-IsKeyed [] t h = h
updates-IsKeyed ((now, u) ∷ us) t h = updates-IsKeyed us (update now u t) (update-IsKeyed now u t h)
