-- ===== src/Subscriptions/Cooldown.antt =====
-- How often a symbol is subscribed again.
use lynx_monitor.Prelude.{
  Text, true, Option, some, ◌≡◌, refl, ◌∙◌, text_eq_iff, text_equality, Result, ok, raise, arith,
}
use lynx_monitor.Prelude.Dict.{get, put, get-put}
use lynx_monitor.Pool.{contains}
use lynx_monitor.Freshness.{Report}
use lynx_monitor.Subscriptions.{
  Feed, Managed, called, or_failure, record_failure, should_resubscribe, resubscribe,
  resubscribe_round,
}

module _ {T W : Type 0} (feed : Feed T W) where
  -- The time of the last resubscription of a symbol
  abbrev pub last_at : Text → Managed T W → Option T
  last_at symbol x = get x.manager.last_resubscribe_at_by_symbol symbol

  called-last :
      (symbol : Text) (x : Managed T W) (r : Result (Unit {0}) × W)
      (f : Managed T W → Result (Unit {0}) × Managed T W)
      → ((y : Managed T W) → last_at symbol (f y).1 ≡ last_at symbol y)
      → last_at symbol (called x r f).1 ≡ last_at symbol x
  called-last symbol x (ok _, w) f h = h (record x { world = w })
  called-last symbol x (raise e, w) f h = refl

  or_failure-last :
      (symbol : Text) (r : Result (Unit {0}) × Managed T W)
      → last_at symbol (or_failure feed r).1 ≡ last_at symbol r.1
  unfolding or_failure record_failure
  or_failure-last symbol (ok _, x) = refl
  or_failure-last symbol (raise e, x) = refl

  resubscribe-last :
      (symbol other : Text) (x : Managed T W)
      → last_at other (resubscribe feed symbol x).1 ≡ last_at other x
  unfolding resubscribe
  resubscribe-last symbol other x =
      or_failure-last other _
      ∙ called-last other x (feed.unsubscribe symbol x.world) _ (λ y.
        called-last other y (feed.subscribe symbol y.world) _
          (λ z. called-last other z (feed.subscribe_symbol symbol z.world) _ (λ v. refl)))

  -- A round that finds its symbol subscribed and due notes the time, whether the feed then raises or not.
  due-last :
      (report : Report) (symbol : Text) (x : Managed T W)
      → contains x.manager.subscribed_symbols symbol ≡ true
      → (should_resubscribe feed symbol report (feed.now x.world) x.manager).0 ≡ true
      → last_at symbol (resubscribe_round feed report symbol x).1 ≡ some (feed.now x.world)
  unfolding resubscribe_round should_resubscribe
  due-last report symbol x subscribed is_due = ground (
    arith,
    subscribed,
    is_due,
    text_eq_iff symbol symbol,
    get-put x.manager.last_resubscribe_at_by_symbol symbol symbol (feed.now x.world),
    resubscribe-last symbol symbol (record x {
      manager = record x.manager {
        last_resubscribe_at_by_symbol =
            put x.manager.last_resubscribe_at_by_symbol symbol (feed.now x.world);
      };
    }),
  )

  cooling-idle :
      (report : Report) (symbol : Text) (t : T) (x : Managed T W)
      → last_at symbol x ≡ some t
      → feed.cooling (feed.now x.world) t ≡ true
      → resubscribe_round feed report symbol x ≡ (ok tt, x)
  unfolding resubscribe_round should_resubscribe
  cooling-idle report symbol t x last cooling = ground (arith, last, cooling)

  -- A round of the freshness check found its symbol subscribed and due, and so told the feed to subscribe it
  -- again, with whatever success. A later round of that symbol within the cooldown does nothing: it neither
  -- calls the feed nor changes the manager.
  pub resubscribe_round-resubscribe_round :
      (report later_report : Report) (symbol : Text) (x : Managed T W) (later : W)
      → contains x.manager.subscribed_symbols symbol ≡ true
      → (should_resubscribe feed symbol report (feed.now x.world) x.manager).0 ≡ true
      → feed.cooling (feed.now later) (feed.now x.world) ≡ true
      → let y : Managed T W = record (resubscribe_round feed report symbol x).1 { world = later } in
        resubscribe_round feed later_report symbol y ≡ (ok tt, y)
  resubscribe_round-resubscribe_round report later_report symbol x later subscribed is_due cooling =
      cooling-idle later_report symbol (feed.now x.world)
        (record (resubscribe_round feed report symbol x).1 { world = later })
        (due-last report symbol x subscribed is_due) cooling
