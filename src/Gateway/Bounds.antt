-- ===== src/Gateway/Bounds.antt =====
-- The size of a client's queue and the balance of its counters.
use lynx_monitor.Prelude.{
  ℕ, ◌+◌, ◌≤◌, ◌≡◌, refl, Option, none, some, List, [], ◌∷◌, ◌++◌, length, ltb, length-append,
  arith, inl, inr, Bool-cases, not, ap, min, ◌-◌, ◌&&◌,
}
use lynx_monitor.Gateway.{
  Message, MessageType, GatewayClientQueue, make_room, append, enqueue_new, enqueue, drain_from,
  drain, is_alert, is_critical, same_stream, message_symbol,
}
use lynx_monitor.Gateway.Scan.{delete_first-cases, replace_last-cases}

-- The counters account for every message: `out` messages have been drained.
pub record IsBalanced {ℓ} {P : Type ℓ} (out : ℕ) (c : GatewayClientQueue P) : Type 0 where
  pub bounded : length c.queue ≤ c.max_size
  pub balanced :
      c.stats.enqueued ≡ out + length c.queue + c.stats.alert_overflow + c.stats.critical_overflow
  pub displaced : c.stats.alert_overflow + c.stats.critical_overflow ≤ c.stats.dropped

module _ {ℓ} {P : Type ℓ} where
  -- What is drained and what stays make up the queue, in order.
  drain_from_lem :
      (n : ℕ) (limit : Option ℕ) (xs : List (Message P))
      → (drain_from n limit xs).0 ++ (drain_from n limit xs).1 ≡ xs
  unfolding drain_from
  drain_from_lem n limit [] = refl
  drain_from_lem n limit (x ∷ xs) = ground (arith, drain_from_lem (n + 1) limit xs)

  drain_from_all : (n : ℕ) (xs : List (Message P)) → (drain_from n none xs).0 ≡ xs
  unfolding drain_from
  drain_from_all n [] = refl
  drain_from_all n (x ∷ xs) = ground (arith, drain_from_all (n + 1) xs)

  drain_from_limit :
      (n k : ℕ) (xs : List (Message P))
      → length (drain_from n (some k) xs).0 ≡ min (k - n) (length xs)
  unfolding drain_from
  drain_from_limit n k [] = omega arith
  drain_from_limit n k (x ∷ xs) = elim (Bool-cases (ltb n k)) [
    | inl e ↦ ground (arith, drain_from_limit (n + 1) k xs)
    | inr e ↦ ground arith
  ]

module _ {ℓ} {P : Type ℓ} {out : ℕ} where
  make_room-IsBalanced :
      (t : MessageType) (c : GatewayClientQueue P)
      → IsBalanced out c
      → IsBalanced out (make_room t c).0
  unfolding make_room
  make_room-IsBalanced t c h = ground (
    arith,
    delete_first-cases (λ q. not (is_alert q.type)) c.queue,
    delete_first-cases (λ q. not (is_critical q.type) && not (is_alert q.type)) c.queue,
  )

  append-IsBalanced :
      (t : MessageType) (m : Message P) (c : GatewayClientQueue P)
      → IsBalanced out c
      → IsBalanced out (append t m c)
  unfolding append
  append-IsBalanced t m c h = ground (arith, length-append c.queue (m ∷ []))

  enqueue_new-IsBalanced :
      (t : MessageType) (m : Message P) (c : GatewayClientQueue P)
      → IsBalanced out c
      → IsBalanced out (enqueue_new t m c)
  unfolding enqueue_new
  enqueue_new-IsBalanced t m c h =
      ground (arith, make_room-IsBalanced t c, append-IsBalanced t m (make_room t c).0)

  -- Any message keeps the bound and the balance, whatever becomes of it.
  pub enqueue-IsBalanced :
      (m : Message P) (c : GatewayClientQueue P) → IsBalanced out c → IsBalanced out (enqueue m c)
  unfolding enqueue
  enqueue-IsBalanced m c h = ground (
    arith,
    replace_last-cases (same_stream m.type (message_symbol m)) m c.queue,
    enqueue_new-IsBalanced m.type m c,
  )

  drain-IsBalanced :
      (limit : Option ℕ) (c : GatewayClientQueue P)
      → IsBalanced out c
      → IsBalanced (out + length (drain limit c).0) (drain limit c).1
  unfolding drain
  drain-IsBalanced limit c h =
      let out' = drain_from 0 limit c.queue in
      omega (arith, length-append out'.0 out'.1, ap length (drain_from_lem 0 limit c.queue))

-- What `drain` returns, followed by what it leaves, is the queue; it returns the whole queue without a
-- limit, and with a limit the smaller of the limit and the length.
pub drain_lem {ℓ} : {P : Type ℓ} (limit : Option ℕ) (c : GatewayClientQueue P) → record {
  order : (drain limit c).0 ++ (drain limit c).1.queue ≡ c.queue;
  count :
      length (drain limit c).0
      ≡ elim limit [ none ↦ length c.queue | some k ↦ min k (length c.queue) ];
}
unfolding drain
drain_lem none c = record {
  order = drain_from_lem 0 none c.queue;
  count = ap length (drain_from_all 0 c.queue);
}
drain_lem (some k) c = record {
  order = drain_from_lem 0 (some k) c.queue;
  count = omega (arith, drain_from_limit 0 k c.queue);
}

-- What a session does with its queue: enqueue a message, or drain for a flush.
pub data Use {ℓ} (P : Type ℓ) : Type ℓ where
  offer : Message P → Use P
  flush : Option ℕ → Use P

unfoldable pub run_uses {ℓ} :
    {P : Type ℓ} → List (Use P) → ℕ → GatewayClientQueue P → ℕ × GatewayClientQueue P
run_uses [] out c = (out, c)
run_uses (offer m ∷ us) out c = run_uses us out (enqueue m c)
run_uses (flush limit ∷ us) out c = let (ms, c') = drain limit c in run_uses us (out + length ms) c'

-- After any sequence of enqueues and drains, from a queue that is balanced: the queue is within its
-- size, and the messages counted as enqueued are those drained, those still queued, and those that
-- alerts and critical responses displaced, which are among those counted as dropped.
pub run_uses-IsBalanced {ℓ} :
    {P : Type ℓ} (us : List (Use P)) (out : ℕ) (c : GatewayClientQueue P)
    → IsBalanced out c
    → IsBalanced (run_uses us out c).0 (run_uses us out c).1
unfolding run_uses
run_uses-IsBalanced [] out c h = h
run_uses-IsBalanced (offer m ∷ us) out c h =
    run_uses-IsBalanced us out (enqueue m c) (enqueue-IsBalanced m c h)
run_uses-IsBalanced (flush limit ∷ us) out c h =
    run_uses-IsBalanced us (out + length (drain limit c).0) (drain limit c).1
      (drain-IsBalanced limit c h)
