-- ===== src/RawQueue/Runs.antt =====
-- Whole runs of the queue: what the callback and the reader see of a sequence of calls.
use lynx_monitor.Prelude.{
  ℕ, ◌≡◌, refl, Text, Bool, Option, List, [], ◌∷◌, ◌++◌, if◌then◌else◌, text_equality, arith, ok,
}
use lynx_monitor.Prelude.Dict.{get}
use lynx_monitor.RawQueue.{
  BoundedRawEventQueue, init, push, pop, RawCallback, raw_event_queue_coalesce_key,
}
use lynx_monitor.RawQueue.Refinement.{offer, count_marker, view}
use lynx_monitor.RawQueue.Contract.{
  IsValid, contents, take_first, push_keyed-IsValid, push_keyed-contents, pop-contents, pop-IsValid,
  push_keyed-dropped, max_size-push_keyed,
}

module _ {ℓ} {P : Type ℓ} where
  -- `push` keeps the deque and the dict matched, and the bound.
  pub push-IsValid :
      (e : RawCallback P) (q : BoundedRawEventQueue (RawCallback P))
      → IsValid q
      → IsValid (push e q).0
  unfolding push
  push-IsValid e q = push_keyed-IsValid (raw_event_queue_coalesce_key e) e q

  -- On a valid queue `push` does to the contents what `offer` does: a payload whose key waits takes the
  -- place of the waiting one, and any other goes to the end if there is room and is refused if not.
  pub push-contents :
      (e : RawCallback P) (q : BoundedRawEventQueue (RawCallback P))
      → IsValid q
      → (contents (push e q).0, (push e q).1)
        ≡ offer q.max_size (raw_event_queue_coalesce_key e) e (contents q)
  unfolding push
  push-contents e q = push_keyed-contents (raw_event_queue_coalesce_key e) e q

  -- A refused payload is recorded as dropped, and an accepted one leaves the record as it is.
  pub push-dropped :
      (e : RawCallback P) (q : BoundedRawEventQueue (RawCallback P))
      → (push e q).0.dropped ≡ (if (push e q).1 then q.dropped else q.dropped ++ e ∷ [])
  unfolding push
  push-dropped e q = push_keyed-dropped (raw_event_queue_coalesce_key e) e q

pub data Call {ℓ} (P : Type ℓ) : Type ℓ where
  put_event : RawCallback P → Call P
  take_event : Call P

pub data Reply {ℓ} (P : Type ℓ) : Type ℓ where
  accepted : Bool → Reply P
  taken : Option (RawCallback P) → Reply P

-- A queue as `init` makes it.
abbrev pub new_queue {ℓ} : (E : Type ℓ) → ℕ → BoundedRawEventQueue E
new_queue E n = record { max_size = n; items = []; coalesced_items = []; dropped = [] }

module _ {ℓ} {P : Type ℓ} where
  unfoldable pub replies : List (Call P) → BoundedRawEventQueue (RawCallback P) → List (Reply P)
  unfolding push pop
  replies [] q = []
  replies (put_event e ∷ cs) q = accepted (push e q).1 ∷ replies cs (push e q).0
  replies (take_event ∷ cs) q = taken (pop q).0 ∷ replies cs (pop q).1

  -- The replies of a plain list of at most `max_size` keyed payloads.
  unfoldable pub list_replies :
      ℕ → List (Call P) → List (Option Text × RawCallback P) → List (Reply P)
  unfolding raw_event_queue_coalesce_key
  list_replies max_size [] xs = []
  list_replies max_size (put_event e ∷ cs) xs =
      accepted (offer max_size (raw_event_queue_coalesce_key e) e xs).1
      ∷ list_replies max_size cs (offer max_size (raw_event_queue_coalesce_key e) e xs).0
  list_replies max_size (take_event ∷ cs) xs =
      taken (take_first xs).0 ∷ list_replies max_size cs (take_first xs).1

  max_size-push :
      (e : RawCallback P) (q : BoundedRawEventQueue (RawCallback P))
      → (push e q).0.max_size ≡ q.max_size
  unfolding push
  max_size-push e q = max_size-push_keyed (raw_event_queue_coalesce_key e) e q

  max_size-pop : (q : BoundedRawEventQueue (RawCallback P)) → (pop q).1.max_size ≡ q.max_size
  unfolding pop
  max_size-pop q = refl

  replies_of_contents :
      (cs : List (Call P)) (q : BoundedRawEventQueue (RawCallback P))
      → IsValid q
      → replies cs q ≡ list_replies q.max_size cs (contents q)
  unfolding replies list_replies
  replies_of_contents [] q v = refl
  replies_of_contents (put_event e ∷ cs) q v =
      rw
        (
          ← push-contents e q v,
          replies_of_contents cs (push e q).0 (push-IsValid e q v),
          max_size-push e q,
        )
        refl
  replies_of_contents (take_event ∷ cs) q v =
      rw (← pop-contents q v, replies_of_contents cs (pop q).1 (pop-IsValid q v), max_size-pop q)
        refl

  -- `init` refuses the size 0, and otherwise makes a queue that is valid and empty.
  pub init-IsValid :
      (n : ℕ) (q : BoundedRawEventQueue (RawCallback P))
      → init n ≡ ok q
      → IsValid q × (contents q ≡ []) × (q.max_size ≡ n)
  unfolding init count_marker get view
  init-IsValid n q made =
      let same : q ≡ new_queue (RawCallback P) n = ground arith in
      rw same (record { match = record { matched = λ k. refl }; bounded = omega arith }, refl, refl)

  -- A queue made by `init` gives every sequence of `push` and `pop` calls the replies that a plain
  -- list of at most `max_size` keyed payloads gives, in which a payload whose key waits takes the
  -- place of the waiting one, and any other is refused when the list is full.
  pub replies_lem :
      (cs : List (Call P)) (n : ℕ) (q : BoundedRawEventQueue (RawCallback P))
      → init n ≡ ok q
      → replies cs q ≡ list_replies n cs []
  replies_lem cs n q made =
      let (v, empty, size) = init-IsValid n q made in
      rw (← size, ← empty) (replies_of_contents cs q v)
