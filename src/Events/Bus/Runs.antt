-- ===== src/Events/Bus/Runs.antt =====
-- pkg/event_bus/bus.go: sequences of the operations of a bus, with the steps of its goroutines.
use distributed_workflow_orc.Prelude.{
  ℕ, ◌≡◌, ◌≤◌, refl, sym, ap, subst, ◌∙◌, true, Option, none, some, List, [], ◌∷◌, String, arith,
  length, if◌then◌else◌, ◌==◌, All, Bool-cases, List-cases, inl, inr,
}
use distributed_workflow_orc.Events.Bus.{
  Subscriber, Bus, new_bus, subscribe, unsubscribe, publish, shutdown, dispatch, has_id,
  DistinctIds, IsValid, subscribe-IsValid, dispatch-IsValid, without-gone, without-queues,
  try_send-le,
}

module _ (Event Handler : Type 0) where
  -- A step of `startSubscriber` for the subscriber with an id: it takes the first event of its queue,
  -- for its handler.
  unfoldable pub receive_by :
      String
      → List (Subscriber Event Handler)
      → List (Subscriber Event Handler) × Option (Handler × Event)
  receive_by id [] = ([], none)
  receive_by id (sub ∷ subs) =
      let (rest, handled) = receive_by id subs in
      if sub.id == id
      then elim sub.queue [
        | [] ↦ (sub ∷ subs, none)
        | event ∷ events ↦ (record sub { queue = events } ∷ subs, some (sub.handler, event))
      ]
      else (sub ∷ rest, handled)

  pub data Op : Type 0 where
    op_subscribe : String → Handler → Op
    op_unsubscribe op_receive : String → Op
    op_publish : Event → Op
    op_dispatch op_shutdown : Op

  unfoldable pub operate : Op → Bus Event Handler → Bus Event Handler
  unfolding subscribe unsubscribe publish dispatch shutdown receive_by
  operate (op_subscribe id handler) b = (subscribe Event Handler id handler b).0
  operate (op_unsubscribe id) b = unsubscribe Event Handler id b
  operate (op_receive id) b = record b { subscribers = (receive_by id b.subscribers).0 }
  operate (op_publish event) b = publish Event Handler event b
  operate op_dispatch b = dispatch Event Handler b
  operate op_shutdown b = shutdown Event Handler b

  unfoldable pub operate_all : List Op → Bus Event Handler → Bus Event Handler
  unfolding operate
  operate_all [] b = b
  operate_all (op ∷ ops) b = operate_all ops (operate op b)

  has_id-receive_by :
      (id j : String) (subs : List (Subscriber Event Handler))
      → has_id Event Handler j (receive_by id subs).0 ≡ has_id Event Handler j subs
  unfolding receive_by
  has_id-receive_by id j [] = refl
  has_id-receive_by id j (sub ∷ subs) = elim (Bool-cases (sub.id == id)) [
    | inr other ↦ rw (other, receive_by) (rw (has_id-receive_by id j subs) refl)
    | inl own ↦ elim (List-cases sub.queue) [
      | inl empty ↦ ground arith
      | inr (event, events, e) ↦ ground arith
    ]
  ]

  receive_by-empty :
      (id : String) (sub : Subscriber Event Handler) (subs : List (Subscriber Event Handler))
      → (sub.id == id) ≡ true
      → sub.queue ≡ []
      → (receive_by id (sub ∷ subs)).0 ≡ sub ∷ subs
  unfolding receive_by
  receive_by-empty id sub subs own empty = ground arith

  receive_by-valid :
      (id : String) (subs : List (Subscriber Event Handler))
      → DistinctIds Event Handler subs
      → All (λ sub. length sub.queue ≤ 128) subs
      → DistinctIds Event Handler (receive_by id subs).0
        × All (λ sub. length sub.queue ≤ 128) (receive_by id subs).0
  unfolding receive_by
  receive_by-valid id [] distinct queues = (tt, tt)
  receive_by-valid id (sub ∷ subs) distinct queues = elim (Bool-cases (sub.id == id)) [
    | inr other ↦
        let (rest, rest_queues) = receive_by-valid id subs distinct.1 queues.1 in
        rw (other, receive_by)
          ((has_id-receive_by id sub.id subs ∙ distinct.0, rest), (queues.0, rest_queues))
    | inl own ↦ elim (List-cases sub.queue) [
      | inl empty ↦ rw (receive_by-empty id sub subs own empty) (distinct, queues)
      | inr (event, events, e) ↦
          rw (own, receive_by) (rw e (distinct, (omega (arith, queues.0, ap length e), queues.1)))
    ]
  ]

  unsubscribe-IsValid :
      (id : String) (b : Bus Event Handler)
      → IsValid Event Handler b
      → IsValid Event Handler (unsubscribe Event Handler id b)
  unfolding unsubscribe
  unsubscribe-IsValid id b h = record {
    distinct = (without-gone Event Handler id b.subscribers h.distinct).1;
    fits = h.fits;
    queues = without-queues Event Handler id b.subscribers h.queues;
  }

  publish-IsValid :
      (event : Event) (b : Bus Event Handler)
      → IsValid Event Handler b
      → IsValid Event Handler (publish Event Handler event b)
  unfolding publish
  publish-IsValid event b h = elim (Bool-cases b.stopped) [
    | inl over ↦ subst (IsValid Event Handler) (sym (stopped over)) h
    | inr running ↦
        rw (running, publish)
          (record {
            distinct = h.distinct;
            fits = try_send-le Event Handler b.capacity event b.ch h.fits;
            queues = h.queues;
          })
  ]
    where
      stopped : b.stopped ≡ true → publish Event Handler event b ≡ b
      stopped over = ground arith

  operate-IsValid :
      (op : Op) (b : Bus Event Handler)
      → IsValid Event Handler b
      → IsValid Event Handler (operate op b)
  unfolding operate shutdown
  operate-IsValid (op_subscribe id handler) b h = subscribe-IsValid Event Handler id handler b h
  operate-IsValid (op_unsubscribe id) b h = unsubscribe-IsValid id b h
  operate-IsValid (op_publish event) b h = publish-IsValid event b h
  operate-IsValid op_dispatch b h = dispatch-IsValid Event Handler b h
  operate-IsValid op_shutdown b h = record {
    distinct = h.distinct;
    fits = h.fits;
    queues = h.queues;
  }
  operate-IsValid (op_receive id) b h =
      let (distinct, queues) = receive_by-valid id b.subscribers h.distinct h.queues in
      record { distinct = distinct; fits = h.fits; queues = queues }

  operate_all-IsValid :
      (ops : List Op) (b : Bus Event Handler)
      → IsValid Event Handler b
      → IsValid Event Handler (operate_all ops b)
  unfolding operate_all
  operate_all-IsValid [] b h = h
  operate_all-IsValid (op ∷ ops) b h =
      operate_all-IsValid ops (operate op b) (operate-IsValid op b h)

  -- Whatever is done with a new bus, by its users and its goroutines, no two subscribers have one id,
  -- and no buffer, its own or a subscriber's, holds more than its size.
  pub operate_all-new_IsValid :
      (capacity : ℕ) (ops : List Op)
      → IsValid Event Handler (operate_all ops (new_bus Event Handler capacity))
  unfolding new_bus
  operate_all-new_IsValid capacity ops =
      operate_all-IsValid ops (new_bus Event Handler capacity)
        (record { distinct = tt; fits = omega arith; queues = tt })
