-- ===== src/Events/Bus.antt =====
-- pkg/event_bus: a bounded queue of events and the subscribers that they are handed on to. Each
-- operation holds the mutex. `Handler` and `Event` are arbitrary.
pub mod Runs
use distributed_workflow_orc.Prelude.{
  ap, All-append, ℕ, ◌≡◌, ◌≤◌, refl, ◌∙◌, inl, inr, Bool, true, false, ◌||◌, List, [], ◌∷◌, ◌++◌,
  String, arith, length, length-append, ltb, eqb, if◌then◌else◌, ◌==◌, eq_iff, Bool-cases,
  List-cases, All,
}

module _ (Event Handler : Type 0) where
  -- `queue` is the buffered channel of a subscriber.
  pub record Subscriber : Type 0 where
    pub id : String
    pub handler : Handler
    pub queue : List Event

  -- `ch` is the buffered channel of the bus, of the size `capacity`; `closed` are the subscribers
  -- whose channel `close` was closed, in order.
  pub record Bus : Type 0 where
    pub subscribers : List Subscriber
    pub capacity : ℕ
    pub ch : List Event
    pub stopped : Bool
    pub closed : List String

  unfoldable pub new_bus : ℕ → Bus
  new_bus capacity = record {
    subscribers = [];
    capacity = if eqb capacity 0 then 128 else capacity;
    ch = [];
    stopped = false;
    closed = [];
  }

  abbrev pub new_subscriber : String → Handler → Subscriber
  new_subscriber id handler = record { id = id; handler = handler; queue = [] }

  -- A send on a buffered channel of a size, which is dropped when the buffer is full.
  unfoldable pub try_send : ℕ → Event → List Event → List Event
  try_send size event buffer = if ltb (length buffer) size then buffer ++ event ∷ [] else buffer

  -- The loop of `Unsubscribe`: the subscribers without the first with the id, and whether there was.
  unfoldable pub without : String → List Subscriber → List Subscriber × List String
  without id [] = ([], [])
  without id (sub ∷ subs) =
      let (rest, closed) = without id subs in
      if sub.id == id then (subs, id ∷ []) else (sub ∷ rest, closed)

  unfoldable pub unsubscribe : String → Bus → Bus
  unfolding without
  unsubscribe id b =
      let (subs, closed) = without id b.subscribers in
      record b { subscribers = subs; closed = b.closed ++ closed }

  -- `Subscribe`: the bus, and whether no error is returned.
  unfoldable pub subscribe : String → Handler → Bus → Bus × Bool
  unfolding without
  subscribe id handler b =
      let (subs, closed) = without id b.subscribers in
      if b.stopped then (b, false) else (
        record b {
          subscribers = subs ++ new_subscriber id handler ∷ [];
          closed = b.closed ++ closed;
        },
        true,
      )

  unfoldable pub publish : Event → Bus → Bus
  unfolding try_send
  publish event b = if b.stopped then b else record b { ch = try_send b.capacity event b.ch }

  unfoldable pub shutdown : Bus → Bus
  shutdown b = record b { stopped = true }

  unfoldable pub deliver : Event → List Subscriber → List Subscriber
  unfolding try_send
  deliver event [] = []
  deliver event (sub ∷ subs) =
      record sub { queue = try_send 128 event sub.queue } ∷ deliver event subs

  -- A round of `dispatch` that takes an event from the channel.
  unfoldable pub dispatch : Bus → Bus
  unfolding deliver
  dispatch b = elim b.ch [
    | [] ↦ b
    | event ∷ rest ↦ record b { ch = rest; subscribers = deliver event b.subscribers }
  ]

  abbrev pub has_id : String → List Subscriber → Bool
  has_id id [] = false
  has_id id (sub ∷ subs) = sub.id == id || has_id id subs

  abbrev pub DistinctIds : List Subscriber → Type 0
  DistinctIds [] = Unit
  DistinctIds (sub ∷ subs) = (has_id sub.id subs ≡ false) × DistinctIds subs

  -- No two subscribers have one id, and no buffer holds more than its size.
  pub record IsValid (b : Bus) : Type 0 where
    pub distinct : DistinctIds b.subscribers
    pub fits : length b.ch ≤ b.capacity
    pub queues : All (λ sub. length sub.queue ≤ 128) b.subscribers

  pub try_send-le :
      (size : ℕ) (event : Event) (buffer : List Event)
      → length buffer ≤ size
      → length (try_send size event buffer) ≤ size
  unfolding try_send
  try_send-le size event buffer h = ground (arith, length-append buffer (event ∷ []))

  has_id-without :
      (id j : String) (subs : List Subscriber)
      → has_id j subs ≡ false
      → has_id j (without id subs).0 ≡ false
  unfolding without
  has_id-without id j [] h = refl
  has_id-without id j (sub ∷ subs) h = ground (arith, has_id-without id j subs)

  pub without-gone :
      (id : String) (subs : List Subscriber)
      → DistinctIds subs
      → (has_id id (without id subs).0 ≡ false) × DistinctIds (without id subs).0
  unfolding without
  without-gone id [] h = (refl, tt)
  without-gone id (sub ∷ subs) h = elim (Bool-cases (sub.id == id)) [
    | inl hit ↦ rw (hit, without) (ground (arith, h.0, eq_iff sub.id id), h.1)
    | inr miss ↦
        let (gone, distinct) = without-gone id subs h.1 in
        rw (miss, without) (ground (arith), (has_id-without id sub.id subs h.0, distinct))
  ]

  pub without-queues :
      (id : String) (subs : List Subscriber)
      → All (λ sub. length sub.queue ≤ 128) subs
      → All (λ sub. length sub.queue ≤ 128) (without id subs).0
  unfolding without
  without-queues id [] h = tt
  without-queues id (sub ∷ subs) h = elim (Bool-cases (sub.id == id)) [
    | inl hit ↦ rw (hit, without) h.1
    | inr miss ↦ rw (miss, without) (h.0, without-queues id subs h.1)
  ]

  has_id-append :
      (id : String) (subs : List Subscriber) (sub : Subscriber)
      → has_id id (subs ++ sub ∷ []) ≡ has_id id subs || sub.id == id
  has_id-append id [] sub = ground arith
  has_id-append id (s ∷ subs) sub = ground (arith, has_id-append id subs sub)

  snoc-DistinctIds :
      (sub : Subscriber) (subs : List Subscriber)
      → has_id sub.id subs ≡ false
      → DistinctIds subs
      → DistinctIds (subs ++ sub ∷ [])
  snoc-DistinctIds sub [] new h = (refl, tt)
  snoc-DistinctIds sub (s ∷ subs) new h = (
    ground (arith, has_id-append s.id subs sub, eq_iff s.id sub.id, eq_iff sub.id s.id, h.0),
    snoc-DistinctIds sub subs (ground arith) h.1,
  )

  deliver-has_id :
      (event : Event) (id : String) (subs : List Subscriber)
      → has_id id (deliver event subs) ≡ has_id id subs
  unfolding deliver
  deliver-has_id event id [] = refl
  deliver-has_id event id (sub ∷ subs) = rw (deliver-has_id event id subs) refl

  deliver-DistinctIds :
      (event : Event) (subs : List Subscriber) → DistinctIds subs → DistinctIds (deliver event subs)
  unfolding deliver
  deliver-DistinctIds event [] h = tt
  deliver-DistinctIds event (sub ∷ subs) h =
      (deliver-has_id event sub.id subs ∙ h.0, deliver-DistinctIds event subs h.1)

  deliver-queues :
      (event : Event) (subs : List Subscriber)
      → All (λ sub. length sub.queue ≤ 128) subs
      → All (λ sub. length sub.queue ≤ 128) (deliver event subs)
  unfolding deliver
  deliver-queues event [] h = tt
  deliver-queues event (sub ∷ subs) h =
      (try_send-le 128 event sub.queue h.0, deliver-queues event subs h.1)

  subscribe-stopped :
      (id : String) (handler : Handler) (b : Bus)
      → b.stopped ≡ true
      → (subscribe id handler b).0 ≡ b
  unfolding subscribe
  subscribe-stopped id handler b over = ground arith

  -- `Subscribe` keeps a bus valid: no two subscribers have one id, and no buffer holds more than its
  -- size.
  pub subscribe-IsValid :
      (id : String) (handler : Handler) (b : Bus) → IsValid b → IsValid (subscribe id handler b).0
  unfolding subscribe
  subscribe-IsValid id handler b h = elim (Bool-cases b.stopped) [
    | inl over ↦ rw (subscribe-stopped id handler b over) h
    | inr running ↦
        let (gone, distinct) = without-gone id b.subscribers h.distinct in
        rw (running, subscribe)
          (record {
            distinct =
                snoc-DistinctIds (new_subscriber id handler) (without id b.subscribers).0 gone
                  distinct;
            fits = h.fits;
            queues =
                All-append (λ sub. length sub.queue ≤ 128) (without id b.subscribers).0 _
                  (without-queues id b.subscribers h.queues) (omega arith, tt);
          })
  ]

  pub dispatch-IsValid : (b : Bus) → IsValid b → IsValid (dispatch b)
  unfolding dispatch
  dispatch-IsValid b h = elim (List-cases b.ch) [
    | inl empty ↦ rw (empty, dispatch) h
    | inr (event, rest, e) ↦
        rw (e, dispatch)
          (record {
            distinct = deliver-DistinctIds event b.subscribers h.distinct;
            fits = omega (arith, h.fits, ap length e);
            queues = deliver-queues event b.subscribers h.queues;
          })
  ]
