-- ===== src/Cluster/RetryQueue.antt =====
-- pkg/retry_queue: triggers that are run again and again until they say stop. The linked list of
-- nodes is a list from head to tail; each operation holds the mutex, and so does each half of a round.
pub mod Loop
use distributed_workflow_orc.Prelude.{
  ◌&&◌, ℕ, suc, ◌+◌, ◌-◌, ◌/◌, ◌≡◌, refl, sym, subst, inl, inr, Bool, true, false, not, ◌||◌,
  Option, none, some, List, [], ◌∷◌, ◌++◌, String, Map, lookup, insert, delete, has, length,
  length-append, arith, leb, if◌then◌else◌, ◌==◌, Option-cases, Bool-cases, String-cases,
  List-cases, ap,
}
use distributed_workflow_orc.Prelude.Maps.{has-lookup, has-insert, lookup-delete}

-- A `RetryTrigger`; the timeout is in nanoseconds. What `Do` answers is an argument of a round.
pub record RetryTrigger : Type 0 where
  pub key : String
  pub timeout : ℕ

-- `len` counts the nodes; `active` maps a key to the second in which its trigger is due.
pub record RetryQueue : Type 0 where
  pub len : ℕ
  pub nodes : List RetryTrigger
  pub active : Map ℕ

abbrev pub new_retry_queue : RetryQueue
new_retry_queue = record { len = 0; nodes = []; active = [] }

-- `time.Unix`, of nanoseconds.
abbrev pub unix : ℕ → ℕ
unix t = t / 1000000000

unfoldable pub enqueue : RetryTrigger → RetryQueue → RetryQueue
enqueue trigger q = record q { nodes = q.nodes ++ trigger ∷ []; len = q.len + 1 }

unfoldable pub dequeue : RetryQueue → Option RetryTrigger × RetryQueue
dequeue q = elim q.nodes [
  | [] ↦ (none, q)
  | trigger ∷ rest ↦ (some trigger, record q { nodes = rest; len = q.len - 1 })
]

unfoldable pub push : ℕ → RetryTrigger → RetryQueue → RetryQueue
unfolding enqueue
push now trigger q =
    if has trigger.key q.active
    then q
    else enqueue trigger
        (record q { active = insert trigger.key (unix (now + trigger.timeout)) q.active })

unfoldable pub cancel : String → RetryQueue → RetryQueue
cancel key q = record q { active = delete key q.active }

unfoldable pub active_exists : String → RetryQueue → Bool
active_exists key q = has key q.active

-- The loop of `ActiveKeys`, with the room that is left.
unfoldable pub active_keys_upto : ℕ → List RetryTrigger → Map ℕ → List String
active_keys_upto room [] active = []
active_keys_upto Prim.Native.Nat.zero (trigger ∷ nodes) active = []
active_keys_upto (suc room) (trigger ∷ nodes) active =
    if has trigger.key active
    then trigger.key ∷ active_keys_upto room nodes active
    else active_keys_upto (suc room) nodes active

unfoldable pub active_keys : RetryQueue → List String
unfolding active_keys_upto
active_keys q = active_keys_upto 100 q.nodes q.active

-- The second critical section of a round.
unfoldable pub put_back : RetryTrigger → ℕ → RetryQueue → RetryQueue
unfolding enqueue
put_back trigger due q =
    if has trigger.key q.active
    then enqueue trigger (record q { active = insert trigger.key due q.active })
    else q

-- What follows the dequeue, for a trigger that is due at `due`: `now` is the clock, `again` what `Do`
-- answers, and `later` the clock after it. Nothing else runs in between.
unfoldable pub run_trigger : ℕ → Bool → ℕ → RetryTrigger → ℕ → RetryQueue → RetryQueue
unfolding cancel put_back
run_trigger now again later trigger due q =
    if leb due (unix now)
    then (if again
        then put_back trigger (unix (later + trigger.timeout)) q
        else put_back trigger due (cancel trigger.key q))
    else put_back trigger due q

-- What a round does with the trigger that it took from the queue.
unfoldable pub run_first :
    ℕ → (RetryTrigger → Bool) → ℕ → Option RetryTrigger × RetryQueue → RetryQueue
unfolding run_trigger
run_first now again later (none, q) = q
run_first now again later (some trigger, q) = elim (lookup trigger.key q.active) [
  | none ↦ q
  | some due ↦ run_trigger now (again trigger) later trigger due q
]

-- One round of `RunLoop`.
unfoldable pub run_once : ℕ → (RetryTrigger → Bool) → ℕ → RetryQueue → RetryQueue
unfolding dequeue run_first
run_once now again later q = run_first now again later (dequeue q)

abbrev pub has_node : String → List RetryTrigger → Bool
has_node key [] = false
has_node key (trigger ∷ nodes) = trigger.key == key || has_node key nodes

-- The counter is right, and every active key has a node: its trigger will be looked at again.
pub record IsTracked (q : RetryQueue) : Type 0 where
  pub counted : q.len ≡ length q.nodes
  pub tracked : (key : String) → has key q.active ≡ true → has_node key q.nodes ≡ true

pub has_node-append :
    (key : String) (xs ys : List RetryTrigger)
    → has_node key (xs ++ ys) ≡ has_node key xs || has_node key ys
has_node-append key [] ys = refl
has_node-append key (x ∷ xs) ys = ground (arith, has_node-append key xs ys)

pub has-delete : (k j : String) (m : Map ℕ) → has j (delete k m) ≡ not (k == j) && has j m
has-delete k j m = ground (arith, has-lookup j (delete k m), lookup-delete k j m, has-lookup j m)

-- `Push` keeps every active key tracked.
pub push-IsTracked :
    (now : ℕ) (trigger : RetryTrigger) (q : RetryQueue)
    → IsTracked q
    → IsTracked (push now trigger q)
unfolding push enqueue
push-IsTracked now trigger q h = elim (Bool-cases (has trigger.key q.active)) [
  | inl known ↦ rw (known, push) h
  | inr fresh ↦
      rw (fresh, push)
        (record {
          counted = omega (arith, h.counted, length-append q.nodes (trigger ∷ []));
          tracked = λ key e. ground (
            arith,
            has_node-append key q.nodes (trigger ∷ []),
            has-insert trigger.key key (unix (now + trigger.timeout)) q.active,
            h.tracked key,
          );
        })
]

pub cancel-IsTracked : (key : String) (q : RetryQueue) → IsTracked q → IsTracked (cancel key q)
unfolding cancel
cancel-IsTracked key q h = record {
  counted = h.counted;
  tracked = λ j e. h.tracked j (ground (arith, has-delete key j q.active));
}

-- All but one key are tracked, while its trigger is out of the queue.
record IsTrackedBut (out : String) (q : RetryQueue) : Type 0 where
  counted : q.len ≡ length q.nodes
  tracked :
      (key : String) → (out == key) ≡ false → has key q.active ≡ true → has_node key q.nodes ≡ true

put_back-IsTracked :
    (trigger : RetryTrigger) (due : ℕ) (q : RetryQueue)
    → IsTrackedBut trigger.key q
    → IsTracked (put_back trigger due q)
unfolding put_back enqueue
put_back-IsTracked trigger due q h = elim (Bool-cases (has trigger.key q.active)) [
  | inl known ↦
      rw (known, put_back)
        (record {
          counted = omega (arith, h.counted, length-append q.nodes (trigger ∷ []));
          tracked = λ key e. ground (
            arith,
            has_node-append key q.nodes (trigger ∷ []),
            has-insert trigger.key key due q.active,
            h.tracked key,
          );
        })
  | inr gone ↦
      rw (gone, put_back)
        (record {
          counted = h.counted;
          tracked = λ key e. elim (String-cases trigger.key key) [
            | inl (p, hit) ↦ absurd (cc (subst (λ j. has j q.active ≡ false) p gone, e))
            | inr (_, miss) ↦ h.tracked key miss e
          ];
        })
]

cancel-IsTrackedBut :
    (out : String) (q : RetryQueue) → IsTrackedBut out q → IsTrackedBut out (cancel out q)
unfolding cancel
cancel-IsTrackedBut out q h = record {
  counted = h.counted;
  tracked = λ j ne e. h.tracked j ne (ground (arith, has-delete out j q.active));
}

run_trigger-IsTracked :
    (now : ℕ) (again : Bool) (later : ℕ) (trigger : RetryTrigger) (due : ℕ) (q : RetryQueue)
    → IsTrackedBut trigger.key q
    → IsTracked (run_trigger now again later trigger due q)
unfolding run_trigger
run_trigger-IsTracked now again later trigger due q h = elim (Bool-cases (leb due (unix now))) [
  | inr early ↦ rw (early, run_trigger) (put_back-IsTracked trigger due q h)
  | inl ripe ↦ elim (Bool-cases again) [
    | inl more ↦
        rw (ripe, more, run_trigger)
          (put_back-IsTracked trigger (unix (later + trigger.timeout)) q h)
    | inr stop ↦
        rw (ripe, stop, run_trigger)
          (put_back-IsTracked trigger due (cancel trigger.key q)
            (cancel-IsTrackedBut trigger.key q h))
  ]
]

pub dequeue-empty : (q : RetryQueue) → q.nodes ≡ [] → dequeue q ≡ (none, q)
unfolding dequeue
dequeue-empty q e = rw (e, dequeue) (ap (λ nodes. (none, record q { nodes = nodes })) e)

pub dequeue-node :
    (q : RetryQueue) (trigger : RetryTrigger) (rest : List RetryTrigger)
    → q.nodes ≡ trigger ∷ rest
    → dequeue q ≡ (some trigger, record q { nodes = rest; len = q.len - 1 })
unfolding dequeue
dequeue-node q trigger rest e = rw (e, dequeue) refl

-- A round of `RunLoop` keeps every active key tracked, whatever the trigger answers.
pub run_once-IsTracked :
    (now : ℕ) (again : RetryTrigger → Bool) (later : ℕ) (q : RetryQueue)
    → IsTracked q
    → IsTracked (run_once now again later q)
unfolding run_once run_first
run_once-IsTracked now again later q h = elim (List-cases q.nodes) [
  | inl empty ↦ rw (dequeue-empty q empty) h
  | inr (trigger, rest, e) ↦
      let q' = record q { nodes = rest; len = q.len - 1 } in
      let but : IsTrackedBut trigger.key q' = record {
        counted = omega (arith, h.counted, ap length e);
        tracked = λ key ne active.
            let seen = subst (λ ns. has_node key ns ≡ true) e (h.tracked key active) in
            ground (arith);
      } in
      elim (Option-cases (lookup trigger.key q.active)) [
        | inl gone ↦
            rw (dequeue-node q trigger rest e, gone, run_first)
              (record {
                counted = but.counted;
                tracked = λ key active. elim (String-cases trigger.key key) [
                  | inr (_, miss) ↦ but.tracked key miss active
                  | inl (p, hit) ↦ absurd (
                      ground (
                        arith,
                        has-lookup trigger.key q.active,
                        subst (λ j. has j q.active ≡ true) (sym p) active,
                      ))
                ];
              })
        | inr (due, found) ↦
            rw (dequeue-node q trigger rest e, found, run_first)
              (run_trigger-IsTracked now (again trigger) later trigger due q' but)
      ]
]
