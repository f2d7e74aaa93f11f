-- ===== src/Cluster/RetryQueue/Loop/Watched.antt =====
-- pkg/retry_queue/retry_queue.go: what `RunLoop` keeps while others push and cancel.
use distributed_workflow_orc.Prelude.{
  ℕ, is_some, ◌⊎◌, ◌+◌, ◌-◌, ◌≡◌, refl, sym, ap, subst, inl, inr, Bool, true, false, not, ◌||◌,
  ◌&&◌, Option, none, some, List, [], ◌∷◌, String, lookup, has, length, length-append, arith, leb,
  ◌==◌, eq_iff, Option-cases, Bool-cases, List-cases,
}
use distributed_workflow_orc.Prelude.Maps.{has-lookup, has-insert}
use distributed_workflow_orc.Cluster.RetryQueue.{
  RetryTrigger, RetryQueue, unix, push, cancel, enqueue, put_back, run_once, run_first, run_trigger,
  has_node, has_node-append, has-delete, dequeue-node,
}
use distributed_workflow_orc.Cluster.RetryQueue.Loop.{
  Held, Loop, new_loop, hold, take_first, ask, ask_held, put_held, Move, move_push, move_cancel,
  move_take, move_ask, move_put, moved, moves,
}

abbrev pub holds_key : String → Option Held → Bool
holds_key key none = false
holds_key key (some h) = h.trigger.key == key

-- The counter is right, and every active key has a node or is that of the trigger that the loop
-- holds.
pub record IsWatched (l : Loop) : Type 0 where
  pub counted : l.queue.len ≡ length l.queue.nodes
  pub watched :
      (key : String)
      → has key l.queue.active ≡ true
      → (has_node key l.queue.nodes || holds_key key l.held) ≡ true

push-IsWatched :
    (now : ℕ) (trigger : RetryTrigger) (l : Loop)
    → IsWatched l
    → IsWatched (record l { queue = push now trigger l.queue })
unfolding push enqueue
push-IsWatched now trigger l h = elim (Bool-cases (has trigger.key l.queue.active)) [
  | inl known ↦ rw (known, push) (record { counted = h.counted; watched = h.watched })
  | inr fresh ↦
      rw (fresh, push)
        (record {
          counted = omega (arith, h.counted, length-append l.queue.nodes (trigger ∷ []));
          watched = λ key e. ground (
            arith,
            has_node-append key l.queue.nodes (trigger ∷ []),
            has-insert trigger.key key (unix (now + trigger.timeout)) l.queue.active,
            h.watched key,
          );
        })
]

cancel-IsWatched :
    (key : String) (l : Loop) → IsWatched l → IsWatched (record l { queue = cancel key l.queue })
unfolding cancel
cancel-IsWatched key l h = record {
  counted = h.counted;
  watched = λ j e. h.watched j (ground (arith, has-delete key j l.queue.active));
}

take_first-node :
    (l : Loop) (trigger : RetryTrigger) (rest : List RetryTrigger)
    → l.held ≡ none
    → l.queue.nodes ≡ trigger ∷ rest
    → take_first l ≡ record {
      queue = record l.queue { nodes = rest; len = l.queue.len - 1 };
      held = hold trigger (lookup trigger.key l.queue.active);
    }
unfolding take_first
take_first-node l trigger rest free e = rw (free, take_first) (rw e refl)

take_first-same : (l : Loop) → (is_some l.held ≡ true) ⊎ (l.queue.nodes ≡ []) → take_first l ≡ l
unfolding take_first
take_first-same l (inl busy) = ground arith
take_first-same l (inr empty) = ground arith

take_first-IsWatched : (l : Loop) → IsWatched l → IsWatched (take_first l)
take_first-IsWatched l h = elim (Option-cases l.held) [
  | inr (held, busy) ↦ subst IsWatched (sym (take_first-same l (inl (rw busy refl)))) h
  | inl free ↦ elim (List-cases l.queue.nodes) [
    | inl empty ↦ subst IsWatched (sym (take_first-same l (inr empty))) h
    | inr (trigger, rest, e) ↦ rw (take_first-node l trigger rest free e) (record {
      counted = omega (arith, h.counted, ap length e);
      watched = λ key active.
          let before = h.watched key active in
          let node : has_node key l.queue.nodes ≡ (trigger.key == key || has_node key rest) =
            rw e refl in
          let none_held : holds_key key l.held ≡ false = rw free refl in
          elim (Option-cases (lookup trigger.key l.queue.active)) [
            | inr (due, found) ↦ rw found (ground arith)
            | inl gone ↦
                rw gone
                  (ground (arith, eq_iff trigger.key key, has-lookup trigger.key l.queue.active))
          ];
    })
  ]
]

ask-IsWatched :
    (now : ℕ) (again : Bool) (later : ℕ) (h : Held) (l : Loop)
    → l.held ≡ some h
    → IsWatched l
    → IsWatched (ask now again later h l.queue)
unfolding ask cancel
ask-IsWatched now again later h l e w = elim (Bool-cases (leb h.due (unix now))) [
  | inr early ↦
      rw (early, ask)
        (record {
          counted = w.counted;
          watched = λ key active. ground (arith, w.watched key active, ap (holds_key key) e);
        })
  | inl ripe ↦ elim (Bool-cases again) [
    | inl more ↦
        rw (ripe, more, ask)
          (record {
            counted = w.counted;
            watched = λ key active. ground (arith, w.watched key active, ap (holds_key key) e);
          })
    | inr stop ↦
        rw (ripe, stop, ask)
          (record {
            counted = w.counted;
            watched = λ key active.
                let still : has key l.queue.active ≡ true =
                  ground (arith, has-delete h.trigger.key key l.queue.active) in
                ground (arith, w.watched key still, ap (holds_key key) e);
          })
  ]
]

put_back-IsWatched :
    (h : Held) (l : Loop)
    → l.held ≡ some h
    → IsWatched l
    → IsWatched (record { queue = put_back h.trigger h.due l.queue; held = none })
unfolding put_back enqueue
put_back-IsWatched h l e w = elim (Bool-cases (has h.trigger.key l.queue.active)) [
  | inl known ↦
      rw (known, put_back)
        (record {
          counted = omega (arith, w.counted, length-append l.queue.nodes (h.trigger ∷ []));
          watched = λ key active.
              let still : has key l.queue.active ≡ true = ground (
                arith,
                has-insert h.trigger.key key h.due l.queue.active,
                eq_iff h.trigger.key key,
              ) in
              ground (
                arith,
                has_node-append key l.queue.nodes (h.trigger ∷ []),
                w.watched key still,
                ap (holds_key key) e,
              );
        })
  | inr gone ↦
      rw (gone, put_back)
        (record {
          counted = w.counted;
          watched = λ key active.
              ground (arith, w.watched key active, ap (holds_key key) e, eq_iff h.trigger.key key);
        })
]

abbrev is_asked : Option Held → Bool
is_asked none = false
is_asked (some h) = h.asked

ask_held-same :
    (now : ℕ) (again : Bool) (later : ℕ) (l : Loop)
    → (is_some l.held && not (is_asked l.held)) ≡ false
    → ask_held now again later l ≡ l
unfolding ask_held
ask_held-same now again later l h = ground arith

ask_held-ask :
    (now : ℕ) (again : Bool) (later : ℕ) (h : Held) (l : Loop)
    → l.held ≡ some h
    → h.asked ≡ false
    → ask_held now again later l ≡ ask now again later h l.queue
unfolding ask_held
ask_held-ask now again later h l e new = ground arith

put_held-same : (l : Loop) → is_asked l.held ≡ false → put_held l ≡ l
unfolding put_held
put_held-same l h = ground arith

put_held-put :
    (h : Held) (l : Loop)
    → l.held ≡ some h
    → h.asked ≡ true
    → put_held l ≡ record { queue = put_back h.trigger h.due l.queue; held = none }
unfolding put_held
put_held-put h l e asked = ground arith

moved-IsWatched : (m : Move) (l : Loop) → IsWatched l → IsWatched (moved m l)
unfolding moved ask_held put_held
moved-IsWatched (move_push now trigger) l w = push-IsWatched now trigger l w
moved-IsWatched (move_cancel key) l w = cancel-IsWatched key l w
moved-IsWatched move_take l w = take_first-IsWatched l w
moved-IsWatched (move_ask now again later) l w = elim (Option-cases l.held) [
  | inl free ↦ subst IsWatched (sym (ask_held-same now again later l (ground arith))) w
  | inr (h, e) ↦ elim (Bool-cases h.asked) [
    | inl asked ↦ subst IsWatched (sym (ask_held-same now again later l (ground arith))) w
    | inr new ↦
        subst IsWatched (sym (ask_held-ask now again later h l e new))
          (ask-IsWatched now again later h l e w)
  ]
]
moved-IsWatched move_put l w = elim (Option-cases l.held) [
  | inl free ↦ subst IsWatched (sym (put_held-same l (ground arith))) w
  | inr (h, e) ↦ elim (Bool-cases h.asked) [
    | inr new ↦ subst IsWatched (sym (put_held-same l (ground arith))) w
    | inl asked ↦ subst IsWatched (sym (put_held-put h l e asked)) (put_back-IsWatched h l e w)
  ]
]

moves_keep : (ms : List Move) (l : Loop) → IsWatched l → IsWatched (moves ms l)
unfolding moves
moves_keep [] l w = w
moves_keep (m ∷ ms) l w = moves_keep ms (moved m l) (moved-IsWatched m l w)

-- However `Push`, `Cancel` and the steps of `RunLoop` follow each other, and whatever the triggers
-- answer, each active key of a new queue has a trigger in the queue or in the hands of the loop, so
-- that it will be looked at again; and `Len` is right.
pub moves-IsWatched : (ms : List Move) → IsWatched (moves ms new_loop)
moves-IsWatched ms =
    moves_keep ms new_loop (record { counted = refl; watched = λ key e. absurd (cc e) })

-- A round that nothing else comes into is `run_once`.
pub moves-run_once :
    (now : ℕ) (again : RetryTrigger → Bool) (later : ℕ) (q : RetryQueue) (trigger : RetryTrigger)
    (rest : List RetryTrigger)
    → q.nodes ≡ trigger ∷ rest
    → moves
        (move_take ∷ move_ask now (again trigger) later ∷ move_put ∷ [])
        (record { queue = q; held = none })
      ≡ record { queue = run_once now again later q; held = none }
unfolding moves moved ask_held put_held ask run_once run_first run_trigger
moves-run_once now again later q trigger rest e =
    rw (take_first-node (record { queue = q; held = none }) trigger rest refl e) (
      rw (dequeue-node q trigger rest e) (elim (Option-cases (lookup trigger.key q.active)) [
        | inl gone ↦ rw (gone, run_first) refl
        | inr (due, found) ↦ elim (Bool-cases (leb due (unix now))) [
          | inr early ↦ rw (found, run_first) (rw (early, run_trigger) refl)
          | inl ripe ↦ elim (Bool-cases (again trigger)) [
            | inl more ↦ rw (found, run_first) (rw (ripe, more, run_trigger) refl)
            | inr stop ↦ rw (found, run_first) (rw (ripe, stop, run_trigger) refl)
          ]
        ]
      ]))
