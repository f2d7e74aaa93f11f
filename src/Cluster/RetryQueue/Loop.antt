-- ===== src/Cluster/RetryQueue/Loop.antt =====
-- pkg/retry_queue/retry_queue.go: `RunLoop` taken apart where other goroutines may call `Push` and
-- `Cancel`.
pub mod Watched
use distributed_workflow_orc.Prelude.{
  ℕ, is_some, ◌⊎◌, ◌+◌, ◌-◌, ◌≡◌, refl, sym, ap, subst, inl, inr, Bool, true, false, not, ◌||◌,
  ◌&&◌, Option, none, some, List, [], ◌∷◌, String, lookup, has, length, length-append, arith, leb,
  if◌then◌else◌, ◌==◌, eq_iff, Option-cases, Bool-cases, List-cases,
}
use distributed_workflow_orc.Prelude.Maps.{has-lookup, has-insert}
use distributed_workflow_orc.Cluster.RetryQueue.{
  RetryTrigger, RetryQueue, new_retry_queue, unix, dequeue, push, cancel, enqueue, put_back,
  run_once, run_first, run_trigger, has_node, has_node-append, has-delete, dequeue-node,
}

-- The trigger that the loop has taken, the second in which it is due, and whether `Do` is behind it.
pub record Held : Type 0 where
  pub trigger : RetryTrigger
  pub due : ℕ
  pub asked : Bool

pub record Loop : Type 0 where
  pub queue : RetryQueue
  pub held : Option Held

abbrev pub new_loop : Loop
new_loop = record { queue = new_retry_queue; held = none }

abbrev pub hold : RetryTrigger → Option ℕ → Option Held
hold trigger none = none
hold trigger (some due) = some (record { trigger = trigger; due = due; asked = false })

-- The first critical section of a round.
unfoldable pub take_first : Loop → Loop
unfolding dequeue
take_first l = elim l.held [
  | some h ↦ l
  | none ↦ elim l.queue.nodes [
    | [] ↦ l
    | trigger ∷ rest ↦ record {
      queue = record l.queue { nodes = rest; len = l.queue.len - 1 };
      held = hold trigger (lookup trigger.key l.queue.active);
    }
  ]
]

-- The call of `Do`, if the trigger is due, and the `Cancel` that may follow.
unfoldable pub ask : ℕ → Bool → ℕ → Held → RetryQueue → Loop
unfolding cancel
ask now again later h q =
    if leb h.due (unix now)
    then (if again
        then record {
          queue = q;
          held = some (record h { due = unix (later + h.trigger.timeout); asked = true });
        }
        else record { queue = cancel h.trigger.key q; held = some (record h { asked = true }) })
    else record { queue = q; held = some (record h { asked = true }) }

unfoldable pub ask_held : ℕ → Bool → ℕ → Loop → Loop
unfolding ask
ask_held now again later l = elim l.held [
  | none ↦ l
  | some h ↦ if h.asked then l else ask now again later h l.queue
]

-- The second critical section.
unfoldable pub put_held : Loop → Loop
unfolding put_back
put_held l = elim l.held [
  | none ↦ l
  | some h ↦ if h.asked then record { queue = put_back h.trigger h.due l.queue; held = none } else l
]

pub data Move : Type 0 where
  move_push : ℕ → RetryTrigger → Move
  move_cancel : String → Move
  move_take move_put : Move
  move_ask : (now : ℕ) (again : Bool) (later : ℕ) → Move

unfoldable pub moved : Move → Loop → Loop
unfolding push cancel take_first ask_held put_held
moved (move_push now trigger) l = record l { queue = push now trigger l.queue }
moved (move_cancel key) l = record l { queue = cancel key l.queue }
moved move_take l = take_first l
moved (move_ask now again later) l = ask_held now again later l
moved move_put l = put_held l

unfoldable pub moves : List Move → Loop → Loop
unfolding moved
moves [] l = l
moves (m ∷ ms) l = moves ms (moved m l)
