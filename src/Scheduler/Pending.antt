-- ===== src/Scheduler/Pending.antt =====
-- How the number of queued runs changes with the queues' dict.
use notmy_fault.Prelude.{
  ◌+◌, ◌≤◌, String, ◌≡◌, List, [], ◌∷◌, length, ◌==◌, arith, Bool-cases, inl, inr,
}
use notmy_fault.Prelude.Dict.{Dict, get, put, remove}
use notmy_fault.Scheduler.State.{Entry, members, pending, prune, Sched}

-- A write replaces the length of the key's queue.
pub pending-put :
    (d : Dict (List Entry)) (key : String) (q : List Entry)
    → pending (put d key q) + length (members d key) ≡ pending d + length q
unfolding pending put get
pending-put [] key q = omega arith
pending-put ((j, p) ∷ d) key q = elim (Bool-cases (j == key)) [
  | inl here ↦ rw here (omega arith)
  | inr there ↦ rw there (omega (arith, pending-put d key q))
]

pub pending-remove-le : (d : Dict (List Entry)) (key : String) → pending (remove d key) ≤ pending d
unfolding pending remove
pending-remove-le [] key = omega arith
pending-remove-le ((j, p) ∷ d) key = ground (arith, pending-remove-le d key)

pub pending-prune-le : (key : String) (s : Sched) → pending (prune key s).queues ≤ pending s.queues
unfolding prune
pending-prune-le key s = ground (arith, pending-remove-le s.queues key)
