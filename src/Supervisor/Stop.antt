-- ===== src/Supervisor/Stop.antt =====
-- `stop`.
use notmy_fault.Prelude.{
  ℕ, suc, String, Option, none, some, Bool, true, false, not, List, [], ◌∷◌, eqb, ◌&&◌,
  if◌then◌else◌,
}
use notmy_fault.Prelude.Dict.{Dict, get, put, remove}
use notmy_fault.Prelude.Texts.{has}
use notmy_fault.Supervisor.State.{Supervisor, lives, end_threads, request_stop_all, or_zero}

-- The instances whose threads are alive.
unfoldable pub alive_ids : List (ℕ × String) → Dict ℕ → List String
alive_ids alive [] = []
alive_ids alive ((id, n) ∷ d) =
    let rest = alive_ids alive d in if lives n alive then id ∷ rest else rest

unfoldable pub is_same : Option ℕ → ℕ → Bool
is_same none n = false
is_same (some m) n = eqb m n

abbrev pub is_empty : List String → Bool
is_empty [] = true
is_empty (id ∷ ids) = false

module _ {C : Type 0} where
  unfoldable pub joined : Bool → String → Supervisor C → Supervisor C
  joined true id s = record s {
    stop_failures = put s.stop_failures id (suc (or_zero (get s.stop_failures id)));
  }
  joined false id s = record s { stop_failures = remove s.stop_failures id }

  -- The loop over the threads that were mounted: a failure more for each that is still alive.
  unfoldable pub join_all : Dict ℕ → Supervisor C → Supervisor C
  join_all [] s = s
  join_all ((id, n) ∷ d) s = join_all d (joined (lives n s.alive) id s)

  unfoldable pub drop_if : Bool → String → Supervisor C → Supervisor C
  drop_if false id s = s
  drop_if true id s = record s {
    threads = remove s.threads id;
    events = remove s.events id;
    configs = remove s.configs id;
    crash_errors = remove s.crash_errors id;
    stop_failures = remove s.stop_failures id;
  }

  -- Only an entry that still names the thread that was stopped is taken out.
  unfoldable pub drop_stopped : List String → Dict ℕ → Supervisor C → Supervisor C
  drop_stopped ids [] s = s
  drop_stopped ids ((id, n) ∷ d) s =
      drop_stopped ids d (drop_if (not (has ids id) && is_same (get s.threads id) n) id s)

  -- After the joins: `threads` are those that were mounted.
  unfoldable pub sweep : Dict ℕ → Supervisor C → Bool × Supervisor C
  sweep threads s =
      let ids = alive_ids s.alive threads in (is_empty ids, drop_stopped ids threads s)

  unfoldable pub stop_threads :
      (ℕ → Bool) → (ℕ → Bool) → Dict ℕ → Supervisor C → Bool × Supervisor C
  stop_threads joins dies [] s = (true, s)
  stop_threads joins dies (t ∷ ts) s =
      sweep (t ∷ ts) (end_threads dies (join_all (t ∷ ts) (end_threads joins (request_stop_all s))))

  -- `stop`: whether all threads have ended. `joins` are the threads that end before their join
  -- returns, `dies` those that end before they are looked at again.
  unfoldable pub stop : (ℕ → Bool) → (ℕ → Bool) → Supervisor C → Bool × Supervisor C
  stop joins dies s = stop_threads joins dies s.threads s
