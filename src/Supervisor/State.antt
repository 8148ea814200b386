-- ===== src/Supervisor/State.antt =====
-- The fields of `TriggerSupervisor`, with the threads and events that they name.
use notmy_fault.Prelude.{
  ℕ, String, Option, none, some, Bool, true, false, not, List, [], ◌∷◌, ◌++◌, map, eqb, leb, ◌&&◌,
  ◌||◌, if◌then◌else◌,
}
use notmy_fault.Prelude.Dict.{Dict, get, put}

-- What a thread is given: one configuration of a trigger with trigger_api "event-v2", else all of them.
pub data Config (C : Type 0) : Type 0 where
  single : C → Config C
  every : List C → Config C

-- What `_alert_cb` is told.
pub data Alert : Type 0 where
  missing : List String → Alert
  start_failed : String → Alert

-- A thread is a number, and its event has the same one. Beside the dicts stand the number of the next
-- thread, the threads that are alive with the instance each works for, the events that are set, and
-- the alerts.
pub record Supervisor (C : Type 0) : Type 0 where
  pub threads : Dict ℕ
  pub events : Dict ℕ
  pub crash_errors : Dict String
  pub stop_failures : Dict ℕ
  pub configs : Dict (Config C)
  pub next : ℕ
  pub alive : List (ℕ × String)
  pub signalled : List ℕ
  pub alerts : List Alert

unfoldable pub lives : ℕ → List (ℕ × String) → Bool
lives n [] = false
lives n ((m, instance_id) ∷ alive) = eqb m n || lives n alive

unfoldable pub survivors : (ℕ → Bool) → List (ℕ × String) → List (ℕ × String)
survivors dies [] = []
survivors dies (e ∷ alive) = let rest = survivors dies alive in if dies e.0 then rest else e ∷ rest

-- event.is_set() for the event of a thread
unfoldable pub is_set : ℕ → List ℕ → Bool
is_set n [] = false
is_set n (m ∷ ms) = eqb m n || is_set n ms

unfoldable pub values_of : Dict ℕ → List ℕ
values_of d = map (λ e. e.1) d

abbrev pub stuck_threshold : ℕ
stuck_threshold = 2

abbrev pub or_zero : Option ℕ → ℕ
or_zero none = 0
or_zero (some n) = n

abbrev pub is_given : Option String → Bool
is_given none = false
is_given (some error) = true

module _ {C : Type 0} where
  abbrev pub no_threads : Supervisor C
  no_threads = record {
    threads = [];
    events = [];
    crash_errors = [];
    stop_failures = [];
    configs = [];
    next = 0;
    alive = [];
    signalled = [];
    alerts = [];
  }

  -- thread.is_alive() for what a dict holds
  unfoldable pub is_alive : Option ℕ → Supervisor C → Bool
  is_alive none s = false
  is_alive (some n) s = lives n s.alive

  -- Some threads come to their end.
  unfoldable pub end_threads : (ℕ → Bool) → Supervisor C → Supervisor C
  end_threads dies s = record s { alive = survivors dies s.alive }

  -- `request_stop_all`; also the first step of `stop`.
  unfoldable pub request_stop_all : Supervisor C → Supervisor C
  request_stop_all s = record s { signalled = values_of s.events ++ s.signalled }

  unfoldable pub crash_if : Option ℕ → String → String → Supervisor C → Supervisor C
  crash_if none trigger_id error s = s
  crash_if (some n) trigger_id error s = record s {
    crash_errors = put s.crash_errors trigger_id error;
  }

  -- `mark_crashed`, with the error cut to 300 characters
  unfoldable pub mark_crashed : String → String → Supervisor C → Supervisor C
  mark_crashed trigger_id error s = crash_if (get s.threads trigger_id) trigger_id error s

-- The state of one instance, as `health` tells it.
pub record Health (C : Type 0) : Type 0 where
  pub config : Option (Config C)
  pub is_running : Bool
  pub stuck : Bool
  pub crashed : Bool
  pub last_error : Option String

module _ {C : Type 0} where
  unfoldable pub health_of : Supervisor C → String → Bool → Health C
  health_of s trigger_id alive = record {
    config = get s.configs trigger_id;
    is_running = alive;
    stuck = leb stuck_threshold (or_zero (get s.stop_failures trigger_id));
    crashed = not alive && is_given (get s.crash_errors trigger_id);
    last_error = if alive then none else get s.crash_errors trigger_id;
  }

  unfoldable pub health_all : Supervisor C → Dict ℕ → Dict (Health C)
  health_all s [] = []
  health_all s ((trigger_id, n) ∷ d) =
      (trigger_id, health_of s trigger_id (lives n s.alive)) ∷ health_all s d

  -- `health`
  unfoldable pub health : Supervisor C → Dict (Health C)
  health s = health_all s s.threads
