-- ===== src/Supervisor/Start.antt =====
-- `start`.
use notmy_fault.Prelude.{
  ℕ, suc, ◌+◌, String, Bool, true, false, List, [], ◌∷◌, map, ltb, length, if◌then◌else◌,
}
use notmy_fault.Prelude.Dict.{Dict, get, put, remove}
use notmy_fault.Prelude.Texts.{has}
use notmy_fault.Supervisor.State.{
  Config, single, every, missing, start_failed, Supervisor, is_alive,
}

-- What is given: which triggers have a function, which have trigger_api "event-v2", `config_fingerprint`,
-- the name of the instance with a number, and whether starting a thread succeeds.
pub record Plugins (C : Type 0) : Type 0 where
  pub has_function : String → Bool
  pub is_event_v2 : String → Bool
  pub config_fingerprint : C → String
  pub numbered : String → ℕ → String
  pub can_start : ℕ → Bool

abbrev pub one_if : Bool → ℕ
one_if true = 1
one_if false = 0

module _ {C : Type 0} where
  -- The thread stands in the dicts before it is started.
  unfoldable pub mount : String → Config C → Supervisor C → Supervisor C
  mount id config s = record s {
    events = put s.events id s.next;
    configs = put s.configs id config;
    stop_failures = remove s.stop_failures id;
    threads = put s.threads id s.next;
    crash_errors = remove s.crash_errors id;
  }

  -- thread.start(), and what is undone where it raises
  unfoldable pub launch : Bool → String → Supervisor C → Bool × Supervisor C
  launch true id s = (true, record s { alive = (s.next, id) ∷ s.alive; next = suc s.next })
  launch false id s = (
    false,
    record s {
      configs = remove s.configs id;
      threads = remove s.threads id;
      events = remove s.events id;
      alerts = start_failed id ∷ s.alerts;
      next = suc s.next;
    },
  )

  unfoldable pub tell_missing : List String → Supervisor C → Supervisor C
  tell_missing [] s = s
  tell_missing (t ∷ ts) s = record s { alerts = missing (t ∷ ts) ∷ s.alerts }

module _ {C : Type 0} (p : Plugins C) where
  unfoldable pub missing_triggers : Dict (List C) → List String
  missing_triggers [] = []
  missing_triggers ((event_type, cs) ∷ d) =
      let rest = missing_triggers d in if p.has_function event_type then rest else event_type ∷ rest

  -- The first configuration of each fingerprint.
  unfoldable pub unique_configs : List String → List C → List C
  unique_configs seen [] = []
  unique_configs seen (c ∷ cs) =
      let fp = p.config_fingerprint c in
      let skip = unique_configs seen cs in
      let keep = unique_configs (fp ∷ seen) cs in if has seen fp then skip else c ∷ keep

  unfoldable pub instances : Bool → List C → List (Config C)
  instances true cs = map single (unique_configs [] cs)
  instances false cs = every cs ∷ []

  unfoldable pub instance_id : String → ℕ → ℕ → String
  instance_id event_type count index =
      if ltb 1 count then p.numbered event_type (suc index) else event_type

  unfoldable pub unless_running : Bool → String → Config C → Supervisor C → Bool × Supervisor C
  unless_running true id config s = (false, record s { next = suc s.next })
  unless_running false id config s = launch (p.can_start s.next) id (mount id config s)

  -- One instance: whether its thread was started.
  unfoldable pub start_instance : String → Config C → Supervisor C → Bool × Supervisor C
  start_instance id config s = unless_running (is_alive (get s.threads id) s) id config s

  -- The inner loop, from an index on.
  unfoldable pub start_instances :
      String → ℕ → ℕ → List (Config C) → Supervisor C → ℕ × Supervisor C
  start_instances event_type total index [] s = (0, s)
  start_instances event_type total index (c ∷ cs) s =
      let r = start_instance (instance_id event_type total index) c s in
      let rest = start_instances event_type total (suc index) cs r.1 in
      (one_if r.0 + rest.0, rest.1)

  unfoldable pub start_type : Bool → String → List C → Supervisor C → ℕ × Supervisor C
  start_type true event_type cs s =
      let is = instances (p.is_event_v2 event_type) cs in
      start_instances event_type (length is) 0 is s
  start_type false event_type cs s = (0, s)

  unfoldable pub start_types : Dict (List C) → Supervisor C → ℕ × Supervisor C
  start_types [] s = (0, s)
  start_types ((event_type, cs) ∷ d) s =
      let r = start_type (p.has_function event_type) event_type cs s in
      let rest = start_types d r.1 in (r.0 + rest.0, rest.1)

  -- `start`: the number of threads that were started.
  unfoldable pub start : Dict (List C) → Supervisor C → ℕ × Supervisor C
  start aggregated s = start_types aggregated (tell_missing (missing_triggers aggregated) s)
