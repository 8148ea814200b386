-- ===== src/Supervisor/Live.antt =====
-- No thread of a trigger is lost: the supervisor knows each that is alive.
use notmy_fault.Prelude.{
  ℕ, suc, String, ◌≡◌, refl, subst, Option, none, some, Bool, true, false, List, [], ◌∷◌, length,
  arith,
}
use notmy_fault.Prelude.Dict.{Dict, get, put}
use notmy_fault.Supervisor.State.{Config, Supervisor, lives, is_alive, end_threads}
use notmy_fault.Supervisor.Start.{
  Plugins, missing_triggers, instances, instance_id, mount, launch, unless_running, start_instance,
  start_instances, start_type, start_types, tell_missing, start,
}
use notmy_fault.Supervisor.Registered.{
  Registered, Free, survivors-All, put-Registered, remove-Registered, get-put_own, All-live, Idle,
  Idle-Free, some_number,
}

-- Each live thread stands in both dicts under its instance.
pub record IsSound {C : Type 0} (s : Supervisor C) : Type 0 where
  pub threads : Registered s.threads s.alive
  pub events : Registered s.events s.alive

module _ {C : Type 0} where
  pub Idle-is_alive : (o : Option ℕ) (s : Supervisor C) → is_alive o s ≡ false → Idle o s.alive
  unfolding is_alive
  Idle-is_alive none s h n e = ground arith
  Idle-is_alive (some m) s h n e = subst (λ k. lives k s.alive ≡ false) (some_number m n e) h

  pub Free-instance :
      (id : String) (s : Supervisor C)
      → IsSound s
      → Idle (get s.threads id) s.alive
      → Free id s.alive
  Free-instance id s i h = Idle-Free s.threads id s.alive s.alive h (All-live s.alive) i.threads

  pub end_threads-IsSound :
      (dies : ℕ → Bool) (s : Supervisor C) → IsSound s → IsSound (end_threads dies s)
  unfolding end_threads
  end_threads-IsSound dies s i = record {
    threads = survivors-All (λ e. get s.threads e.1 ≡ some e.0) dies s.alive i.threads;
    events = survivors-All (λ e. get s.events e.1 ≡ some e.0) dies s.alive i.events;
  }

  launch-IsSound :
      (can : Bool) (id : String) (config : Config C) (s : Supervisor C)
      → IsSound s
      → Free id s.alive
      → IsSound (launch can id (mount id config s)).1
  unfolding launch mount
  launch-IsSound true id config s i f = record {
    threads =
        (get-put_own s.threads id s.next, put-Registered s.threads id s.next s.alive f i.threads);
    events = (get-put_own s.events id s.next, put-Registered s.events id s.next s.alive f i.events);
  }
  launch-IsSound false id config s i f = record {
    threads =
        remove-Registered (put s.threads id s.next) id s.alive f
          (put-Registered s.threads id s.next s.alive f i.threads);
    events =
        remove-Registered (put s.events id s.next) id s.alive f
          (put-Registered s.events id s.next s.alive f i.events);
  }

  module _ (p : Plugins C) where
    unless_running-IsSound :
        (b : Bool) (id : String) (config : Config C) (s : Supervisor C)
        → is_alive (get s.threads id) s ≡ b
        → IsSound s
        → IsSound (unless_running p b id config s).1
    unfolding unless_running
    unless_running-IsSound true id config s h i = record { threads = i.threads; events = i.events }
    unless_running-IsSound false id config s h i =
        launch-IsSound (p.can_start s.next) id config s i
          (Free-instance id s i (Idle-is_alive (get s.threads id) s h))

    start_instances-IsSound :
        (event_type : String) (total index : ℕ) (cs : List (Config C)) (s : Supervisor C)
        → IsSound s
        → IsSound (start_instances p event_type total index cs s).1
    unfolding start_instances start_instance
    start_instances-IsSound event_type total index [] s i = i
    start_instances-IsSound event_type total index (c ∷ cs) s i =
        let id = instance_id p event_type total index in
        let r = start_instance p id c s in
        start_instances-IsSound event_type total (suc index) cs r.1
          (unless_running-IsSound (is_alive (get s.threads id) s) id c s refl i)

    start_type-IsSound :
        (b : Bool) (event_type : String) (cs : List C) (s : Supervisor C)
        → IsSound s
        → IsSound (start_type p b event_type cs s).1
    unfolding start_type
    start_type-IsSound true event_type cs s i =
        let all_of = instances p (p.is_event_v2 event_type) cs in
        start_instances-IsSound event_type (length all_of) 0 all_of s i
    start_type-IsSound false event_type cs s i = i

    start_types-IsSound :
        (d : Dict (List C)) (s : Supervisor C) → IsSound s → IsSound (start_types p d s).1
    unfolding start_types
    start_types-IsSound [] s i = i
    start_types-IsSound ((event_type, cs) ∷ d) s i =
        start_types-IsSound d (start_type p (p.has_function event_type) event_type cs s).1
          (start_type-IsSound (p.has_function event_type) event_type cs s i)

    tell_missing-IsSound :
        (ts : List String) (s : Supervisor C) → IsSound s → IsSound (tell_missing ts s)
    unfolding tell_missing
    tell_missing-IsSound [] s i = i
    tell_missing-IsSound (t ∷ ts) s i = record { threads = i.threads; events = i.events }

    pub start-IsSound : (d : Dict (List C)) (s : Supervisor C) → IsSound s → IsSound (start p d s).1
    unfolding start
    start-IsSound d s i =
        start_types-IsSound d (tell_missing (missing_triggers p d) s)
          (tell_missing-IsSound (missing_triggers p d) s i)
