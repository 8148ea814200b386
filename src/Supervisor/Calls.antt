-- ===== src/Supervisor/Calls.antt =====
-- The supervisor over all its calls.
use notmy_fault.Prelude.{
  ℕ, String, ◌≡◌, ◌∙◌, refl, sym, Option, none, some, Bool, true, false, List, [], ◌∷◌, eqb, ◌&&◌,
  ◌||◌, ◌==◌, arith, eq_iff, Bool-cases, inl, inr,
}
use notmy_fault.Prelude.Dict.{Dict, get}
use notmy_fault.Supervisor.State.{
  Supervisor, no_threads, end_threads, request_stop_all, crash_if, mark_crashed,
}
use notmy_fault.Supervisor.Start.{Plugins, start}
use notmy_fault.Supervisor.Stop.{stop}
use notmy_fault.Supervisor.Registered.{Registered, some_number}
use notmy_fault.Supervisor.Live.{IsSound, start-IsSound, end_threads-IsSound}
use notmy_fault.Supervisor.Stopped.{IsStopped, stop_lem, request-IsSound}

-- What happens to a supervisor: its calls, and threads that come to their end. The plugins may be
-- others at each start.
pub data Op (C : Type 0) : Type 0 where
  starts : Plugins C → Dict (List C) → Op C
  stops : (ℕ → Bool) → (ℕ → Bool) → Op C
  requests : Op C
  crashes : String → String → Op C
  ends : (ℕ → Bool) → Op C

-- A live thread works for the instance.
unfoldable pub works : ℕ → String → List (ℕ × String) → Bool
works n id [] = false
works n id ((m, j) ∷ alive) = (eqb m n && j == id) || works n id alive

works-get :
    (d : Dict ℕ) (n : ℕ) (id : String) (alive : List (ℕ × String))
    → Registered d alive
    → works n id alive ≡ true
    → get d id ≡ some n
unfolding works
works-get d n id [] r h = ground arith
works-get d n id ((m, j) ∷ alive) r h = elim (Bool-cases (eqb m n && j == id)) [
  | inl e ↦ ground (arith, eq_iff j id)
  | inr e ↦ works-get d n id alive r.1 (sym (rw e refl) ∙ h)
]

module _ {C : Type 0} where
  unfoldable pub perform : Op C → Supervisor C → Supervisor C
  perform (starts p aggregated) s = (start p aggregated s).1
  perform (stops joins dies) s = (stop joins dies s).1
  perform requests s = request_stop_all s
  perform (crashes trigger_id error) s = mark_crashed trigger_id error s
  perform (ends dies) s = end_threads dies s

  unfoldable pub perform_all : List (Op C) → Supervisor C → Supervisor C
  perform_all [] s = s
  perform_all (o ∷ os) s = perform_all os (perform o s)

  crash_if-IsSound :
      (o : Option ℕ) (trigger_id error : String) (s : Supervisor C)
      → IsSound s
      → IsSound (crash_if o trigger_id error s)
  unfolding crash_if
  crash_if-IsSound none trigger_id error s i = i
  crash_if-IsSound (some n) trigger_id error s i = record { threads = i.threads; events = i.events }

  perform-IsSound : (o : Op C) (s : Supervisor C) → IsSound s → IsSound (perform o s)
  unfolding perform mark_crashed
  perform-IsSound (starts p aggregated) s i = start-IsSound p aggregated s i
  perform-IsSound (stops joins dies) s i = (stop_lem joins dies s i).sound
  perform-IsSound requests s i = request-IsSound s i
  perform-IsSound (crashes trigger_id error) s i =
      crash_if-IsSound (get s.threads trigger_id) trigger_id error s i
  perform-IsSound (ends dies) s i = end_threads-IsSound dies s i

  all-IsSound : (os : List (Op C)) (s : Supervisor C) → IsSound s → IsSound (perform_all os s)
  unfolding perform_all
  all-IsSound [] s i = i
  all-IsSound (o ∷ os) s i = all-IsSound os (perform o s) (perform-IsSound o s i)

  -- After any calls and ends of threads, every live thread is registered, with its event, under the
  -- instance that it works for.
  pub perform_all-IsSound : (os : List (Op C)) → IsSound (perform_all os no_threads)
  perform_all-IsSound os = all-IsSound os no_threads (record { threads = tt; events = tt })

  -- After any calls and ends of threads, two live threads that work for one instance are the same one.
  pub one_thread_each :
      (os : List (Op C)) (n m : ℕ) (id : String)
      → works n id (perform_all os no_threads).alive ≡ true
      → works m id (perform_all os no_threads).alive ≡ true
      → n ≡ m
  one_thread_each os n m id h k =
      let s = perform_all os no_threads in
      let r = (perform_all-IsSound os).threads in
      some_number n m
        (sym (works-get s.threads n id s.alive r h) ∙ works-get s.threads m id s.alive r k)

  -- After any calls, and however the threads end while it works, `stop` leaves a state in which every
  -- live thread is registered and its event is set, and no thread lives if `stop` returns True.
  pub stop-IsStopped :
      (os : List (Op C)) (joins dies : ℕ → Bool)
      → IsStopped (stop joins dies (perform_all os no_threads))
  stop-IsStopped os joins dies =
      stop_lem joins dies (perform_all os no_threads) (perform_all-IsSound os)
