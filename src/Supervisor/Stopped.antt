-- ===== src/Supervisor/Stopped.antt =====
-- What `stop` brings about.
use notmy_fault.Prelude.{
  ℕ, String, ◌≡◌, ◌∙◌, refl, sym, subst, Bool, true, false, not, List, [], ◌∷◌, ◌&&◌, All,
}
use notmy_fault.Prelude.Dict.{Dict, get}
use notmy_fault.Prelude.Texts.{has}
use notmy_fault.Supervisor.State.{Supervisor, lives, end_threads, is_set, request_stop_all}
use notmy_fault.Supervisor.Stop.{
  joined, join_all, alive_ids, is_same, drop_if, drop_stopped, sweep, stop_threads, stop,
}
use notmy_fault.Supervisor.Registered.{Registered, Free, survivors-All, remove-Registered, All-live}
use notmy_fault.Supervisor.Live.{IsSound, Free-instance, end_threads-IsSound}
use notmy_fault.Supervisor.Told.{
  Told, alive_ids-Told, dropped-Idle, Registered-signalled, none_alive, empty_alive,
}

module _ {C : Type 0} where
  -- The parts of a state that the loops of `stop` leave as they are.
  record IsAs (s t : Supervisor C) : Type 0 where
    alive : t.alive ≡ s.alive
    signalled : t.signalled ≡ s.signalled

  IsAs-trans : (s t u : Supervisor C) → IsAs s t → IsAs t u → IsAs s u
  IsAs-trans s t u i j = record { alive = j.alive ∙ i.alive; signalled = j.signalled ∙ i.signalled }

  joined-IsSound : (b : Bool) (id : String) (s : Supervisor C) → IsSound s → IsSound (joined b id s)
  unfolding joined
  joined-IsSound true id s i = record { threads = i.threads; events = i.events }
  joined-IsSound false id s i = record { threads = i.threads; events = i.events }

  joined-IsAs : (b : Bool) (id : String) (s : Supervisor C) → IsAs s (joined b id s)
  unfolding joined
  joined-IsAs true id s = record { alive = refl; signalled = refl }
  joined-IsAs false id s = record { alive = refl; signalled = refl }

  joined-threads : (b : Bool) (id : String) (s : Supervisor C) → (joined b id s).threads ≡ s.threads
  unfolding joined
  joined-threads true id s = refl
  joined-threads false id s = refl

  join_all-IsSound : (d : Dict ℕ) (s : Supervisor C) → IsSound s → IsSound (join_all d s)
  unfolding join_all
  join_all-IsSound [] s i = i
  join_all-IsSound ((id, n) ∷ d) s i =
      join_all-IsSound d (joined (lives n s.alive) id s) (joined-IsSound (lives n s.alive) id s i)

  join_all-IsAs : (d : Dict ℕ) (s : Supervisor C) → IsAs s (join_all d s)
  unfolding join_all
  join_all-IsAs [] s = record { alive = refl; signalled = refl }
  join_all-IsAs ((id, n) ∷ d) s =
      let t = joined (lives n s.alive) id s in
      IsAs-trans s t (join_all d t) (joined-IsAs (lives n s.alive) id s) (join_all-IsAs d t)

  join_all-threads : (d : Dict ℕ) (s : Supervisor C) → (join_all d s).threads ≡ s.threads
  unfolding join_all
  join_all-threads [] s = refl
  join_all-threads ((id, n) ∷ d) s =
      join_all-threads d (joined (lives n s.alive) id s) ∙ joined-threads (lives n s.alive) id s

  drop_if-IsAs : (b : Bool) (id : String) (s : Supervisor C) → IsAs s (drop_if b id s)
  unfolding drop_if
  drop_if-IsAs true id s = record { alive = refl; signalled = refl }
  drop_if-IsAs false id s = record { alive = refl; signalled = refl }

  drop_if-IsSound :
      (b : Bool) (id : String) (s : Supervisor C)
      → IsSound s
      → ((b ≡ true) → Free id s.alive)
      → IsSound (drop_if b id s)
  unfolding drop_if
  drop_if-IsSound true id s i f = record {
    threads = remove-Registered s.threads id s.alive (f refl) i.threads;
    events = remove-Registered s.events id s.alive (f refl) i.events;
  }
  drop_if-IsSound false id s i f = i

  drop_stopped-IsAs :
      (ids : List String) (d : Dict ℕ) (s : Supervisor C) → IsAs s (drop_stopped ids d s)
  unfolding drop_stopped
  drop_stopped-IsAs ids [] s = record { alive = refl; signalled = refl }
  drop_stopped-IsAs ids ((id, n) ∷ d) s =
      let b = not (has ids id) && is_same (get s.threads id) n in
      IsAs-trans s (drop_if b id s) (drop_stopped ids d (drop_if b id s)) (drop_if-IsAs b id s)
        (drop_stopped-IsAs ids d (drop_if b id s))

  drop_stopped-IsSound :
      (ids : List String) (d : Dict ℕ) (s : Supervisor C)
      → IsSound s
      → All (Told s.alive ids) d
      → IsSound (drop_stopped ids d s)
  unfolding drop_stopped
  drop_stopped-IsSound ids [] s i h = i
  drop_stopped-IsSound ids ((id, n) ∷ d) s i h =
      let b = not (has ids id) && is_same (get s.threads id) n in
      let j =
        drop_if-IsSound b id s i
          (λ e. Free-instance id s i (dropped-Idle (get s.threads id) n ids id s.alive h.0 e)) in
      drop_stopped-IsSound ids d (drop_if b id s) j
        (subst (λ a. All (Told a ids) d) (sym (drop_if-IsAs b id s).alive) h.1)

  -- The event of each live thread is set.
  abbrev pub Signalled : Supervisor C → Type 0
  Signalled s = All (λ e. is_set e.0 s.signalled ≡ true) s.alive

  IsAs-Signalled : (s t : Supervisor C) → IsAs s t → Signalled s → Signalled t
  IsAs-Signalled s t i h =
      subst (λ m. All (λ e. is_set e.0 m ≡ true) t.alive) (sym i.signalled)
        (subst (λ a. All (λ e. is_set e.0 s.signalled ≡ true) a) (sym i.alive) h)

  request-Signalled : (s : Supervisor C) → IsSound s → Signalled (request_stop_all s)
  unfolding request_stop_all
  request-Signalled s i = Registered-signalled s.events s.signalled s.alive i.events

  pub request-IsSound : (s : Supervisor C) → IsSound s → IsSound (request_stop_all s)
  unfolding request_stop_all
  request-IsSound s i = record { threads = i.threads; events = i.events }

  end_threads-Signalled :
      (dies : ℕ → Bool) (s : Supervisor C) → Signalled s → Signalled (end_threads dies s)
  unfolding end_threads
  end_threads-Signalled dies s h = survivors-All (λ e. is_set e.0 s.signalled ≡ true) dies s.alive h

  kept_threads :
      (joins dies : ℕ → Bool) (d : Dict ℕ) (s : Supervisor C)
      → (end_threads dies (join_all d (end_threads joins (request_stop_all s)))).threads ≡ s.threads
  unfolding end_threads request_stop_all
  kept_threads joins dies d s = join_all-threads d (end_threads joins (request_stop_all s))

  -- How `stop` leaves the threads: the supervisor knows all that live, their events are set, and if it
  -- says that all have ended, none lives.
  pub record IsStopped (r : Bool × Supervisor C) : Type 0 where
    pub sound : IsSound r.1
    pub signalled : Signalled r.1
    pub ended : r.0 ≡ true → r.1.alive ≡ []

  sweep-IsStopped :
      (threads : Dict ℕ) (s : Supervisor C)
      → s.threads ≡ threads
      → IsSound s
      → Signalled s
      → IsStopped (sweep threads s)
  unfolding sweep
  sweep-IsStopped threads s e i h =
      let ids = alive_ids s.alive threads in
      let j = drop_stopped-IsAs ids threads s in
      record {
        sound = drop_stopped-IsSound ids threads s i (alive_ids-Told s.alive threads);
        signalled = IsAs-Signalled s (drop_stopped ids threads s) j h;
        ended = λ z.
            j.alive
            ∙ none_alive threads s.alive s.alive z (All-live s.alive)
                (subst (λ d. Registered d s.alive) e i.threads);
      }

  stop_threads-IsStopped :
      (joins dies : ℕ → Bool) (threads : Dict ℕ) (s : Supervisor C)
      → s.threads ≡ threads
      → IsSound s
      → IsStopped (stop_threads joins dies threads s)
  unfolding stop_threads
  stop_threads-IsStopped joins dies [] s e i =
      let n = empty_alive s.threads s.alive e i.threads in
      record {
        sound = i;
        signalled = subst (λ a. All (λ x. is_set x.0 s.signalled ≡ true) a) (sym n) tt;
        ended = λ h. n;
      }
  stop_threads-IsStopped joins dies (t ∷ ts) s e i =
      let a = request_stop_all s in
      let b = end_threads joins a in
      let c = join_all (t ∷ ts) b in
      let d = end_threads dies c in
      let ai = request-IsSound s i in
      let bi = end_threads-IsSound joins a ai in
      let ci = join_all-IsSound (t ∷ ts) b bi in
      let bs = end_threads-Signalled joins a (request-Signalled s i) in
      let cs = IsAs-Signalled b c (join_all-IsAs (t ∷ ts) b) bs in
      sweep-IsStopped (t ∷ ts) d (kept_threads joins dies (t ∷ ts) s ∙ e)
        (end_threads-IsSound dies c ci) (end_threads-Signalled dies c cs)

  pub stop_lem :
      (joins dies : ℕ → Bool) (s : Supervisor C) → IsSound s → IsStopped (stop joins dies s)
  unfolding stop
  stop_lem joins dies s i = stop_threads-IsStopped joins dies s.threads s refl i
