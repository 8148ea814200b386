-- ===== src/Scheduler/Kept.antt =====
-- No submitted run is lost: each update of the scheduler keeps its traces.
use notmy_fault.Prelude.{
  String, ◌≡◌, refl, some, Bool, true, List, [], ◌∷◌, subst, ◌==◌, ◌&&◌, eq_iff, arith, Bool-cases,
  inl, inr,
}
use notmy_fault.Prelude.Dict.{put, remove}
use notmy_fault.Prelude.Texts.{has, discard, has-discard}
use notmy_fault.Scheduler.State.{
  Kind, Reason, Entry, World, Sched, run_dropped, no_worker, members, event, emit_all, emit, prune,
  reserve, spawned, abandon, is_empty,
}
use notmy_fault.Scheduler.Dispatch.{next_run, dequeue}
use notmy_fault.Scheduler.Rule.{Keeps}
use notmy_fault.Scheduler.Members.{members-put, members-remove, members-set_default}
use notmy_fault.Scheduler.Frame.{emit_all-events}
use notmy_fault.Scheduler.Traces.{
  IsKnown, prepared, told_of, waits, ids, told, has-append_left, told-append_left, told-events,
  told-append_right, has-append_right, has_one, has_tail, not_has_nil, is_final,
}
use notmy_fault.Scheduler.Submit.{register}

-- `want` says whether the run was submitted; a removed rule has nothing waiting.
pub record IsTraced (run : String) (want : Bool) (s : Sched) : Type 0 where
  pub tidy : (key : String) → has s.removed key ≡ true → members s.queues key ≡ []
  pub known : want ≡ true → IsKnown run s

module _ (run : String) (want : Bool) where
  -- An update that only adds to the logs, by what it does to a run that waits.
  pub keep :
      (s t : Sched)
      → (has s.prepared run ≡ true → has t.prepared run ≡ true)
      → (told s.history run ≡ true → told t.history run ≡ true)
      → ((key : String) → has (ids (members s.queues key)) run ≡ true → IsKnown run t)
      → (want ≡ true → IsKnown run s)
      → want ≡ true
      → IsKnown run t
  keep s t p h q k w = by_cases (k w)
    where
      by_cases : IsKnown run s → IsKnown run t
      by_cases (prepared a) = prepared (p a)
      by_cases (told_of a) = told_of (h a)
      by_cases (waits key a) = q key a

  next_run-queue :
      (w : World) (key : String) (e : Entry) (q : List Entry) (s : Sched)
      → next_run w key s ≡ some (e, q)
      → members s.queues key ≡ e ∷ q
  unfolding next_run
  next_run-queue w key e q s h = ground arith

  dequeue-IsTraced :
      (w : World) (key : String) (e : Entry) (q : List Entry) (s : Sched)
      → IsTraced run want s
      → next_run w key s ≡ some (e, q)
      → IsTraced run want (dequeue key e q s)
  unfolding dequeue reserve
  dequeue-IsTraced w key e q s h next =
      let head = next_run-queue w key e q s next in
      record {
        tidy = λ j r. rw members-put (ground (arith, eq_iff key j, h.tidy j, head));
        known =
            keep s (dequeue key e q s) (has-append_left s.prepared (e.run_id ∷ []) run) (λ t. t)
              (λ j a. elim (Bool-cases (key == j)) [
                | inr other ↦ waits j (rw (members-put, other) a)
                | inl same ↦ of_head j same (subst (λ l. has (ids l) run ≡ true) (at j same head) a)
              ])
              h.known;
      }
    where
      at :
          (j : String)
          → (key == j) ≡ true
          → members s.queues key ≡ e ∷ q
          → members s.queues j ≡ e ∷ q
      at j same head = rw (← (eq_iff key j).0 same) head

      of_head :
          (j : String)
          → (key == j) ≡ true
          → has (ids (e ∷ q)) run ≡ true
          → IsKnown run (dequeue key e q s)
      of_head j same a = elim (Bool-cases (e.run_id == run)) [
        | inl this ↦
            prepared (has-append_right s.prepared (e.run_id ∷ []) run (has_one e.run_id run this))
        | inr other ↦ waits j (rw (members-put, same) (has_tail e.run_id (ids q) run other a))
      ]

  pub spawned-IsTraced :
      (key : String) (e : Entry) (s : Sched)
      → IsTraced run want s
      → IsTraced run want (spawned key e s)
  unfolding spawned
  spawned-IsTraced key e s h = record {
    tidy = h.tidy;
    known = keep s (spawned key e s) (λ p. p) (λ t. t) waits h.known;
  }

  pub emit-IsTraced :
      (kind : Kind) (e : Entry) (reason : Reason) (s : Sched)
      → IsTraced run want s
      → IsTraced run want (emit kind e reason s)
  unfolding emit
  emit-IsTraced kind e reason s h = record {
    tidy = h.tidy;
    known =
        keep s (emit kind e reason s) (λ p. p)
          (told-append_left s.history (event kind e reason ∷ []) run) waits h.known;
  }

  -- The fields that the traces do not read may change.
  pub same-IsTraced :
      (s t : Sched)
      → t.removed ≡ s.removed
      → t.queues ≡ s.queues
      → t.prepared ≡ s.prepared
      → t.history ≡ s.history
      → IsTraced run want s
      → IsTraced run want t
  same-IsTraced s t a b c d h = record {
    tidy = λ j r. rw b (h.tidy j (rw a at r));
    known = keep s t (λ p. rw c p) (λ e. rw d e) (λ j e. waits j (rw b e)) h.known;
  }

  abandon-IsTraced :
      (key : String) (e : Entry) (s : Sched)
      → IsTraced run want s
      → IsTraced run want (abandon key e s)
  unfolding abandon
  abandon-IsTraced key e s h =
      emit-IsTraced run_dropped e no_worker _ (same-IsTraced s _ refl refl refl refl h)

  pub prune-IsTraced :
      (key : String) (s : Sched) → IsTraced run want s → IsTraced run want (prune key s)
  unfolding prune
  prune-IsTraced key s h =
      elim (Bool-cases (
        has s.removed key
        && is_empty (members s.active key)
        && is_empty (members s.executing key))) [
          | inr kept ↦ rw kept h
          | inl gone ↦ rw gone (pruned (ground arith))
        ]
    where
      after : Sched
      after = record s {
        active = remove s.active key;
        executing = remove s.executing key;
        queues = remove s.queues key;
        removed = discard s.removed key;
      }

      pruned : has s.removed key ≡ true → IsTraced run want after
      pruned r = record {
        tidy = λ j a. rw members-remove (ground (arith, h.tidy j, has-discard s.removed key j));
        known =
            keep s after (λ p. p) (λ t. t)
              (λ j a. elim (Bool-cases (key == j)) [
                | inr other ↦ waits j (rw (members-remove, other) a)
                | inl same ↦ absurd (
                    not_has_nil run (
                      subst (λ l. has (ids l) run ≡ true)
                        (h.tidy j (subst (λ k. has s.removed k ≡ true) ((eq_iff key j).0 same) r))
                        a))
              ])
              h.known;
      }

  pub IsTraced-rule : (w : World) → Keeps w (IsTraced run want) (λ key e s. IsTraced run want s)
  IsTraced-rule w = record {
    reserve = dequeue-IsTraced w;
    start = spawned-IsTraced;
    fail = abandon-IsTraced;
    clean = prune-IsTraced;
  }

  pub register-IsTraced :
      (key : String) (s : Sched) → IsTraced run want s → IsTraced run want (register key s)
  unfolding register
  register-IsTraced key s h = record {
    tidy = λ j r. rw members-set_default (ground (arith, h.tidy j, has-discard s.removed key j));
    known =
        keep s (register key s) (λ p. p) (λ t. t) (λ j a. waits j (rw members-set_default a))
          h.known;
  }

  -- A queue is emptied after the history has told of each of its runs.
  pub clear-IsTraced :
      (kind : Kind) (reason : Reason) (key : String) (s : Sched)
      → is_final kind ≡ true
      → IsTraced run want s
      → IsTraced run want (
          let u = emit_all kind reason (members s.queues key) s in
          record u { queues = put u.queues key [] })
  clear-IsTraced kind reason key s k h = rw emit_all-events (record {
    tidy = λ j r. rw members-put (ground (arith, h.tidy j));
    known =
        keep s _ (λ p. p) (told-append_left s.history _ run)
          (λ j a. elim (Bool-cases (key == j)) [
            | inr other ↦ waits j (rw (members-put, other) a)
            | inl same ↦ told_of (
                told-append_right s.history _ run (
                  told-events kind reason (members s.queues key) run k
                    (rw ((eq_iff key j).0 same) a)))
          ])
          h.known;
  })
