-- ===== src/Conditions/Poll.antt =====
-- `poll_absences`.
use notmy_fault.Prelude.{
  ℕ, String, Option, none, some, Bool, true, false, not, List, [], ◌∷◌, ◌&&◌, leb, if◌then◌else◌,
}
use notmy_fault.Prelude.Int.{ℤ}
use notmy_fault.Prelude.Dict.{get, put}
use notmy_fault.Scheduler.Config.{or_else}
use notmy_fault.Conditions.Tree.{
  Python, Window, seconds, Node, leaf, Nodes, no_more, more, Absence, not_key, absence_nodes,
}
use notmy_fault.Conditions.Evaluate.{Seen}
use notmy_fault.Conditions.Runtime.{
  Deadline, Runtime, Clocks, clocks_of, with_clocks, record_match, take_last_match, due,
}

module _ (P : Python) where
  open P use {Value, number}

  -- What the loop of `poll_absences` has done: whether it is still in order (no exception), and
  -- whether an absence was told.
  pub record Polled : Type 0 where
    pub in_order : Bool
    pub changed : Bool
    pub clocks : Clocks P

  unfoldable pub absence_seen : ℕ → ℤ → Seen P
  absence_seen now wait = record {
    binding_id = none;
    type = "absence";
    params = [];
    timestamp = now;
    payload = ("wait_seconds", number wait) ∷ [];
  }

  unfoldable pub tell : ℕ → String → ℤ → Deadline P → Polled → Polled
  tell now key wait (deadline, told) p =
      if not told && leb deadline now
      then record p {
        changed = true;
        clocks = (put p.clocks.0 key (deadline, true), put p.clocks.1 key (absence_seen now wait));
      }
      else record p { clocks = (put p.clocks.0 key (deadline, told), p.clocks.1) }

  unfoldable pub poll_window : ℕ → Window → String → Polled → Polled
  poll_window now (seconds wait) key p =
      tell now key wait (or_else (get p.clocks.0 key) (or_else (due now (seconds wait)) 0, false)) p
  poll_window now _ key p = record p { in_order = false }

  unfoldable pub poll_one : ℕ → Window → Nodes P → Polled → Polled
  poll_one now window (more (leaf e) no_more) p = poll_window now window (not_key P e) p
  poll_one now window _ p = p

  unfoldable pub poll_all : ℕ → List (Absence P) → Polled → Polled
  poll_all now [] p = p
  poll_all now (a ∷ rests) p =
      let q = poll_one now a.group.within_seconds a.children p in
      let rest = poll_all now rests q in if q.in_order then rest else q

  unfoldable pub take_found : String → Bool × Runtime P → Option (List (Seen P)) × Runtime P
  take_found rule (true, r) = let taken = take_last_match P rule r in (some taken.0, taken.1)
  take_found rule (false, r) = (none, r)

  -- `poll_absences`; a result of `none` is Python's None, or an exception.
  unfoldable pub poll_absences :
      String → Node P → ℕ → Runtime P → Option (List (Seen P)) × Runtime P
  poll_absences rule node now r =
      let p =
        poll_all now (absence_nodes P node)
          (record { in_order = true; changed = false; clocks = clocks_of P rule r }) in
      let s = with_clocks P rule p.clocks r in
      let found = take_found rule (record_match P rule node s) in
      if p.in_order && p.changed then found else (none, s)
