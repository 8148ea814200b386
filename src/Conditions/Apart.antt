-- ===== src/Conditions/Apart.antt =====
-- The rules do not disturb one another: a call for one rule leaves what the others remember.
use notmy_fault.Prelude.{
  ℕ, String, ◌≡◌, ◌∙◌, refl, Option, none, some, Bool, true, false, not, List, [], ◌∷◌, ◌==◌, ◌||◌,
  Bool-cases, inl, inr,
}
use notmy_fault.Prelude.Dict.{Dict, get, put, remove, get-put, get-remove}
use notmy_fault.Scheduler.Config.{or_else}
use notmy_fault.Scheduler.State.{is_empty}
use notmy_fault.Conditions.Tree.{
  Python, Node, Event, iter_condition_events, absence_nodes, positive_events,
}
use notmy_fault.Conditions.Evaluate.{Signature, Seen, evaluate}
use notmy_fault.Conditions.Runtime.{
  Runtime, entries_of, is_fired, record_found, record_match, forget, keep_seen, take_last_match,
  Clocks, all_seen, drop_stale, clocks_of, with_clocks, note, note_match, match_leaves, match_node,
  match, take_if, match_and_take, matching, keys_of, with_keys, restart_all,
}

module _ {ℓ} {V : Type ℓ} (rule other : String) (apart : (rule == other) ≡ false) where
  get-put_other : (d : Dict V) (v : V) → get (put d rule v) other ≡ get d other
  get-put_other d v = get-put d rule v other ∙ rw apart refl

  get-remove_other : (d : Dict V) → get (remove d rule) other ≡ get d other
  get-remove_other d = get-remove d rule other ∙ rw apart refl

module _ (P : Python) where
  open P use {Value}

  -- All that is remembered for the rule `other` is the same in both states.
  pub record IsSame (other : String) (s r : Runtime P) : Type 0 where
    pub seen : get s.seen other ≡ get r.seen other
    pub fired : get s.fired other ≡ get r.fired other
    pub last_matches : get s.last_matches other ≡ get r.last_matches other
    pub absence_deadlines : get s.absence_deadlines other ≡ get r.absence_deadlines other

  IsSame-trans :
      (other : String) (s t r : Runtime P) → IsSame other s t → IsSame other t r → IsSame other s r
  IsSame-trans other s t r h k = record {
    seen = h.seen ∙ k.seen;
    fired = h.fired ∙ k.fired;
    last_matches = h.last_matches ∙ k.last_matches;
    absence_deadlines = h.absence_deadlines ∙ k.absence_deadlines;
  }

  IsSame-refl : (other : String) (r : Runtime P) → IsSame other r r
  IsSame-refl other r = record {
    seen = refl;
    fired = refl;
    last_matches = refl;
    absence_deadlines = refl;
  }

  module _ (rule other : String) (apart : (rule == other) ≡ false) where
    record_found-IsSame :
        (seen : Dict (Seen P)) (f : Bool × Signature) (r : Runtime P)
        → IsSame other (record_found P rule seen f r).1 r
    unfolding record_found
    record_found-IsSame seen f r = elim (Bool-cases (not f.0 || is_fired (get r.fired rule) f.1)) [
      | inl h ↦ rw h (IsSame-refl other r)
      | inr h ↦ rw h (record {
        seen = refl;
        fired = get-put_other rule other apart r.fired f.1;
        last_matches = get-put_other rule other apart r.last_matches (entries_of P seen f.1);
        absence_deadlines = refl;
      })
    ]

    with_clocks-IsSame : (c : Clocks P) (r : Runtime P) → IsSame other (with_clocks P rule c r) r
    unfolding with_clocks
    with_clocks-IsSame c r = record {
      seen = get-put_other rule other apart r.seen c.1;
      fired = refl;
      last_matches = refl;
      absence_deadlines = get-put_other rule other apart r.absence_deadlines c.0;
    }

    drop_stale-get :
        (seen : Dict (Seen P)) (fired : Dict Signature)
        → get (drop_stale P rule seen fired) other ≡ get fired other
    unfolding drop_stale
    drop_stale-get seen fired = elim (Bool-cases (all_seen P seen (or_else (get fired rule) []))) [
      | inl h ↦ rw h refl
      | inr h ↦ rw h (get-remove_other rule other apart fired)
    ]

    note_match-IsSame :
        (now : ℕ) (payload : Dict Value) (node : Node P) (leaves : List (Event P)) (r : Runtime P)
        → IsSame other (note_match P now payload rule node leaves r).1 r
    unfolding note_match record_match
    note_match-IsSame now payload node leaves r =
        let seen = or_else (get r.seen rule) [] in
        let t : Runtime P = record r {
          fired = drop_stale P rule seen r.fired;
          seen = put r.seen rule (note P now payload leaves seen);
        } in
        let seen' = or_else (get t.seen rule) [] in
        IsSame-trans other (record_found P rule seen' (evaluate P node seen') t).1 t r
          (record_found-IsSame seen' (evaluate P node seen') t)
          (record {
            seen = get-put_other rule other apart r.seen (note P now payload leaves seen);
            fired = drop_stale-get seen r.fired;
            last_matches = refl;
            absence_deadlines = refl;
          })

    keep_seen-get_other :
        (all : Dict (Dict (Seen P))) (left : Dict (Seen P))
        → get (keep_seen P all rule left) other ≡ get all other
    unfolding keep_seen
    keep_seen-get_other all [] = get-remove_other rule other apart all
    keep_seen-get_other all (x ∷ xs) = get-put_other rule other apart all (x ∷ xs)

    take-IsSame : (r : Runtime P) → IsSame other (take_last_match P rule r).1 r
    unfolding take_last_match
    take-IsSame r = record {
      seen =
          keep_seen-get_other r.seen
            (forget P (or_else (get r.seen rule) []) (or_else (get r.fired rule) []));
      fired = get-remove_other rule other apart r.fired;
      last_matches = get-remove_other rule other apart r.last_matches;
      absence_deadlines = refl;
    }

    match_leaves-IsSame :
        (now : ℕ) (payload : Dict Value) (node : Node P) (leaves : List (Event P)) (r : Runtime P)
        → IsSame other (match_leaves P now payload rule node leaves r).1 r
    unfolding match_leaves
    match_leaves-IsSame now payload node leaves r =
        let c = restart_all P now (keys_of P leaves) (absence_nodes P node) (clocks_of P rule r) in
        let s = with_clocks P rule c.1 r in
        let wanted = with_keys P (keys_of P (positive_events P node)) leaves in
        elim (Bool-cases (not c.0)) [
          | inl h ↦ rw h (with_clocks-IsSame c.1 r)
          | inr h ↦ rw h (elim (Bool-cases (is_empty wanted)) [
            | inl k ↦ rw k (with_clocks-IsSame c.1 r)
            | inr k ↦ rw k (
                IsSame-trans other (note_match P now payload rule node wanted s).1 s r
                  (note_match-IsSame now payload node wanted s) (with_clocks-IsSame c.1 r))
          ])
        ]

    match_node-IsSame :
        (fingerprint : Dict Value → String) (node : Node P) (kind : String) (payload : Dict Value)
        (now : ℕ) (config : Option (Dict Value)) (r : Runtime P)
        → IsSame other (match_node P fingerprint rule node kind payload now config r).1 r
    unfolding match_node
    match_node-IsSame fingerprint node kind payload now config r =
        let leaves = matching P fingerprint kind payload config (iter_condition_events P node) in
        elim (Bool-cases (is_empty leaves)) [
          | inl h ↦ rw h (IsSame-refl other r)
          | inr h ↦ rw h (match_leaves-IsSame now payload node leaves r)
        ]

    match-IsSame :
        (fingerprint : Dict Value → String) (node : Option (Node P)) (kind : String)
        (payload : Dict Value) (now : ℕ) (config : Option (Dict Value)) (r : Runtime P)
        → IsSame other (match P fingerprint rule node kind payload now config r).1 r
    unfolding match
    match-IsSame fingerprint none kind payload now config r = IsSame-refl other r
    match-IsSame fingerprint (some node) kind payload now config r =
        match_node-IsSame fingerprint node kind payload now config r

    take_if-IsSame :
        (found : Option Bool) (s r : Runtime P)
        → IsSame other s r
        → IsSame other (take_if P rule (found, s)).1 r
    unfolding take_if
    take_if-IsSame (some true) s r h =
        IsSame-trans other (take_last_match P rule s).1 s r (take-IsSame s) h
    take_if-IsSame (some false) s r h = h
    take_if-IsSame none s r h = h

  -- An event that is matched for one rule (`match_and_take`), whatever comes of it, an exception
  -- included, changes nothing that is remembered for any other rule: neither its seen events nor its
  -- last combination, its last match or its deadlines.
  pub match_and_take-IsSame :
      (rule other : String)
      → (rule == other) ≡ false
      → (fingerprint : Dict Value → String) (node : Option (Node P)) (kind : String)
        (payload : Dict Value) (now : ℕ) (config : Option (Dict Value)) (r : Runtime P)
      → IsSame other (match_and_take P fingerprint rule node kind payload now config r).1 r
  unfolding match_and_take
  match_and_take-IsSame rule other apart fingerprint node kind payload now config r =
      let m = match P fingerprint rule node kind payload now config r in
      take_if-IsSame rule other apart m.0 m.1 r
        (match-IsSame rule other apart fingerprint node kind payload now config r)
