-- ===== src/History/Separate.antt =====
-- The runs in the history do not disturb one another.
use mathlib.Core.List.{reverse}
use notmy_fault.Prelude.{
  String, ◌≡◌, ◌≢◌, refl, ap, ◌∙◌, sym, Option, none, some, Bool, true, false, List, [], ◌∷◌, ◌==◌,
  arith, eq_iff, if◌then◌else◌, All, inl, inr, Bool-cases, Option-cases,
}
use text.Mathlib.TextPositions.{eq_refl}
use notmy_fault.Prelude.Dict.{get, put, get-put}
use notmy_fault.History.Replay.{Json, Run, Packet, new_run, apply_event}
use notmy_fault.History.Build.{
  first, text_of, Table, empty, run_id_of, add_to, add_packet, build, collect, build_runs,
  packets_of, get_run,
}

module _ (J : Json) where
  -- One run on its own: its record, if it has one yet, after one more packet of it.
  next_record : Option (Run J) → Packet J → Option (Run J)
  next_record none p = some (apply_event J (new_run J p.content p.ts) p)
  next_record (some r) p = some (apply_event J r p)

  record_after : Option (Run J) → List (Packet J) → Option (Run J)
  record_after o [] = o
  record_after o (p ∷ ps) = record_after (next_record o p) ps

  get-add_to :
      (t : Table J) (p : Packet J) (id j : String) (o : Option (Run J))
      → get (add_to J t p id o).runs j ≡ (if id == j then next_record o p else get t.runs j)
  unfolding add_to next_record
  get-add_to t p id j none = rw get-put
  get-add_to t p id j (some r) = rw get-put

  -- A packet of another run, or of none, leaves the record alone.
  abbrev mine : String → Option String → Bool
  mine id none = false
  mine id (some j) = j == id

  get-add_packet :
      (t : Table J) (p : Packet J) (id : String) (o : Option String)
      → get (add_packet J t p o).runs id
        ≡ (if mine id o then next_record (get t.runs id) p else get t.runs id)
  unfolding add_packet
  get-add_packet t p id none = refl
  get-add_packet t p id (some j) = get-add_to t p j id (get t.runs j) ∙ ground (arith, eq_iff j id)

  packets_of-cons :
      (id : String) (p : Packet J) (ps : List (Packet J))
      → id ≢ ""
      → packets_of J id (p ∷ ps)
        ≡ (if mine id (run_id_of J p) then p ∷ packets_of J id ps else packets_of J id ps)
  unfolding packets_of run_id_of
  packets_of-cons id p ps h = elim (Option-cases (text_of J (get p.content "run_id"))) [
    | inl none_there ↦ rw none_there
    | inr (j, there) ↦ rw there (ground (arith, eq_iff j "", eq_iff j id, eq_iff id ""))
  ]

  record_after-if :
      (b : Bool) (o : Option (Run J)) (p : Packet J) (ps : List (Packet J))
      → record_after (if b then next_record o p else o) ps
        ≡ record_after o (if b then p ∷ ps else ps)
  unfolding record_after
  record_after-if true o p ps = refl
  record_after-if false o p ps = refl

  -- In the table of all packets, a run's record is made from the run's own packets.
  get-build :
      (t : Table J) (ps : List (Packet J)) (id : String)
      → id ≢ ""
      → get (build J t ps).runs id ≡ record_after (get t.runs id) (packets_of J id ps)
  unfolding build
  get-build t [] id h = unfold packets_of record_after in refl
  get-build t (p ∷ ps) id h =
      get-build (add_packet J t p (run_id_of J p)) ps id h
      ∙ ap (λ o. record_after o (packets_of J id ps)) (get-add_packet t p id (run_id_of J p))
      ∙ record_after-if (mine id (run_id_of J p)) (get t.runs id) p (packets_of J id ps)
      ∙ ap (record_after (get t.runs id)) (sym (packets_of-cons id p ps h))

  abbrev Own : String → Packet J → Type 0
  Own id p = run_id_of J p ≡ some id

  own_of_mine : (id : String) (o : Option String) → mine id o ≡ true → o ≡ some id
  own_of_mine id none e = cc
  own_of_mine id (some j) e = ap some ((eq_iff j id).0 e)

  Own-packets : (id : String) (ps : List (Packet J)) → id ≢ "" → All (Own id) (packets_of J id ps)
  Own-packets id [] h = unfold packets_of in tt
  Own-packets id (p ∷ ps) h =
      rw (packets_of-cons id p ps h) (elim (Bool-cases (mine id (run_id_of J p))) [
        | inl mine ↦ rw mine (own_of_mine id (run_id_of J p) mine, Own-packets id ps h)
        | inr other ↦ rw other (Own-packets id ps h)
      ])

  abbrev newest : Table J → Option (Run J)
  newest t = first J (collect J t.runs (reverse t.order))

  alone : String → Run J → Table J
  alone id r = record { runs = (id, r) ∷ []; order = id ∷ [] }

  add_packet-alone :
      (id : String) (r : Run J) (p : Packet J)
      → add_packet J (alone id r) p (some id) ≡ alone id (apply_event J r p)
  unfolding alone add_packet add_to get put
  add_packet-alone id r p = rw eq_refl (rw eq_refl)

  newest-alone :
      (id : String) (r : Run J) (ps : List (Packet J))
      → All (Own id) ps
      → newest (build J (alone id r) ps) ≡ record_after (some r) ps
  unfolding build record_after alone collect add_packet add_to next_record get put
  newest-alone id r [] a = rw eq_refl
  newest-alone id r (p ∷ ps) a =
      ap (λ o. newest (build J (add_packet J (alone id r) p o) ps)) a.0
      ∙ ap (λ t. newest (build J t ps)) (add_packet-alone id r p)
      ∙ newest-alone id (apply_event J r p) ps a.1

  newest-empty :
      (id : String) (ps : List (Packet J))
      → All (Own id) ps
      → newest (build J (empty J) ps) ≡ record_after none ps
  unfolding build record_after alone collect add_packet add_to next_record get put
  newest-empty id [] a = refl
  newest-empty id (p ∷ ps) a =
      ap (λ o. newest (build J (add_packet J (empty J) p o) ps)) a.0
      ∙ newest-alone id (apply_event J (new_run J p.content p.ts) p) ps a.1

-- `get_run` replays only the packets of its run and finds the record that the replay of the whole
-- history makes of it: packets of other runs, wherever they stand between, change nothing.
pub get_run-eq-build :
    (J : Json) (id : String) (ps : List (Packet J))
    → id ≢ ""
    → get_run J id ps ≡ get (build J (empty J) ps).runs id
unfolding get_run build_runs get
get_run-eq-build J id ps h =
    newest-empty J id (packets_of J id ps) (Own-packets J id ps h)
    ∙ sym (get-build J (empty J) ps id h)
