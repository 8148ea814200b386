-- ===== src/History/Build.antt =====
-- `build_runs`, `list_runs` and `get_run`, over the events that the history holds in memory.
use mathlib.Core.List.{reverse}
use notmy_fault.Prelude.{
  ℕ, String, Option, none, some, Bool, false, List, [], ◌∷◌, ◌++◌, ◌==◌, max, if◌then◌else◌, take,
}
use Prim.Native.Nat.{min}
use notmy_fault.Prelude.Dict.{Dict, get, put}
use notmy_fault.History.Replay.{Json, Run, Packet, new_run, apply_event}

module _ (J : Json) where
  open J use {Value, as_text}

  abbrev non_empty : Option String → Option String
  non_empty none = none
  non_empty (some s) = if s == "" then none else some s

  unfoldable pub text_of : Option Value → Option String
  text_of none = none
  text_of (some v) = as_text v

  -- The packet's run id, where it is a text and not empty.
  unfoldable pub run_id_of : Packet J → Option String
  run_id_of p = non_empty (text_of (get p.content "run_id"))

  -- The records by run id, and the ids in the order of their first packet.
  pub record Table : Type 0 where
    pub runs : Dict (Run J)
    pub order : List String

  abbrev pub empty : Table
  empty = record { runs = []; order = [] }

  unfoldable pub add_to : Table → Packet J → String → Option (Run J) → Table
  add_to t p id none = record {
    runs = put t.runs id (apply_event J (new_run J p.content p.ts) p);
    order = t.order ++ id ∷ [];
  }
  add_to t p id (some r) = record t { runs = put t.runs id (apply_event J r p) }

  unfoldable pub add_packet : Table → Packet J → Option String → Table
  add_packet t p none = t
  add_packet t p (some id) = add_to t p id (get t.runs id)

  unfoldable pub build : Table → List (Packet J) → Table
  build t [] = t
  build t (p ∷ ps) = build (add_packet t p (run_id_of p)) ps

  abbrev with_run : Option (Run J) → List (Run J) → List (Run J)
  with_run none rs = rs
  with_run (some r) rs = r ∷ rs

  unfoldable pub collect : Dict (Run J) → List String → List (Run J)
  collect d [] = []
  collect d (id ∷ ids) = with_run (get d id) (collect d ids)

  -- `build_runs`: the newest run first.
  unfoldable pub build_runs : List (Packet J) → List (Run J)
  build_runs ps = let t = build empty ps in collect t.runs (reverse t.order)

  unfoldable pub list_runs : ℕ → List (Packet J) → List (Run J)
  list_runs limit ps = take (max 1 (min limit 1000)) (build_runs ps)

  unfoldable pub is_of : String → Option String → Bool
  is_of id none = false
  is_of id (some j) = j == id

  -- packet["data"].get("run_id") == run_id
  unfoldable pub packets_of : String → List (Packet J) → List (Packet J)
  unfolding is_of
  packets_of id [] = []
  packets_of id (p ∷ ps) =
      let rest = packets_of id ps in
      if is_of id (text_of (get p.content "run_id")) then p ∷ rest else rest

  abbrev pub first : List (Run J) → Option (Run J)
  first [] = none
  first (r ∷ rs) = some r

  unfoldable pub get_run : String → List (Packet J) → Option (Run J)
  get_run id ps = first (build_runs (packets_of id ps))
