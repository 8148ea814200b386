-- ===== src/Conditions/Tests.antt =====
-- A rule on a door and a motion within five ticks, and the theorems at it.
use notmy_fault.Prelude.{
  ℕ, String, ◌≡◌, refl, none, some, true, false, [], ◌∷◌, ◌==◌, leb, All, Bool-cases, inl, inr,
  if◌then◌else◌,
}
use notmy_fault.Prelude.Int.{pos}
use notmy_fault.Prelude.Dict.{Dict, get}
use notmy_fault.Conditions.Tree.{
  Python, seconds, Event, Group, leaf, group, Nodes, no_more, more, condition_op, event_key,
}
use notmy_fault.Conditions.Evaluate.{
  Signature, Seen, evaluate, evaluate_all, combine, all_of, of_entry, in_window, all_ok, signatures,
  latest_time, earliest_time, spread_exceeds,
}
use notmy_fault.Conditions.Backed.{IsSort, IsSeen, evaluate-IsSeen}
use notmy_fault.Conditions.Window.{IsClose, evaluate-IsClose}
use notmy_fault.Conditions.Choice.{IsChoice, evaluate-IsChoice}
use notmy_fault.Conditions.Runtime.{
  Runtime, fresh, record_match, record_found, is_fired, take_last_match,
}
use notmy_fault.Conditions.Runtime.{match_and_take}
use notmy_fault.Conditions.Apart.{IsSame, match_and_take-IsSame}
use notmy_fault.Conditions.Once.{IsGone, seen_of, record_match_once, take_uses_up}

insert : String × ℕ → Signature → Signature
insert x [] = x ∷ []
insert x (y ∷ ys) = let rest = insert x ys in if leb x.1 y.1 then x ∷ y ∷ ys else y ∷ rest

sort_by_time : Signature → Signature
sort_by_time [] = []
sort_by_time (x ∷ xs) = insert x (sort_by_time xs)

insert-All :
    (Q : String × ℕ → Type 0) (x : String × ℕ) (xs : Signature)
    → Q x
    → All Q xs
    → All Q (insert x xs)
unfolding insert
insert-All Q x [] h k = (h, tt)
insert-All Q x (y ∷ ys) h k = elim (Bool-cases (leb x.1 y.1)) [
  | inl e ↦ rw e (h, k)
  | inr e ↦ rw e (k.0, insert-All Q x ys h k.1)
]

sort_by_time-IsSort : IsSort sort_by_time
unfolding sort_by_time
sort_by_time-IsSort Q [] h = tt
sort_by_time-IsSort Q (x ∷ xs) h =
    insert-All Q x (sort_by_time xs) h.0 (sort_by_time-IsSort Q xs h.1)

-- Values are texts, and an event's key is its type.
abbrev texts : Python
texts = record {
  Value = String;
  same = λ a b. a == b;
  dumps = λ kind params. kind;
  number = λ n. "number";
  sort = sort_by_time;
}

abbrev event : String → Event texts
event kind = record { type = some kind; binding_id = none; params = [] }

abbrev within_five : Group texts
within_five = record { op = "and"; within_seconds = seconds (pos 5); event = event "and" }

abbrev either : Group texts
either = record within_five { op = "or" }

abbrev door_and_motion : Nodes texts
door_and_motion = more (leaf (event "door")) (more (leaf (event "motion")) no_more)

abbrev at : String → ℕ → Seen texts
at kind now = record { binding_id = none; type = kind; params = []; timestamp = now; payload = [] }

abbrev seen : Dict (Seen texts)
seen = ("motion", at "motion" 12) ∷ ("door", at "door" 10) ∷ []

abbrev runtime : Runtime texts
runtime = record (fresh texts) { seen = ("night", seen) ∷ [] }

both_found :
    evaluate texts (group within_five door_and_motion) seen
    ≡ (true, ("door", 10) ∷ ("motion", 12) ∷ [])
unfolding evaluate combine all_of of_entry in_window all_ok signatures latest_time earliest_time
    spread_exceeds condition_op event_key get sort_by_time insert
both_found = refl

evaluate-IsSeen_example :
    All (IsSeen texts seen) (evaluate texts (group within_five door_and_motion) seen).1
evaluate-IsSeen_example =
    evaluate-IsSeen texts sort_by_time-IsSort seen (group within_five door_and_motion)

is_all : condition_op texts within_five ≡ "all"
unfolding condition_op
is_all = refl

evaluate-IsClose_example : IsClose 5 (evaluate texts (group within_five door_and_motion) seen).1
evaluate-IsClose_example =
    evaluate-IsClose texts seen sort_by_time-IsSort within_five door_and_motion 5 is_all refl

either_not : (condition_op texts either == "not") ≡ false
unfolding condition_op
either_not = refl

either_all : (condition_op texts either == "all") ≡ false
unfolding condition_op
either_all = refl

evaluate-IsChoice_example :
    IsChoice
      (evaluate texts (group either door_and_motion) seen)
      (evaluate_all texts door_and_motion seen)
evaluate-IsChoice_example =
    evaluate-IsChoice texts seen either door_and_motion either_not either_all

record_match_once_example :
    (record_match texts "night"
      (group within_five door_and_motion)
      (record_match texts "night" (group within_five door_and_motion) runtime).1).0
    ≡ false
record_match_once_example =
    record_match_once texts "night" (group within_five door_and_motion) runtime

is_found : (record_match texts "night" (group within_five door_and_motion) runtime).0 ≡ true
unfolding record_match record_found is_fired evaluate combine all_of of_entry in_window all_ok
    signatures latest_time earliest_time spread_exceeds condition_op event_key get
is_found = refl

take_uses_up_example :
    All
      (IsGone texts (
        seen_of texts "night"
          (take_last_match texts "night"
            (record_match texts "night" (group within_five door_and_motion) runtime).1).1))
      (evaluate texts (group within_five door_and_motion) (seen_of texts "night" runtime)).1
take_uses_up_example =
    take_uses_up texts "night" (group within_five door_and_motion) runtime is_found

not_day : ("night" == "day") ≡ false
not_day = refl

match_and_take-IsSame_example :
    IsSame texts "day"
      (match_and_take texts
        (λ d. "")
        "night"
        (some (group within_five door_and_motion))
        "door"
        []
        14
        none
        runtime).1
      runtime
match_and_take-IsSame_example =
    match_and_take-IsSame texts "night" "day" not_day (λ d. "")
      (some (group within_five door_and_motion)) "door" [] 14 none runtime
