-- ===== src/Registry/Check.antt =====
-- `_check_dependencies`.
use notmy_fault.Prelude.{
  ℕ, zero, suc, String, Option, none, some, Bool, true, false, not, List, [], ◌∷◌, length, ◌&&◌,
  ◌||◌, if◌then◌else◌,
}
use notmy_fault.Prelude.Dict.{Dict, get, put, keys}
use notmy_fault.Registry.Schema.{Reason, lacks, depends_on, Definition, references}

-- The end of the check: the definitions, the DataTypeError "private_plugin_data", or a KeyError.
pub data Checked : Type 0 where
  checked : Dict Definition → Checked
  private_data key_error out_of_fuel : Checked

-- The first dependency that is not available, or is missing, if any.
pub data Look : Type 0 where
  clear : Look
  blocked lost : String → Look

unfoldable pub mark : Definition → Reason → Definition
mark d e = record d { available = false; error = some e }

unfoldable pub look_at : Option Definition → String → Look → Look
look_at none r rest = lost r
look_at (some t) r rest = if t.available then rest else blocked r

unfoldable pub look : Dict Definition → List String → Look
look ds [] = clear
look ds (r ∷ rs) = look_at (get ds r) r (look ds rs)

-- The visit of a definition with what the look at its dependencies gave: the definitions after it,
-- whether it changed them, and none where it raises a KeyError.
unfoldable pub apply_look :
    Dict Definition → String → Definition → Look → Option (Dict Definition × Bool)
apply_look ds k d clear = some (ds, false)
apply_look ds k d (blocked r) = some (put ds k (mark d (depends_on r)), true)
apply_look ds k d (lost r) = none

unfoldable pub visit_if :
    Bool → Dict Definition → String → Definition → Look → Option (Dict Definition × Bool)
visit_if true ds k d l = apply_look ds k d l
visit_if false ds k d l = some (ds, false)

-- The first loop, over the dependencies of a definition; none where it raises. Only the bindings
-- and the keys of `ds` are read, which the loop does not change.
unfoldable pub check_target : Definition → String → Option Definition → Option Definition
check_target d r none = some (mark d (lacks r))
check_target d r (some t) = if d.shared && not t.shared then none else some d

unfoldable pub check_references :
    Dict Definition → List String → Option Definition → Option Definition
check_references ds [] o = o
check_references ds (r ∷ rs) none = none
check_references ds (r ∷ rs) (some d) = check_references ds rs (check_target d r (get ds r))

unfoldable pub keep :
    String → Option Definition → Option (Dict Definition) → Option (Dict Definition)
keep k none rest = none
keep k (some d) none = none
keep k (some d) (some ds) = some ((k, d) ∷ ds)

-- changed = changed or ...
unfoldable pub or_changed : Bool → Option (Dict Definition × Bool) → Option (Dict Definition × Bool)
or_changed changed none = none
or_changed changed (some (ds, c)) = some (ds, changed || c)

-- The end of a round: another one where it changed something.
unfoldable pub while_changed :
    (Dict Definition → Checked) → Option (Dict Definition × Bool) → Checked
while_changed again none = key_error
while_changed again (some (next, true)) = again next
while_changed again (some (next, false)) = checked next

module _ (is_custom : String → Bool) where
  abbrev pub needs : Definition → List String
  needs d = references is_custom d.form

  unfoldable pub check_all : Dict Definition → Dict Definition → Option (Dict Definition)
  check_all ds [] = some []
  check_all ds ((k, d) ∷ rest) = keep k (check_references ds (needs d) (some d)) (check_all ds rest)

  unfoldable pub visit_found :
      Dict Definition → String → Option Definition → Option (Dict Definition × Bool)
  visit_found ds k none = some (ds, false)
  visit_found ds k (some d) = visit_if d.available ds k d (look ds (needs d))

  unfoldable pub visit : Dict Definition → String → Option (Dict Definition × Bool)
  visit ds k = visit_found ds k (get ds k)

  -- One round of the while loop, over the keys, where `changed` is what the round has found so far.
  unfoldable pub sweep :
      List String → Option (Dict Definition × Bool) → Option (Dict Definition × Bool)
  sweep ks none = none
  sweep [] (some s) = some s
  sweep (k ∷ ks) (some (ds, changed)) = sweep ks (or_changed changed (visit ds k))

  unfoldable pub round : Dict Definition → Option (Dict Definition × Bool)
  round ds = sweep (keys ds) (some (ds, false))

  unfoldable pub loop : ℕ → Dict Definition → Checked
  loop zero ds = out_of_fuel
  loop (suc fuel) ds = while_changed (λ next. loop fuel next) (round ds)

  unfoldable pub rounds : Option (Dict Definition) → Checked
  rounds none = private_data
  rounds (some ds) = loop (suc (length ds)) ds

  unfoldable pub check_dependencies : Dict Definition → Checked
  check_dependencies ds = rounds (check_all ds ds)
