-- ===== src/Prelude/Texts.antt =====
-- Python's `set` of texts, as a list without order of its own: the model keeps insertion order.
use mathlib.Core.Path.{◌≡◌, refl}
use mathlib.Core.Bool.{Bool, true, false, not, ◌&&◌, ◌||◌}
use mathlib.Core.List.{List, [], ◌∷◌}
use Prim.Native.Nat.{◌+◌, ◌≤◌}
use Prim.Native.String.{String}
use native.Mathlib.Omega.{arith}
use text.Mathlib.Text.{◌==◌}
use text.Mathlib.TextEquality.{eq_iff}
use notmy_fault.Prelude.Tests.{if◌then◌else◌}
use notmy_fault.Prelude.Lists.{length}

pub eq_text : (s t : String) → (s == t) ≡ true → s ≡ t
eq_text s t h = ground (arith, eq_iff s t)

-- x in s
unfoldable pub has : List String → String → Bool
has [] x = false
has (y ∷ s) x = (y == x) || has s x

-- s.add(x)
unfoldable pub add : List String → String → List String
add [] x = x ∷ []
add (y ∷ s) x = if y == x then y ∷ s else y ∷ add s x

-- s.discard(x)
unfoldable pub discard : List String → String → List String
discard [] x = []
discard (y ∷ s) x = let rest = discard s x in if y == x then rest else y ∷ rest

pub has-add : (s : List String) (x z : String) → has (add s x) z ≡ ((x == z) || has s z)
unfolding has add
has-add [] x z = refl
has-add (y ∷ s) x z = ground (arith, has-add s x z, eq_iff y x, eq_iff y z, eq_iff x z)

pub has-discard : (s : List String) (x z : String) → has (discard s x) z ≡ (not (x == z) && has s z)
unfolding has discard
has-discard [] x z = ground arith
has-discard (y ∷ s) x z = ground (arith, has-discard s x z, eq_iff y x, eq_iff y z, eq_iff x z)

pub length-discard-le : (s : List String) (x : String) → length (discard s x) ≤ length s
unfolding discard
length-discard-le [] x = omega arith
length-discard-le (y ∷ s) x = ground (arith, length-discard-le s x)

pub length-add-le : (s : List String) (x : String) → length (add s x) ≤ length s + 1
unfolding add
length-add-le [] x = omega arith
length-add-le (y ∷ s) x = ground (arith, length-add-le s x)

pub ruleset set_laws = (has-add, has-discard)
