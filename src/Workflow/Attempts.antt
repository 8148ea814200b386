-- ===== src/Workflow/Attempts.antt =====
-- The attempts of one action: its calls, its retries and the waits between them.
use notmy_fault.Prelude.{
  ℕ, zero, suc, ◌+◌, ◌*◌, String, Option, none, some, Bool, true, false, [], ◌∷◌, ◌++◌,
  if◌then◌else◌,
}
use Prim.Native.Nat.{min, ◌^◌}
use notmy_fault.Prelude.Int.{ℤ, pos, negsuc}
use notmy_fault.Workflow.Plan.{
  Reason, timeout, Number, unreadable, number, Invocation, returns, stops, blocked, raises, World,
}
use notmy_fault.Workflow.State.{
  Exec, action_executed, action_cancelled, action_timed_out, error, emit, look, reason, called,
  count_ok, count_fail,
}

-- What `run_action` returns.
pub data Result (V : Type 0) : Type 0 where
  done : V → Result V
  failure : Result V
  stopped : Reason → Result V

-- min(max(n, 0), limit)
unfoldable pub clamp : ℕ → ℤ → ℕ
clamp limit (pos n) = min n limit
clamp limit (negsuc n) = 0

-- int(action.get(key, 0) or 0), clamped
unfoldable pub setting : ℕ → Option Number → Option ℕ
setting limit none = some 0
setting limit (some unreadable) = none
setting limit (some (number n)) = some (clamp limit n)

abbrev pub max_retries : ℕ
max_retries = 3

abbrev pub max_wait : ℕ
max_wait = 3600

unfoldable pub wait_seconds : Bool → ℕ → ℕ → ℕ
wait_seconds is_exponential delay attempt =
    min (if is_exponential then delay * 2 ^ attempt else delay) max_wait

abbrev pub is_timeout : Reason → Bool
is_timeout timeout = true
is_timeout _ = false

module _ {V : Type 0} where
  -- `_record_action_success`
  unfoldable pub record_success : String → V → Exec V → Result V × Exec V
  record_success id v s = (done v, emit (action_executed id) (count_ok s))

  -- `_record_action_failure`
  unfoldable pub record_failure : String → Exec V → Result V × Exec V
  record_failure id s = (failure, emit (error id) (count_fail s))

  -- `_record_action_cancelled`
  unfoldable pub record_cancelled : String → Reason → Exec V → Result V × Exec V
  record_cancelled id timeout s = (stopped timeout, emit (action_timed_out id) (count_fail s))
  record_cancelled id r s = (stopped r, emit (action_cancelled id) s)

  -- raise_if_cancelled, and what follows where it does not raise
  unfoldable pub unless_cancelled :
      String → Option Reason → Exec V → (Exec V → Result V × Exec V) → Result V × Exec V
  unless_cancelled id none s go_on = go_on s
  unless_cancelled id (some r) s go_on = record_cancelled id r s

  unfoldable pub waited : ℕ → Exec V → Exec V
  waited n s = record s { waits = s.waits ++ n ∷ [] }

  -- The wait before the next attempt; without a delay there is none.
  unfoldable pub between :
      World V → String → Bool → ℕ → ℕ → (Exec V → Result V × Exec V) → Exec V → Result V × Exec V
  between w id has_timeout zero n again s = again s
  between w id has_timeout (suc d) n again s =
      let t = look w s in unless_cancelled id (reason w has_timeout t) (waited n t) again

  -- What follows a call of the plugin; `again` is the next attempt, where one is left.
  unfoldable pub after_call :
      World V
      → String
      → Bool
      → Invocation V
      → Option (Exec V → Result V × Exec V)
      → Exec V
      → Result V × Exec V
  after_call w id has_timeout (returns v) again s =
      let t = look w s in unless_cancelled id (reason w has_timeout t) t (record_success id v)
  after_call w id has_timeout (stops r) again s = record_cancelled id r s
  after_call w id has_timeout blocked again s = record_failure id s
  after_call w id has_timeout raises none s = record_failure id s
  after_call w id has_timeout raises (some again) s = again s

  -- The `for` over the attempts, `left` of them after this one.
  unfoldable pub attempts : World V → String → Bool → Bool → ℕ → ℕ → ℕ → Exec V → Result V × Exec V
  attempts w id has_timeout is_exponential delay zero n s =
      let t = look w s in
      unless_cancelled id (reason w has_timeout t) t
        (λ u. after_call w id has_timeout (w.invoke u.calls) none (called u))
  attempts w id has_timeout is_exponential delay (suc left) n s =
      let t = look w s in
      unless_cancelled id (reason w has_timeout t) t (λ u.
        after_call w id has_timeout (w.invoke u.calls)
          (some (
            between w id has_timeout delay (wait_seconds is_exponential delay n)
              (attempts w id has_timeout is_exponential delay left (n + 1))))
          (called u))
