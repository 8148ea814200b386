-- ===== src/Scheduler/Config.antt =====
-- `_concurrency_config` and the two defaults that `submit` and the dispatch loop read with it.
use notmy_fault.Prelude.{ℕ, suc, String, Option, none, some, Bool, ◌==◌, if◌then◌else◌}
use notmy_fault.Prelude.Int.{ℤ, pos}

pub data Mode : Type 0 where
  single queue replace parallel : Mode

-- A JSON value where the code wants an integer: a bool is refused although it is an `int`.
pub data Raw : Type 0 where
  absent : Raw
  int : ℤ → Raw
  bool : Bool → Raw
  other : Raw

-- `mode` is `none` where the key is missing or holds no text.
pub record RawConcurrency : Type 0 where
  pub mode : Option String
  pub max_concurrency : Raw
  pub queue_limit : Raw

-- `concurrency` is `none` where the rule has none, or one that is no dict.
pub record Rule : Type 0 where
  pub rule_id : String
  pub concurrency : Option RawConcurrency

pub record Config : Type 0 where
  pub mode : Mode
  pub max_concurrency : Option ℕ
  pub queue_limit : Option ℕ

abbrev pub default_max_concurrency : ℕ
default_max_concurrency = 1

abbrev pub default_queue_limit : ℕ
default_queue_limit = 20

unfoldable pub mode_of : String → Option Mode
mode_of s =
    if s == "single"
    then some single
    else if s == "queue"
    then some queue
    else if s == "replace"
    then some replace
    else if s == "parallel"
    then some parallel
    else none

-- isinstance(value, int) and not isinstance(value, bool) and value >= 1
unfoldable pub at_least_one : Raw → Option ℕ
at_least_one (int (pos (suc n))) = some (suc n)
at_least_one _ = none

abbrev pub or_else {ℓ} : {A : Type ℓ} → Option A → A → A
or_else none d = d
or_else (some a) d = a

abbrev unlimited : Config
unlimited = record { mode = parallel; max_concurrency = none; queue_limit = none }

-- The key `max_concurrency` stays out of the result for a parallel rule that sets none.
max_key : Mode → Option ℕ → Option ℕ
max_key mode (some n) = some n
max_key parallel none = none
max_key _ none = some default_max_concurrency

with_mode : RawConcurrency → Option Mode → Config
unfolding max_key at_least_one
with_mode raw none = unlimited
with_mode raw (some mode) = record {
  mode = mode;
  max_concurrency = max_key mode (at_least_one raw.max_concurrency);
  queue_limit = some (or_else (at_least_one raw.queue_limit) default_queue_limit);
}

abbrev known_mode : Option String → Option Mode
known_mode none = none
known_mode (some s) = mode_of s

read_config : Option RawConcurrency → Config
unfolding with_mode mode_of
read_config none = unlimited
read_config (some raw) = with_mode raw (known_mode raw.mode)

unfoldable pub concurrency_config : Rule → Config
unfolding read_config
concurrency_config rule = read_config rule.concurrency

-- config.get("max_concurrency", self._max_workers if mode == "parallel" else 1)
unfoldable pub max_running : ℕ → Config → ℕ
max_running max_workers c =
    or_else c.max_concurrency (elim c.mode [ parallel ↦ max_workers | _ ↦ default_max_concurrency ])

-- config.get("queue_limit", DEFAULT_QUEUE_LIMIT)
unfoldable pub queue_cap : Config → ℕ
queue_cap c = or_else c.queue_limit default_queue_limit
