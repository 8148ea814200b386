-- ===== src/Lib.antt =====
-- NotmyFault, an automation engine: triggers report events, the engine matches them against the
-- conditions of its rules, and each match becomes a run of the rule's actions. This library models
-- the parts of notmyfault/core that decide what happens to a run and to the values it works with, and
-- the rights of plugins to run commands as administrator.
--
-- Parts and files:
-- The scheduler, notmyfault/core/rule_scheduler.py: `Sched` (Scheduler/State) holds the fields of
-- `RuleScheduler` (`_active_runs`, `_executing_runs`, `_queues`, `_removed_rules`,
-- `_worker_count`, `_shutting_down`), with the started workers, the prepared runs and the emitted
-- history events beside them. Scheduler/Config is `_concurrency_config`, Scheduler/Submit is
-- `submit` and `_cancel_with_retry`, Scheduler/Dispatch the three `_dispatch_...` methods, and
-- Scheduler/Operations the rest: `on_run_event`, `drop_rule`, `shutdown`, `_run_entry` with
-- `_retire_run`, the end of a worker, and `stats`. Scheduler/Steps puts them together: a history
-- of the scheduler is a sequence of calls, each under the lock.
-- Scheduler/Rule and Scheduler/Calls carry a property of states through the dispatch loop and
-- through all calls; the other modules of Scheduler are named for what they prove with it.
--
-- Lifecycle, notmyfault/core/run_lifecycle.py: the states of a run.
--
-- History, notmyfault/core/run_history.py: the replay of run events into run records
-- (History/Replay is `_apply_event`, History/Build is `build_runs`, `list_runs` and `get_run`).
--
-- Conditions, notmyfault/core/conditions.py and condition_runtime.py: Conditions/Tree is the tree of
-- a rule with its walks, Conditions/Evaluate is `_evaluate`, Conditions/Poll is `poll_absences`, and
-- Conditions/Runtime holds the other methods of `ConditionRuntime` over its four dicts.
--
-- Reload, notmyfault/core/hot_reloader.py: Reload/Check is `check_once` with
-- `_restore_previous_rules`. `Round` holds what the callables answer in one round, and `Reloader` has
-- the rules in force of notmyfault/core/engine.py and the supervisor's last start or stop beside the
-- fields. A start that returns may have started no thread: what it tells is the number.
--
-- Workflows, notmyfault/core/workflow_executor.py: Workflow/Run is `execute_workflow` with its ends,
-- Workflow/Sequence is `_execute_action_sequence` with the assignments and branches, and
-- Workflow/Action and Workflow/Attempts are `run_action`. `Exec` holds the context of the run and the
-- fields of the executor; `Host` holds what the bindings, predicates, variables and plugin modules
-- answer, and `World` what each plugin call does and what each look at the shutdown event shows. An
-- exception that no handler names (a plugin's SystemExit, an AttributeError of a binding) is an argument
-- of `execute_workflow`, the changes of the state before it; only its `finally` sees it.
--
-- Administrator rights, notmyfault/security/sudo.py: Sudo/Session holds the token and the grants,
-- and Sudo/Command is `run_as_admin` with the checks of callers and command. A module stands for
-- its globals: an address that may be used again, and a number that is its own.
--
-- Triggers, notmyfault/core/trigger_supervisor.py: Supervisor/Start is `start`, Supervisor/Stop is
-- `stop`, Supervisor/State the other methods. `Supervisor` holds the five dicts, and beside them the
-- threads that are alive with the instance each works for. A thread may end between any two calls
-- and, while `stop` works, before each of its two looks at the thread.
--
-- Values, notmyfault/core/value_codec.py with `copy_value` of data_types.py: `Value` is the tree of a
-- data value; `Scalars` holds Python's types with what prints and reads them, and which integers
-- `str` prints.
--
-- Bindings, notmyfault/core/bindings.py: Bindings/Value has the values of a rule's parameters and
-- the data of a run, Bindings/Reference is `_read_reference`, Bindings/Resolve `resolve_value`, and
-- Bindings/Available `contains_dynamic_value`, `iter_references` and `unavailable_references`.
-- `Reader` holds what the type registry, the conversions and the pattern of the old templates
-- answer. Places in the errors are not modelled; the dicts of a context hold what the workflow puts
-- there.
--
-- Predicates, notmyfault/core/predicates.py: Predicates/Validate is `validate_predicate`, and
-- Predicates/Evaluate `evaluate_predicate`, whose operands the bindings resolve.
--
-- Data types, notmyfault/core/type_registry.py: Registry/Check is `_check_dependencies`, over the
-- definitions of Registry/Schema, which also has `require_shared`. A schema is what `normalize_type`
-- gives, and the pattern of qualified names is a parameter.
--
-- Diagnostics, notmyfault/core/diagnostics.py: Diagnostics/State has the class with its methods, and
-- Diagnostics/Log what was reported, without a limit.
--
-- The event bus, notmyfault/core/event_bus.py: Bus/Emit is `emit_event`, `poll_absences`,
-- `call_notmyfault` and `_dispatch`. `Bus` puts the runtime of the conditions and the scheduler
-- together. The conditions of the rules are taken as validated: an exception of the matching, which
-- would end the loop over the rules, stands there as no match.
--
-- How they interact: the bus gives a trigger's event to `match_and_take`; the combination that it
-- hands out becomes the context of a run, which `submit` starts, queues or drops; the run's events
-- go to the history, and its end goes back to the scheduler as `on_run_event`.
--
-- What is given from outside is a parameter. `World` holds the outcomes of `spawn_thread_fn` and
-- `cancel_run_fn`, by the number of the call, and the limits of the constructor; every call may have
-- another one. `Json` holds the values inside a packet with Python's conversions of them
-- (`str`, `float`, truth), which the replay only applies and copies. `Python` (Conditions/Tree) holds
-- the values in a condition, their equality, `json.dumps` and `sorted`; `match` is also given
-- `config_fingerprint`. Times are natural numbers of ticks.
--
-- Fuel: the three dispatch methods call one another when a worker cannot be started. They take fuel,
-- `enough` gives three for each queued run and four more: a queued run takes at most three nested
-- calls, since every round of the loop takes one out of its queue.
--
-- The while loop of `_check_dependencies` takes fuel too, one more than there are definitions: each
-- round but the last makes an available definition unavailable.
--
-- A dict is a list of pairs with a key once at most, in the order of insertion, and a set a list of
-- texts without repetition; where the code iterates over a set the order is this one.
--
-- Not modelled: the interleaving of `submit` between its release of the lock and the start of the
-- worker, which are one call here; `wait_for_idle` and the notification of waiting threads; an
-- exception of the history callback or of `prepare_run_fn`; a status that is a list or a dict; the file of the history, its rotation
-- and its redaction; `expression_type` and the walk over old templates in the bindings;
-- `normalize_type`, `normalize_value` and the relations between data types, which rest on Python's
-- dates, decimals and patterns; and the other parts of the repository: the validation of condition
-- trees and of rules, the masking of sensitive values in a workflow's events, the plugins and their
-- loading, the HTTP host and the dashboard, the single actions and triggers, and the build scripts.
pub mod Prelude
pub mod Scheduler
pub mod Lifecycle
pub mod History
pub mod Conditions
pub mod Reload
pub mod Workflow
pub mod Sudo
pub mod Codec
pub mod Supervisor
pub mod Bus
pub mod Bindings
pub mod Predicates
pub mod Registry
pub mod Diagnostics
