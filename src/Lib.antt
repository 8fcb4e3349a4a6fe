-- ===== src/Lib.antt =====
-- smallpieclaw: an agent that runs tools, plans and sub-agents for an operator.
--
-- What is modelled is the core that decides what runs and what may run.
--   Plan (execution_plan.py). Plan.Model has the plan, `validate_plan` (Kahn's loop, `kahn`) and
--     `topological_sort` (`levels`); a step's arguments are a parameter there. Plan.Substitute has
--     `substitute_results`: texts are lists of code points, `placeholder` is the regular expression,
--     `json.dumps` of an outcome is a parameter. Plan.Recovery is `_execute_step_with_recovery` with
--     `_diagnose_step_failure`: `turn` is one round of its loop. Plan.Run is `_process_batches`,
--     `_run_batch`, `_drain_pending`, `_classify_incomplete`, `_record_step_outcome`,
--     `_build_summary` and `execute`.
--   ErrorTypes (error_registry.py) is the table of retry policies that Plan.Recovery consults, and
--     Outcome (outcome_utils.py) the outcome of a step that all of them pass on.
--   Paths (`is_contained` of path_policy.py, `grant_covers` of confirmation.py) is the containment of
--     paths, which the policy and the grants use.
--   Policy (path_policy.py, `PathPolicy.classify`) is the verdict on reading or writing a path, over
--     the collections of a policy; `os.stat` is a parameter. Policy.Create is `PathPolicy.create`,
--     which builds them from the arguments; what it asks the operating system is a parameter.
--   Grants (confirmation.py, `GrantLedger`) is the ledger of standing consents.
--   Confirm (confirmation.py, `ConfirmationManager`) has the flows by which an operator answers.
--   Agents (sub_agent_registry.py, `SubAgentRegistry`) is the table of running sub-agents and the
--     results kept of those that ended.
--   Supervisor (sub_agent_supervisor.py, `SubAgentSupervisor.submit` and `_run_and_notify`) is the
--     background run of a sub-agent as the list of what it does to its record, to the registry of
--     Agents and to its callbacks; how the runner ends is a parameter.
--   Scheduler (scheduler.py) is the table of scheduled jobs. Scheduler.Tags normalises tags and context
--     keys, which builtin_tools/context_io.py validates; Scheduler.Schedule resolves what a request
--     says of times; Scheduler.Runs interleaves the runs of jobs with the operations on the table;
--     Scheduler.ExecutionLog rotates the log.
--   Prompts (prompt_registry.py, `PromptRegistry`) is the registry of the prompts of the operator: its
--     memory, its log with the replay at a start, and its archive. Prompts.Operations has the
--     operations and the histories of them; identifiers and times are arguments, and `Disk` says which
--     writes fail. Prompts.Evict is the eviction, Prompts.Recovery what the log gives back, and
--     Prompts.Starts what `show` finds. Prompts.Search is the search and its pages, and
--     Prompts.Searched what it finds; Prompts.Ulid is the text of an identifier. Reading the files
--     succeeds.
--   Checkpoints (checkpoint_store.py, `CheckpointStore`) is the directory of the checkpoints of runs
--     with its pruning; a time is a text. Checkpoints.Laws is about `save`, Checkpoints.Listing about
--     `list`.
--   Usage (token_usage.py, `TokenUsageRegistry`) counts the tokens of each model and day.
--   Memory (memory_store.py, `ShortTermMemory`) is the window of recent turns.
--   Compaction (context_manager.py) is the truncation of texts and the loop that tightens a short
--     context, and Compaction.Compact the rest of `maybe_compact`: the threshold, the division of a
--     long history, its summary and the loop that tightens the result. The token estimate, the model
--     and the float product of the threshold are parameters.
--   React (react_loop.py, native_turns.py) is the loop in which the model answers and its actions are
--     dispatched. React.State has the types, React.Extract finds the action object in a text,
--     React.Turns is the request to the model, React.Dispatch the effect of an action and React.Step
--     one iteration and the loop, which compacts its messages by Compaction.Compact. A list of
--     `StepWorld`s says what the loop meets in each iteration.
--   Dict is Python's dict as an association list in order of insertion, Subsets has the lemmas that
--     count distinct members of lists, and Prelude has the shared tests,
--     lists and integers.
--
-- Loops run on fuel. `kahn` and `levels` get one more than the number of steps, since each round
-- takes an id that has not been taken before; the retry loop gets three rounds, since no policy of
-- the table allows more than two retries; the loops of Compaction get five rounds, since they halve
-- limits of 6000 characters down to 400. That this is enough is part of the theorems.
--
-- Threads, clocks and services answer through parameters. In Plan.Run a `BatchWorld` says for each
-- batch how its threads, its deadline and the cancel event behave; in Plan.Recovery a function says
-- what the factory, the sub-agent and the cancel event do in each round; Python iterates over sets
-- of futures in no fixed order, and the model takes the order of submission. In Confirm the threads
-- of a request and of its signals interleave step by step; a step is one operation on a dictionary
-- or an event, and the entries of one token stand for the tables, since tokens differ. In Grants,
-- Agents and Usage a lock makes each operation one step, and in Scheduler each write under the
-- lock and each end of a run is one; a clock is an argument, and `realpath`
-- behind `expanduser` is a parameter. Paths are those of a POSIX system, where `normcase` changes
-- nothing. Texts that are only shown or logged are left out, or are constructors with what they
-- interpolate.
--
-- Not modelled: the clients of language models, MCP and Telegram, logging, configuration, sandboxing
-- and migrations, which are input and output through libraries;
-- and the other memories.
pub mod Prelude
pub mod Dict
pub mod Subsets
pub mod ErrorTypes
pub mod Outcome
pub mod Paths
pub mod Policy
pub mod Grants
pub mod Confirm
pub mod Agents
pub mod Supervisor
pub mod Scheduler
pub mod Prompts
pub mod Checkpoints
pub mod Usage
pub mod Memory
pub mod Compaction
pub mod React
pub mod Plan
