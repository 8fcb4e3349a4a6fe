-- ===== src/Prompts/Tests.antt =====
-- A registry with two prompts, one of which ends before a restart.
use smallpieclaw.Dict
use smallpieclaw.Prelude.{
  ℕ, ◌+◌, ◌*◌, ◌^◌, ◌≤◌, ◌++◌, arith, keep, none, length, contains, distinct, string_eq, ◌≡◌, ◌⊎◌,
  refl, true, false, some, List, [], ◌∷◌, All,
}
use smallpieclaw.Prompts.{Registry, PromptRecord, Memory, Disk, is_final, replay_log}
use smallpieclaw.Prompts.Operations.{
  evict_oldest, show, by_trace, Op, do_start, do_finish, do_add, restart, run_ops,
}
use smallpieclaw.Prompts.Evict.{IsKeyed, Eviction, evict_oldest-Eviction}
use smallpieclaw.Prompts.Replay.{AgreesAt}
use smallpieclaw.Prompts.Recovery.{empty_registry, run_ops-AgreesAt}
use smallpieclaw.Prompts.Logged.{IsClean}
use smallpieclaw.Prompts.Faithful.{IsSameStart}
use smallpieclaw.Prompts.Starts.{starts, show-run_ops}
use smallpieclaw.Prompts.Search.{Query, ids, matches, search, list_recent}
use smallpieclaw.Prompts.Pages.{IsNewestFirst}
use smallpieclaw.Prompts.Searched.{search-show, search-IsPage}
use smallpieclaw.Prompts.Ulid.{encode, generate_ulid, generate_ulid-newer}
use smallpieclaw.Checkpoints.{text_le}

abbrev fine : Disk
fine = record { log_ok = true; archive_ok = true }

abbrev history : List (Disk × Op)
history =
    (fine, do_start "a" "r-1" [] 5)
    ∷ (fine, do_add "a" "s1")
    ∷ (fine, do_start "b" "r-2" [] 6)
    ∷ (fine, do_finish "a" "done" 7)
    ∷ (fine, restart)
    ∷ (fine, do_add "b" "s2")
    ∷ []

history-IsClean : All IsClean history
history-IsClean = (
  ((refl, refl), refl),
  (
    ((refl, refl), refl),
    (((refl, refl), refl), ((refl, refl), ((refl, refl), (((refl, refl), refl), tt)))),
  ),
)

abbrev first : PromptRecord
first = record {
  prompt_id = "a";
  trace_id = "r-1";
  text = [];
  started_at = 5;
  ended_at = some 7;
  status = "done";
  sub_agent_ids = "s1" ∷ [];
}

logged : Dict.get (replay_log (run_ops history empty_registry).log).records "a" ≡ some first
unfolding run_ops replay_log Dict.get Dict.put
logged = refl

traced : by_trace (run_ops history empty_registry) "r-1" ≡ some first
unfolding run_ops replay_log Dict.get Dict.put by_trace
traced = refl

-- A write of the log that fails leaves the record in the memory only.
unlogged :
    (run_ops
      ((record { log_ok = false; archive_ok = true }, do_start "a" "r-1" [] 5) ∷ [])
      empty_registry).log
    ≡ []
unfolding run_ops
unlogged = refl

run_ops-AgreesAt_example :
    AgreesAt
      (run_ops history empty_registry).memory.records
      (replay_log (run_ops history empty_registry).log).records
      "b"
run_ops-AgreesAt_example = run_ops-AgreesAt history "b" history-IsClean

once : distinct (starts history) ≡ true
unfolding distinct contains
once = refl

show-run_ops_example :
    (s : PromptRecord) × (show (run_ops history empty_registry) "a" ≡ some s)
    × (s.prompt_id ≡ "a")
    × IsSameStart s first
    × ((s ≡ first) ⊎ (is_final first ≡ true))
show-run_ops_example = show-run_ops history "a" first history-IsClean once logged

abbrev small : Memory
small = record { records = ("a", first) ∷ []; trace_to_id = ("r-1", "a") ∷ [] }

evict_oldest-Eviction_example : Eviction small (evict_oldest small)
unfolding Dict.has
evict_oldest-Eviction_example = evict_oldest-Eviction small (refl, tt) (refl, tt)

-- `str.lower` of texts of lower-case letters.
abbrev lower : List ℕ → List ℕ
lower text = text

abbrev ended : Query
ended = record {
  text = [];
  status = some "done";
  trace_id = none;
  since = none;
  until = some 6;
  cutoff = some 100;
}

abbrev used : Registry
used = run_ops history empty_registry

shown : show used "a" ≡ some first
unfolding run_ops show replay_log Dict.get Dict.put
shown = refl

used-IsKeyed : IsKeyed used.memory.records
unfolding run_ops replay_log Dict.get Dict.put
used-IsKeyed = (refl, (refl, tt))

few : (search lower ended 5 0 used).total_matched ≤ 5
unfolding run_ops search replay_log Dict.get Dict.put keep contains
few = omega arith

-- "b" still runs, but it started later.
recent : ids (list_recent 2 used) ≡ "b" ∷ "a" ∷ []
unfolding list_recent run_ops replay_log Dict.get Dict.put
recent = refl

search-show_example : contains (ids (search lower ended 5 0 used).results) "a" ≡ true
search-show_example = search-show lower ended used "a" first 5 used-IsKeyed shown refl few

search-IsPage_example :
    (length (search lower ended 1 0 used).results ≤ 1)
    × All (λ s. matches lower ended s ≡ true) (search lower ended 1 0 used).results
    × IsNewestFirst (search lower ended 1 0 used).results
    × ((search lower ended (1 + 2) 0 used).results
        ≡ (search lower ended 1 0 used).results ++ (search lower ended 2 (0 + 1) used).results)
search-IsPage_example = search-IsPage lower ended used 1 2 0

abbrev zeros : List ℕ
zeros =
    48 ∷ 48 ∷ 48 ∷ 48 ∷ 48 ∷ 48 ∷ 48 ∷ 48 ∷ 48 ∷ 48 ∷ 48 ∷ 48 ∷ 48 ∷ 48 ∷ 48 ∷ 48 ∷ 48 ∷ 48 ∷ 48
    ∷ 48 ∷ 48 ∷ 48 ∷ 48 ∷ 48 ∷ 48 ∷ 90 ∷ []

next_ulid : (a : List ℕ) × (generate_ulid 1 0 ≡ some a)
unfolding generate_ulid
next_ulid = (encode 26 (1 * 2 ^ 80 + 0) [], refl)

first_ulid : generate_ulid 0 31 ≡ some zeros
unfolding generate_ulid
first_ulid = refl

generate_ulid-newer_example : (length zeros ≡ 26) × (text_le next_ulid.0 zeros ≡ false)
generate_ulid-newer_example =
    generate_ulid-newer 0 1 31 0 zeros next_ulid.0 (omega arith) (omega arith) (omega arith)
      first_ulid next_ulid.1
