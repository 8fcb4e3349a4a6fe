-- ===== src/Checkpoints.antt =====
-- checkpoint_store.py: `CheckpointStore`. A directory is the list of its `.json` files by trace
-- identifier, in the order of `os.listdir`; a file is what reading it gives, its text is UTF-8 and
-- the time of a checkpoint is a text. The temporary file of
-- `save` is no such file. `stuck` has the files that the system does not remove.
pub mod Sorting
pub mod Pruning
pub mod Order
pub mod Survivors
pub mod Laws
pub mod Named
pub mod Listing
mod Tests
use smallpieclaw.Dict
use smallpieclaw.Dict.{Dict}
use smallpieclaw.Prelude.{
  ℕ, suc, String, ◌==◌, string_eq, nat_eq, Bool, true, false, not, ◌&&◌, ◌||◌, Option, none, some,
  List, [], ◌∷◌, ◌++◌, if◌then◌else◌, leb, ltb, contains,
}

abbrev pub Text : Type 0
Text = List ℕ

pub data Content : Type 0 where
  -- an object with a text under the key "created_at", and the rest of it
  checkpoint : (created_at payload : Text) → Content
  -- no JSON, or an object without the key
  corrupted : Content
  -- JSON that is no object
  no_object : Content
  -- reading it raises OSError
  unreadable : Content

abbrev pub Directory : Type 0
Directory = Dict String Content

-- Python's order of texts, by code points.
unfoldable pub text_le : Text → Text → Bool
text_le [] b = true
text_le (x ∷ a) [] = false
text_le (x ∷ a) (y ∷ b) = ltb x y || (x == y && text_le a b)

-- A file with its time, or `none` when it is corrupted.
abbrev pub Entry : Type 0
Entry = String × Option Text

abbrev pub key_of : Option Text → Text
key_of none = []
key_of (some created_at) = created_at

-- The entries that `_prune_old_checkpoints` collects; `none` is the TypeError of a file that is no
-- object.
unfoldable pub collect : Directory → Option (List Entry)
collect [] = some []
collect ((name, checkpoint created_at payload) ∷ d) = elim (collect d) [
  | none ↦ none
  | some entries ↦ some ((name, some created_at) ∷ entries)
]
collect ((name, corrupted) ∷ d) = elim (collect d) [
  | none ↦ none
  | some entries ↦ some ((name, none) ∷ entries)
]
collect ((name, no_object) ∷ d) = none
collect ((name, unreadable) ∷ d) = collect d

-- `sort` with `reverse=True`: equal entries keep their order.
unfoldable pub insert_entry : Entry → List Entry → List Entry
insert_entry e [] = e ∷ []
insert_entry e (f ∷ entries) =
    let rest = insert_entry e entries in
    if text_le (key_of f.1) (key_of e.1) then e ∷ f ∷ entries else f ∷ rest

unfoldable pub sort_entries : List Entry → List Entry
unfolding insert_entry
sort_entries [] = []
sort_entries (e ∷ entries) = insert_entry e (sort_entries entries)

-- The names to delete, where the first entry is the `i`-th.
unfoldable pub doomed : (max_checkpoints i : ℕ) → List Entry → List String
doomed cap i [] = []
doomed cap i ((name, none) ∷ entries) = name ∷ doomed cap (suc i) entries
doomed cap i ((name, some created_at) ∷ entries) =
    let rest = doomed cap (suc i) entries in if leb cap i then name ∷ rest else rest

unfoldable pub delete_files : (stuck : List String) → List String → Directory → Directory
unfolding contains
delete_files stuck [] d = d
delete_files stuck (name ∷ names) d =
    delete_files stuck names (if contains stuck name then d else Dict.remove d name)

-- `_prune_old_checkpoints`; `none` raises TypeError.
unfoldable pub prune : (max_checkpoints : ℕ) → (stuck : List String) → Directory → Option Directory
unfolding collect sort_entries doomed delete_files
prune cap stuck d = if cap == 0 then some d else elim (collect d) [
  | none ↦ none
  | some entries ↦ some (delete_files stuck (doomed cap 0 (sort_entries entries)) d)
]

-- The state that a run saves.
pub record RunState : Type 0 where
  pub created_at : Option Text
  pub payload : Text

abbrev written_as : Option Text → Text → Content
written_as none payload = corrupted
written_as (some created_at) payload = checkpoint created_at payload

abbrev pub content_of : RunState → Content
content_of state = written_as state.created_at state.payload

-- The rest of `save`, behind `os.replace`. A TypeError of the pruning is logged.
unfoldable pub settle : Directory → Option Directory → Directory
settle saved none = saved
settle saved (some pruned) = pruned

-- `written` is false when writing or replacing the file fails.
unfoldable pub save :
    (max_checkpoints : ℕ)
    → (stuck : List String) → (written : Bool) → String
    → RunState
    → Directory
    → Directory
unfolding prune settle
save cap stuck written trace_id state d =
    let saved = Dict.put d trace_id (content_of state) in
    if written then settle saved (prune cap stuck saved) else d

pub data Loaded : Type 0 where
  nothing : Loaded
  loaded : (created_at payload : Text) → Loaded
  type_error : Loaded

abbrev pub read : Option Content → Loaded
read none = nothing
read (some (checkpoint created_at payload)) = loaded created_at payload
read (some corrupted) = nothing
read (some no_object) = type_error
read (some unreadable) = nothing

unfoldable pub load : String → Directory → Loaded
load trace_id d = read (Dict.get d trace_id)

-- `delete`, and whether it ends without an error
unfoldable pub delete : (stuck : List String) → String → Directory → Directory × Bool
unfolding contains
delete stuck trace_id d =
    if contains stuck trace_id && Dict.has d trace_id
    then (d, false)
    else (Dict.remove d trace_id, true)

-- What `json.load` gives for a checkpoint: its time and the rest of it.
abbrev pub Checkpoint : Type 0
Checkpoint = Text × Text

-- The checkpoints that `list` collects; `none` raises TypeError.
unfoldable pub collect_valid : Directory → Option (List Checkpoint)
collect_valid [] = some []
collect_valid ((name, checkpoint created_at payload) ∷ d) = elim (collect_valid d) [
  | none ↦ none
  | some checkpoints ↦ some ((created_at, payload) ∷ checkpoints)
]
collect_valid ((name, corrupted) ∷ d) = collect_valid d
collect_valid ((name, no_object) ∷ d) = none
collect_valid ((name, unreadable) ∷ d) = collect_valid d

-- The same sort, of checkpoints by their time.
unfoldable pub insert_checkpoint : Checkpoint → List Checkpoint → List Checkpoint
insert_checkpoint c [] = c ∷ []
insert_checkpoint c (b ∷ checkpoints) =
    let rest = insert_checkpoint c checkpoints in
    if text_le b.0 c.0 then c ∷ b ∷ checkpoints else b ∷ rest

unfoldable pub sort_checkpoints : List Checkpoint → List Checkpoint
unfolding insert_checkpoint
sort_checkpoints [] = []
sort_checkpoints (c ∷ checkpoints) = insert_checkpoint c (sort_checkpoints checkpoints)

unfoldable pub list : Directory → Option (List Checkpoint)
unfolding collect_valid sort_checkpoints
list d = elim (collect_valid d) [
  | none ↦ none
  | some checkpoints ↦ some (sort_checkpoints checkpoints)
]
