-- ===== src/Checkpoints/Pruning.antt =====
-- Which files `_prune_old_checkpoints` deletes.
use smallpieclaw.Dict
use smallpieclaw.Prelude.{
  ℕ, zero, suc, ◌+◌, ◌≤◌, String, ◌==◌, string_eq, nat_eq, ◌≡◌, refl, ap, ◌∙◌, inl, inr, Bool, true,
  false, not, ◌&&◌, Option, none, some, List, [], ◌∷◌, ◌++◌, arith, if◌then◌else◌, take, drop, All,
  contains, Bool-cases,
}
use smallpieclaw.Checkpoints.{
  Text, Content, checkpoint, corrupted, no_object, unreadable, Directory, Entry, collect, doomed,
  delete_files,
}

-- The names of the corrupted entries.
unfoldable pub corrupted_names : List Entry → List String
corrupted_names [] = []
corrupted_names ((name, none) ∷ entries) = name ∷ corrupted_names entries
corrupted_names ((name, some created_at) ∷ entries) = corrupted_names entries

doomed-all : (cap i : ℕ) (entries : List Entry) → cap ≤ i → doomed cap i entries ≡ Dict.keys entries
unfolding doomed
doomed-all cap i [] h = refl
doomed-all cap i ((name, none) ∷ entries) h =
    ap (λ t. name ∷ t) (doomed-all cap (suc i) entries (omega arith))
doomed-all cap i ((name, some created_at) ∷ entries) h =
    ground (arith, doomed-all cap (suc i) entries (omega arith))

-- All entries behind the first ones, and the corrupted ones among these.
doomed-split :
    (n i : ℕ) (entries : List Entry)
    → doomed (i + n) i entries ≡ corrupted_names (take n entries) ++ Dict.keys (drop n entries)
unfolding doomed corrupted_names
doomed-split zero i entries = doomed-all (i + 0) i entries (omega arith)
doomed-split (suc n) i [] = refl
doomed-split (suc n) i ((name, none) ∷ entries) =
    let rest = doomed-split n (suc i) entries in
    ap (λ t. name ∷ t)
      (ap (λ c. doomed c (suc i) entries) {x = i + suc n} {y = suc i + n} (omega arith) ∙ rest)
doomed-split (suc n) i ((name, some created_at) ∷ entries) =
    let rest = doomed-split n (suc i) entries in
    let same : doomed (i + suc n) (suc i) entries ≡ doomed (suc i + n) (suc i) entries =
      ap (λ c. doomed c (suc i) entries) (omega arith) in
    ground (arith, rest, same)

pub doomed-split_lem :
    (cap : ℕ) (entries : List Entry)
    → doomed cap 0 entries ≡ corrupted_names (take cap entries) ++ Dict.keys (drop cap entries)
doomed-split_lem cap entries =
    ap (λ c. doomed c 0 entries) {x = cap} {y = 0 + cap} (omega arith) ∙ doomed-split cap 0 entries

-- Nothing is stuck: the names are deleted, and nothing else.
pub has-delete_files :
    (names : List String) (d : Directory) (k : String)
    → Dict.has (delete_files [] names d) k ≡ (Dict.has d k && not (contains names k))
unfolding delete_files contains
has-delete_files [] d k = ground arith
has-delete_files (name ∷ names) d k =
    ground (arith, has-delete_files names (Dict.remove d name) k, Dict.has-remove d name k)

pub get-delete_files :
    (names : List String) (d : Directory) (k : String)
    → Dict.get (delete_files [] names d) k ≡ (if contains names k then none else Dict.get d k)
unfolding delete_files contains
get-delete_files [] d k = refl
get-delete_files (name ∷ names) d k =
    ground (arith, get-delete_files names (Dict.remove d name) k, Dict.get-remove d name k)

pub delete_files-IsUnique :
    (names : List String) (d : Directory)
    → Dict.IsUnique d
    → Dict.IsUnique (delete_files [] names d)
unfolding delete_files contains
delete_files-IsUnique [] d unique = unique
delete_files-IsUnique (name ∷ names) d unique =
    delete_files-IsUnique names (Dict.remove d name) (Dict.remove-IsUnique d name unique)

-- Reading the file gives an object, or no JSON.
abbrev pub is_readable : Content → Bool
is_readable (checkpoint created_at payload) = true
is_readable corrupted = true
is_readable no_object = false
is_readable unreadable = false

abbrev pub AreReadable : Directory → Type 0
AreReadable d = All (λ file. is_readable file.1 ≡ true) d

abbrev pub time_of : Content → Option Text
time_of (checkpoint created_at payload) = some created_at
time_of corrupted = none
time_of no_object = none
time_of unreadable = none

-- The entries of files that can all be read.
abbrev pub entries_of : Directory → List Entry
entries_of [] = []
entries_of ((name, content) ∷ d) = (name, time_of content) ∷ entries_of d

pub collect-entries_of : (d : Directory) → AreReadable d → collect d ≡ some (entries_of d)
unfolding collect
collect-entries_of [] readable = refl
collect-entries_of ((name, checkpoint created_at payload) ∷ d) (here, readable) =
    rw (collect-entries_of d readable) refl
collect-entries_of ((name, corrupted) ∷ d) (here, readable) =
    rw (collect-entries_of d readable) refl
collect-entries_of ((name, no_object) ∷ d) (here, readable) = absurd (ground (arith, here))
collect-entries_of ((name, unreadable) ∷ d) (here, readable) = absurd (ground (arith, here))

abbrev pub times : Option Content → Option (Option Text)
times none = none
times (some content) = some (time_of content)

pub get-entries_of : (d : Directory) (k : String) → Dict.get (entries_of d) k ≡ times (Dict.get d k)
unfolding Dict.get
get-entries_of [] k = refl
get-entries_of ((name, content) ∷ d) k = ground (arith, get-entries_of d k)

pub has-entries_of : (d : Directory) (k : String) → Dict.has (entries_of d) k ≡ Dict.has d k
unfolding Dict.has
has-entries_of [] k = refl
has-entries_of ((name, content) ∷ d) k = ground (arith, has-entries_of d k)

pub entries_of-IsUnique : (d : Directory) → Dict.IsUnique d → Dict.IsUnique (entries_of d)
entries_of-IsUnique [] unique = tt
entries_of-IsUnique ((name, content) ∷ d) (new, unique) =
    (has-entries_of d name ∙ new, entries_of-IsUnique d unique)

pub put-AreReadable :
    (d : Directory) (k : String) (content : Content)
    → is_readable content ≡ true
    → AreReadable d
    → AreReadable (Dict.put d k content)
unfolding Dict.put
put-AreReadable [] k content here readable = (here, tt)
put-AreReadable ((name, c) ∷ d) k content here (first, readable) = elim (Bool-cases (name == k)) [
  | inl same ↦ rw (same, Dict.put) (here, readable)
  | inr other ↦ rw (other, Dict.put) (first, put-AreReadable d k content here readable)
]
