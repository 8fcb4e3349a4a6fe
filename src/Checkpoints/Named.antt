-- ===== src/Checkpoints/Named.antt =====
-- The checkpoints of a directory with the names of their files, through the sort.
use smallpieclaw.Dict
use smallpieclaw.Prelude.{
  String, ◌==◌, ==_self, string_eq, ◌≡◌, refl, ap, sym, ◌∙◌, true, false, Bool, some, List, [], ◌∷◌,
  ◌||◌, arith, All, map, contains, distinct, if◌then◌else◌, inl, inr, subst, Bool-cases,
  Option-cases,
}
use smallpieclaw.Checkpoints.{
  Content, checkpoint, corrupted, no_object, unreadable, Directory, text_le, Checkpoint, Loaded,
  nothing, loaded, type_error, load, read, collect_valid, insert_checkpoint, sort_checkpoints,
}

abbrev pub is_loaded : Loaded → Bool
is_loaded nothing = false
is_loaded (loaded created_at payload) = true
is_loaded type_error = false

-- The checkpoints with the names of their files.
abbrev Named : Type 0
Named = String × Checkpoint

abbrev pub of_named : Named → Checkpoint
of_named e = e.1

abbrev pub named : Directory → List Named
named [] = []
named ((name, checkpoint created_at payload) ∷ d) = (name, (created_at, payload)) ∷ named d
named ((name, corrupted) ∷ d) = named d
named ((name, no_object) ∷ d) = named d
named ((name, unreadable) ∷ d) = named d

pub collect_valid-named :
    (d : Directory) (checkpoints : List Checkpoint)
    → collect_valid d ≡ some checkpoints
    → checkpoints ≡ map of_named (named d)
unfolding collect_valid
collect_valid-named [] checkpoints h = ground (arith, h)
collect_valid-named ((name, checkpoint c p) ∷ d) checkpoints h =
    elim (Option-cases (collect_valid d)) [
      | inl fails ↦ absurd (ground (arith, h, fails))
      | inr (rest, found) ↦
          let same : (c, p) ∷ rest ≡ checkpoints = ground (arith, h, found) in
          sym same ∙ ap (λ es. (c, p) ∷ es) (collect_valid-named d rest found)
    ]
collect_valid-named ((name, corrupted) ∷ d) checkpoints h = collect_valid-named d checkpoints h
collect_valid-named ((name, no_object) ∷ d) checkpoints h = absurd (ground (arith, h))
collect_valid-named ((name, unreadable) ∷ d) checkpoints h = collect_valid-named d checkpoints h

-- The sort, with the names.
insert_named : Named → List Named → List Named
insert_named e [] = e ∷ []
insert_named e (f ∷ entries) =
    let rest = insert_named e entries in if text_le f.1.0 e.1.0 then e ∷ f ∷ entries else f ∷ rest

pub sort_named : List Named → List Named
sort_named [] = []
sort_named (e ∷ entries) = insert_named e (sort_named entries)

map-insert :
    (e : Named) (entries : List Named)
    → map of_named (insert_named e entries) ≡ insert_checkpoint e.1 (map of_named entries)
unfolding insert_named insert_checkpoint
map-insert e [] = refl
map-insert e (f ∷ entries) = elim (Bool-cases (text_le f.1.0 e.1.0)) [
  | inl newer ↦ rw (newer) refl
  | inr older ↦ rw (older) (ap (λ rest. f.1 ∷ rest) (map-insert e entries))
]

pub map-sort :
    (entries : List Named)
    → map of_named (sort_named entries) ≡ sort_checkpoints (map of_named entries)
unfolding sort_named sort_checkpoints
map-sort [] = refl
map-sort (e ∷ entries) =
    map-insert e (sort_named entries) ∙ ap (insert_checkpoint e.1) (map-sort entries)

contains-insert :
    (e : Named) (entries : List Named) (k : String)
    → contains (Dict.keys (insert_named e entries)) k ≡ (e.0 == k || contains (Dict.keys entries) k)
unfolding insert_named contains
contains-insert e [] k = refl
contains-insert e (f ∷ entries) k = elim (Bool-cases (text_le f.1.0 e.1.0)) [
  | inl newer ↦ rw (newer) refl
  | inr older ↦ rw (older) ground (arith, contains-insert e entries k)
]

pub contains-sort :
    (entries : List Named) (k : String)
    → contains (Dict.keys (sort_named entries)) k ≡ contains (Dict.keys entries) k
unfolding sort_named contains
contains-sort [] k = refl
contains-sort (e ∷ entries) k =
    contains-insert e (sort_named entries) k ∙ ap (λ b. e.0 == k || b) (contains-sort entries k)

distinct-insert :
    (e : Named) (entries : List Named)
    → contains (Dict.keys entries) e.0 ≡ false
    → distinct (Dict.keys entries) ≡ true
    → distinct (Dict.keys (insert_named e entries)) ≡ true
unfolding insert_named distinct contains
distinct-insert e [] new once = refl
distinct-insert e (f ∷ entries) new once = elim (Bool-cases (text_le f.1.0 e.1.0)) [
  | inl newer ↦ rw (newer) ground (arith, new, once)
  | inr older ↦ rw (older) ground (
    arith,
    new,
    once,
    contains-insert e entries f.0,
    distinct-insert e entries,
    string_eq.beq_iff e.0 f.0,
    string_eq.beq_iff f.0 e.0,
  )
]

pub distinct-sort :
    (entries : List Named)
    → distinct (Dict.keys entries) ≡ true
    → distinct (Dict.keys (sort_named entries)) ≡ true
unfolding sort_named distinct
distinct-sort [] once = refl
distinct-sort (e ∷ entries) once =
    distinct-insert e (sort_named entries) (ground (arith, once, contains-sort entries e.0))
      (distinct-sort entries (ground (arith, once)))

insert_named-All :
    (P : Named → Type 0) (e : Named) (entries : List Named)
    → P e
    → All P entries
    → All P (insert_named e entries)
unfolding insert_named
insert_named-All P e [] here all = (here, tt)
insert_named-All P e (f ∷ entries) here (first, all) = elim (Bool-cases (text_le f.1.0 e.1.0)) [
  | inl newer ↦ rw (newer) (here, (first, all))
  | inr older ↦ rw (older) (first, insert_named-All P e entries here all)
]

pub sort_named-All :
    (P : Named → Type 0) (entries : List Named) → All P entries → All P (sort_named entries)
unfolding sort_named
sort_named-All P [] all = tt
sort_named-All P (e ∷ entries) (first, all) =
    insert_named-All P e (sort_named entries) first (sort_named-All P entries all)

-- A name and what its file holds.
abbrev pub IsStored : Directory → Named → Type 0
IsStored d e = Dict.get d e.0 ≡ some (checkpoint e.1.0 e.1.1)

IsStored-later :
    (d : Directory) (name : String) (content : Content) (entries : List Named)
    → Dict.has d name ≡ false
    → All (IsStored d) entries
    → All (IsStored ((name, content) ∷ d)) entries
unfolding Dict.get
IsStored-later d name content [] new all = tt
IsStored-later d name content (e ∷ entries) new (first, all) = (
  ground (
    arith,
    first,
    new,
    Dict.has-get d e.0 {v = checkpoint e.1.0 e.1.1} first,
    string_eq.beq_iff name e.0,
  ),
  IsStored-later d name content entries new all,
)

pub named-IsStored : (d : Directory) → Dict.IsUnique d → All (IsStored d) (named d)
unfolding Dict.get
named-IsStored [] unique = tt
named-IsStored ((name, checkpoint c p) ∷ d) (new, unique) = (
  ground (arith, ==_self name),
  IsStored-later d name (checkpoint c p) (named d) new (named-IsStored d unique),
)
named-IsStored ((name, corrupted) ∷ d) (new, unique) =
    IsStored-later d name corrupted (named d) new (named-IsStored d unique)
named-IsStored ((name, no_object) ∷ d) (new, unique) =
    IsStored-later d name no_object (named d) new (named-IsStored d unique)
named-IsStored ((name, unreadable) ∷ d) (new, unique) =
    IsStored-later d name unreadable (named d) new (named-IsStored d unique)

contains-absent :
    (d : Directory) (k : String) → Dict.has d k ≡ false → contains (Dict.keys (named d)) k ≡ false
unfolding Dict.has contains
contains-absent [] k h = refl
contains-absent ((name, checkpoint c p) ∷ d) k h = ground (arith, h, contains-absent d k)
contains-absent ((name, corrupted) ∷ d) k h = ground (arith, h, contains-absent d k)
contains-absent ((name, no_object) ∷ d) k h = ground (arith, h, contains-absent d k)
contains-absent ((name, unreadable) ∷ d) k h = ground (arith, h, contains-absent d k)

pub distinct-named : (d : Directory) → Dict.IsUnique d → distinct (Dict.keys (named d)) ≡ true
unfolding distinct
distinct-named [] unique = refl
distinct-named ((name, checkpoint c p) ∷ d) (new, unique) =
    ground (arith, distinct-named d unique, contains-absent d name new)
distinct-named ((name, corrupted) ∷ d) (new, unique) = distinct-named d unique
distinct-named ((name, no_object) ∷ d) (new, unique) = distinct-named d unique
distinct-named ((name, unreadable) ∷ d) (new, unique) = distinct-named d unique

-- A file that is no checkpoint stands in no other place.
skipped :
    (d : Directory) (name k : String) (content : Content)
    → Dict.has d name ≡ false
    → is_loaded (read (some content)) ≡ false
    → contains (Dict.keys (named d)) k ≡ is_loaded (read (Dict.get d k))
    → contains (Dict.keys (named d)) k ≡ is_loaded (read (Dict.get ((name, content) ∷ d) k))
unfolding Dict.get
skipped d name k content new empty rest = elim (Bool-cases (name == k)) [
  | inl same ↦ rw (same) (
      subst (λ j. contains (Dict.keys (named d)) j ≡ false) ((string_eq.beq_iff name k).0 same)
        (contains-absent d name new)
      ∙ sym empty)
  | inr other ↦ rw (other) rest
]

pub contains-named :
    (d : Directory) (k : String)
    → Dict.IsUnique d
    → contains (Dict.keys (named d)) k ≡ is_loaded (read (Dict.get d k))
unfolding Dict.get contains
contains-named [] k unique = refl
contains-named ((name, checkpoint c p) ∷ d) k (new, unique) = elim (Bool-cases (name == k)) [
  | inl same ↦ rw (same) refl
  | inr other ↦ rw (other) (contains-named d k unique)
]
contains-named ((name, corrupted) ∷ d) k (new, unique) =
    skipped d name k corrupted new refl (contains-named d k unique)
contains-named ((name, no_object) ∷ d) k (new, unique) =
    skipped d name k no_object new refl (contains-named d k unique)
contains-named ((name, unreadable) ∷ d) k (new, unique) =
    skipped d name k unreadable new refl (contains-named d k unique)

abbrev pub loaded_of : Checkpoint → Loaded
loaded_of c = loaded c.0 c.1

pub load-keys :
    (d : Directory) (entries : List Named)
    → All (IsStored d) entries
    → map (λ k. load k d) (Dict.keys entries) ≡ map loaded_of (map of_named entries)
unfolding load
load-keys d [] all = refl
load-keys d (e ∷ entries) (first, all) =
    rw (first) (ap (λ rest. loaded_of e.1 ∷ rest) (load-keys d entries all))
