-- ===== src/Checkpoints/Sorting.antt =====
-- The order of texts and the sort of the entries.
use smallpieclaw.Dict
use smallpieclaw.Prelude.{
  String, ◌==◌, string_eq, nat_eq, ◌≡◌, refl, ◌∙◌, inl, inr, true, false, ◌||◌, some, List, [], ◌∷◌,
  arith, if◌then◌else◌, All, Bool-cases,
}
use smallpieclaw.Checkpoints.{Text, text_le, Entry, key_of, insert_entry, sort_entries}

pub text_le_total : (a b : Text) → text_le a b ≡ false → text_le b a ≡ true
unfolding text_le
text_le_total [] b h = absurd (ground (arith, h))
text_le_total (x ∷ a) [] h = refl
text_le_total (x ∷ a) (y ∷ b) h = ground (arith, h, text_le_total a b)

pub text_le_trans : (a b c : Text) → text_le a b ≡ true → text_le b c ≡ true → text_le a c ≡ true
unfolding text_le
text_le_trans [] b c h k = refl
text_le_trans (x ∷ a) [] c h k = absurd (ground (arith, h))
text_le_trans (x ∷ a) (y ∷ b) [] h k = absurd (ground (arith, k))
text_le_trans (x ∷ a) (y ∷ b) (z ∷ c) h k = ground (arith, h, k, text_le_trans a b c)

-- Not newer.
abbrev pub IsBelow : Entry → Entry → Type 0
IsBelow e f = text_le (key_of f.1) (key_of e.1) ≡ true

-- Each entry is at least as new as all behind it.
abbrev pub IsSorted : List Entry → Type 0
IsSorted [] = Unit
IsSorted (e ∷ entries) = All (IsBelow e) entries × IsSorted entries

All-IsBelow :
    (e f : Entry) (entries : List Entry)
    → IsBelow e f
    → All (IsBelow f) entries
    → All (IsBelow e) entries
All-IsBelow e f [] h all = tt
All-IsBelow e f (g ∷ entries) h (first, all) =
    (text_le_trans (key_of g.1) (key_of f.1) (key_of e.1) first h, All-IsBelow e f entries h all)

insert_entry-All {ℓ} :
    (P : Entry → Type ℓ) (e : Entry) (entries : List Entry)
    → P e
    → All P entries
    → All P (insert_entry e entries)
unfolding insert_entry
insert_entry-All P e [] here all = (here, tt)
insert_entry-All P e (f ∷ entries) here (first, all) =
    elim (Bool-cases (text_le (key_of f.1) (key_of e.1))) [
      | inl newer ↦ rw (newer, insert_entry) (here, (first, all))
      | inr older ↦ rw (older, insert_entry) (first, insert_entry-All P e entries here all)
    ]

insert_entry-IsSorted :
    (e : Entry) (entries : List Entry) → IsSorted entries → IsSorted (insert_entry e entries)
unfolding insert_entry
insert_entry-IsSorted e [] sorted = (tt, tt)
insert_entry-IsSorted e (f ∷ entries) (first, sorted) =
    elim (Bool-cases (text_le (key_of f.1) (key_of e.1))) [
      | inl newer ↦
          rw (newer, insert_entry) ((newer, All-IsBelow e f entries newer first), (first, sorted))
      | inr older ↦
          rw (older, insert_entry)
            (
              insert_entry-All (IsBelow f) e entries (text_le_total (key_of f.1) (key_of e.1) older)
                  first,
              insert_entry-IsSorted e entries sorted,
            )
    ]

pub sort_entries-IsSorted : (entries : List Entry) → IsSorted (sort_entries entries)
unfolding sort_entries
sort_entries-IsSorted [] = tt
sort_entries-IsSorted (e ∷ entries) =
    insert_entry-IsSorted e (sort_entries entries) (sort_entries-IsSorted entries)

has-insert_entry :
    (e : Entry) (entries : List Entry) (k : String)
    → Dict.has (insert_entry e entries) k ≡ (e.0 == k || Dict.has entries k)
unfolding insert_entry Dict.has
has-insert_entry e [] k = refl
has-insert_entry e (f ∷ entries) k = ground (arith, has-insert_entry e entries k)

pub has-sort_entries :
    (entries : List Entry) (k : String) → Dict.has (sort_entries entries) k ≡ Dict.has entries k
unfolding sort_entries Dict.has
has-sort_entries [] k = refl
has-sort_entries (e ∷ entries) k =
    ground (arith, has-insert_entry e (sort_entries entries) k, has-sort_entries entries k)

get-insert_entry :
    (e : Entry) (entries : List Entry) (k : String)
    → Dict.has entries e.0 ≡ false
    → Dict.get (insert_entry e entries) k ≡ (if e.0 == k then some e.1 else Dict.get entries k)
unfolding insert_entry Dict.get Dict.has
get-insert_entry e [] k new = refl
get-insert_entry e (f ∷ entries) k new = ground (
  arith,
  get-insert_entry e entries k,
  new,
  string_eq.beq_iff f.0 e.0,
  string_eq.beq_iff e.0 k,
  string_eq.beq_iff f.0 k,
)

insert_entry-IsUnique :
    (e : Entry) (entries : List Entry)
    → Dict.has entries e.0 ≡ false
    → Dict.IsUnique entries
    → Dict.IsUnique (insert_entry e entries)
unfolding insert_entry Dict.has
insert_entry-IsUnique e [] new unique = (new, tt)
insert_entry-IsUnique e (f ∷ entries) new (first, unique) = ground (
  arith,
  insert_entry-IsUnique e entries,
  has-insert_entry e entries f.0,
  new,
  string_eq.beq_iff f.0 e.0,
  string_eq.beq_iff e.0 f.0,
)

pub sort_entries-IsUnique :
    (entries : List Entry) → Dict.IsUnique entries → Dict.IsUnique (sort_entries entries)
unfolding sort_entries
sort_entries-IsUnique [] unique = tt
sort_entries-IsUnique (e ∷ entries) (new, unique) =
    insert_entry-IsUnique e (sort_entries entries) (has-sort_entries entries e.0 ∙ new)
      (sort_entries-IsUnique entries unique)

-- Sorting changes nothing of what stands under a name.
pub get-sort_entries :
    (entries : List Entry) (k : String)
    → Dict.IsUnique entries
    → Dict.get (sort_entries entries) k ≡ Dict.get entries k
unfolding sort_entries Dict.get
get-sort_entries [] k unique = refl
get-sort_entries (e ∷ entries) k (new, unique) = ground (
  arith,
  get-insert_entry e (sort_entries entries) k (has-sort_entries entries e.0 ∙ new),
  get-sort_entries entries k unique,
)
