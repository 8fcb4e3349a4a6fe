-- ===== src/Checkpoints/Tests.antt =====
-- Three checkpoints under a cap of two.
use smallpieclaw.Dict
use smallpieclaw.Prelude.{
  ℕ, ◌≤◌, String, string_eq, ◌≡◌, ◌≢◌, refl, true, false, some, none, [], ◌∷◌, arith, length, leb,
  ◌==◌, Bool-cases, inl, inr, subst,
}
use smallpieclaw.Checkpoints.{
  Text, checkpoint, corrupted, no_object, Directory, text_le, save, loaded, nothing, type_error,
  load, delete, list,
}
use smallpieclaw.Checkpoints.Pruning.{AreReadable}
use smallpieclaw.Checkpoints.Laws.{dated, save-length, save-newest, load-save}
use smallpieclaw.Checkpoints.Listing.{IsListing, list-load}

abbrev old : Text
old = 49 ∷ []

abbrev middle : Text
middle = 50 ∷ []

abbrev recent : Text
recent = 51 ∷ []

abbrev before : Directory
before = ("a", checkpoint middle []) ∷ ("b", checkpoint old []) ∷ ("x", corrupted) ∷ []

abbrev after : Directory
after = save 2 [] true "c" (dated recent []) before

before-IsUnique : Dict.IsUnique before
unfolding Dict.has
before-IsUnique = (refl, (refl, (refl, tt)))

before-AreReadable : AreReadable before
before-AreReadable = (refl, (refl, (refl, tt)))

-- The oldest and the corrupted file are deleted.
pruned : after ≡ ("a", checkpoint middle []) ∷ ("c", checkpoint recent []) ∷ []
unfolding save Dict.put text_le Dict.remove
pruned = refl

-- A file that is no object stops the pruning, and `list` and `load` raise.
stopped :
    (length (save 1 [] true "c" (dated recent []) (("y", no_object) ∷ before)) ≡ 5)
    × ((load "y" (("y", no_object) ∷ before) ≡ type_error)
        × (list (("y", no_object) ∷ before) ≡ none))
unfolding save load list Dict.put Dict.get
stopped = (refl, (refl, refl))

-- A state without a time is deleted by the `save` that wrote it.
untimed : load "c" (save 2 [] true "c" (record { created_at = none; payload = [] }) []) ≡ nothing
unfolding save load Dict.get Dict.put Dict.remove
untimed = refl

deleted : delete [] "a" before ≡ ((("b", checkpoint old []) ∷ ("x", corrupted) ∷ []), true)
unfolding delete Dict.remove
deleted = refl

kept : Dict.get after "a" ≡ some (checkpoint middle [])
unfolding save Dict.get Dict.put text_le Dict.remove
kept = refl

there : Dict.get (Dict.put before "c" (checkpoint recent [])) "b" ≡ some (checkpoint old [])
unfolding Dict.get Dict.put
there = refl

gone : Dict.get after "b" ≡ none
unfolding save Dict.get Dict.put text_le Dict.remove
gone = refl

late : text_le recent [] ≡ false
unfolding text_le
late = refl

listed_before : list before ≡ some ((middle, []) ∷ (old, []) ∷ [])
unfolding list text_le
listed_before = refl

save-length_example : (length after ≤ 2) × (Dict.get after "x" ≢ some corrupted)
save-length_example = save-length before before-IsUnique before-AreReadable 1 "c" recent [] "x"

save-newest_example : text_le old middle ≡ true
save-newest_example =
    save-newest before before-IsUnique before-AreReadable 1 "c" recent [] "a" "b" middle old [] []
      kept there gone

recent-later : (x : ℕ) → leb 51 x ≡ false → text_le recent (x ∷ []) ≡ false
unfolding text_le
recent-later x h = ground (arith, h)

no-newer :
    (j : String) (t q : Text) → Dict.get before j ≡ some (checkpoint t q) → text_le recent t ≡ false
unfolding Dict.get
no-newer j t q at = elim (Bool-cases ("a" == j)) [
  | inl here ↦
      let same : middle ≡ t = ground (arith, at, here) in
      subst (λ u. text_le recent u ≡ false) same (recent-later 50 refl)
  | inr other ↦ elim (Bool-cases ("b" == j)) [
    | inl here ↦
        let same : old ≡ t = ground (arith, at, here, other) in
        subst (λ u. text_le recent u ≡ false) same (recent-later 49 refl)
    | inr neither ↦ absurd (ground (arith, at, other, neither))
  ]
]

load-save_example : load "c" after ≡ loaded recent []
load-save_example =
    load-save before before-IsUnique before-AreReadable 1 "c" recent [] late no-newer

list-load_example : IsListing before ((middle, []) ∷ (old, []) ∷ [])
list-load_example = list-load before ((middle, []) ∷ (old, []) ∷ []) before-IsUnique listed_before
