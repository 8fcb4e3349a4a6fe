-- ===== src/Policy/Tests.antt =====
-- A small policy: "/etc" is prohibited, "/w" is writable, "/s" is read-only.
use smallpieclaw.Prelude.{
  String, string_eq, list_beq, ◌≡◌, ◌≢◌, ◌↔◌, refl, true, ◌||◌, Option, some, [], ◌∷◌, any,
}
use smallpieclaw.Paths.{FilePath, is_contained}
use smallpieclaw.Policy.{
  PathVerdict, prohibited, unrecognised, external, PathPolicy, Inode, is_alias, tier2_contains,
  classify,
}
use smallpieclaw.Policy.Verdicts.{within, writable, Clear, classify-prohibited, classify-write}

abbrev etc : FilePath
etc = b'/' ∷ b'e' ∷ b't' ∷ b'c' ∷ []

abbrev work : FilePath
work = b'/' ∷ b'w' ∷ []

abbrev skills : FilePath
skills = b'/' ∷ b's' ∷ []

abbrev note : FilePath
note = b'/' ∷ b'w' ∷ b'/' ∷ b'n' ∷ []

abbrev policy : PathPolicy
policy = record {
  prohibited_entries = (etc, record { reason = "system directory"; category = external }) ∷ [];
  tier1 = (work, "rw") ∷ (skills, "r") ∷ [];
  tier2 = [];
  prohibited_inodes = record { dev = 1; ino = 2 } ∷ [];
  conflict_skips = [];
}

-- The file "/w/n" is not a hard link to a prohibited one.
abbrev stat : FilePath → Option Inode
stat path = some (record { dev = 1; ino = 7 })

classify-prohibited_example :
    (verdict : PathVerdict) × (detail : String) × (classify stat policy etc "read"
      ≡ some (verdict, detail))
    × ((verdict ≡ prohibited) ↔ (
        (is_alias policy.prohibited_inodes (stat etc) || within policy.prohibited_entries etc)
        ≡ true))
classify-prohibited_example = classify-prohibited stat policy etc "read" refl

classify-write_example :
    Clear stat policy note
    × ((writable policy.tier1 note || tier2_contains policy.tier2 note) ≡ true)
    × (◌≢◌ {A = String} "rw" "r")
unfolding classify is_contained list_beq any
classify-write_example = classify-write stat policy note "rw" refl

read_only : classify stat policy skills "write" ≡ some (unrecognised, "")
unfolding classify is_contained list_beq any
read_only = refl

-- An alias of a prohibited file is prohibited inside of a writable zone.
aliased :
    classify (λ path. some (record { dev = 1; ino = 2 })) policy note "write"
    ≡ some (prohibited, "prohibited file alias (hardlink)")
unfolding classify
aliased = refl
