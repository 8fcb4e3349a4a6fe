-- ===== src/Prompts/Archive.antt =====
-- The archive only grows, and a prompt is found in it once it is there.
use smallpieclaw.Prelude.{
  String, ◌==◌, string_eq, ◌≡◌, inl, inr, false, Option, none, some, List, [], ◌∷◌, ◌++◌, arith,
  Bool-cases,
}
use smallpieclaw.Prompts.{PromptRecord, Archived, unreadable, snapshot, archive_snapshot}
use smallpieclaw.Prompts.Operations.{has_id, find_snapshot, find_in_archive}

-- Some snapshot under the identifier is in the archive.
abbrev pub IsArchived : Option (List Archived) → String → Type 0
IsArchived archive k = (s : PromptRecord) × (find_in_archive archive k ≡ some s)

find_snapshot-prompt_id :
    (lines : List Archived) (k : String) (s : PromptRecord)
    → find_snapshot lines k ≡ some s
    → s.prompt_id ≡ k
unfolding find_snapshot
find_snapshot-prompt_id [] k s h = absurd (ground (arith, h))
find_snapshot-prompt_id (unreadable ∷ lines) k s h = find_snapshot-prompt_id lines k s h
find_snapshot-prompt_id (snapshot r ∷ lines) k s h = elim (Bool-cases (has_id k r)) [
  | inl here ↦ ground (arith, h, here, string_eq.beq_iff r.prompt_id k)
  | inr later ↦ find_snapshot-prompt_id lines k s (ground (arith, h, later))
]

pub find_in_archive-prompt_id :
    (archive : Option (List Archived)) (k : String) (s : PromptRecord)
    → find_in_archive archive k ≡ some s
    → s.prompt_id ≡ k
unfolding find_in_archive
find_in_archive-prompt_id none k s h = absurd (ground (arith, h))
find_in_archive-prompt_id (some lines) k s h = find_snapshot-prompt_id lines k s h

find_snapshot-append :
    (lines : List Archived) (r : PromptRecord) (k : String) (s : PromptRecord)
    → find_snapshot lines k ≡ some s
    → find_snapshot (lines ++ snapshot r ∷ []) k ≡ some s
unfolding find_snapshot
find_snapshot-append [] r k s h = absurd (ground (arith, h))
find_snapshot-append (unreadable ∷ lines) r k s h = find_snapshot-append lines r k s h
find_snapshot-append (snapshot q ∷ lines) r k s h = elim (Bool-cases (has_id k q)) [
  | inl here ↦ ground (arith, h, here)
  | inr later ↦
      ground (arith, h, later, find_snapshot-append lines r k s (ground (arith, h, later)))
]

-- What is in the archive stays there.
pub archive_snapshot-IsArchived :
    (archive : Option (List Archived)) (r : PromptRecord) (k : String)
    → IsArchived archive k
    → IsArchived (archive_snapshot r archive) k
unfolding find_in_archive
archive_snapshot-IsArchived none r k (s, h) = absurd (ground (arith, h))
archive_snapshot-IsArchived (some lines) r k (s, h) = (s, find_snapshot-append lines r k s h)

find_snapshot-last :
    (lines : List Archived) (r : PromptRecord)
    → (r.prompt_id == "") ≡ false
    → (s : PromptRecord) × (find_snapshot (lines ++ snapshot r ∷ []) r.prompt_id ≡ some s)
unfolding find_snapshot
find_snapshot-last [] r named =
    (r, ground (arith, named, string_eq.beq_iff r.prompt_id r.prompt_id))
find_snapshot-last (unreadable ∷ lines) r named = find_snapshot-last lines r named
find_snapshot-last (snapshot q ∷ lines) r named = elim (Bool-cases (has_id r.prompt_id q)) [
  | inl here ↦ (q, ground (arith, here))
  | inr later ↦ let (s, h) = find_snapshot-last lines r named in (s, ground (arith, later, h))
]

pub archive_snapshot-last :
    (archive : Option (List Archived)) (r : PromptRecord)
    → (r.prompt_id == "") ≡ false
    → IsArchived (archive_snapshot r archive) r.prompt_id
unfolding find_in_archive
archive_snapshot-last none r named = find_snapshot-last [] r named
archive_snapshot-last (some lines) r named = find_snapshot-last lines r named
