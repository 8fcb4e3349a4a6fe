-- ===== src/Prompts/Faithful.antt =====
-- What the archive holds of a prompt: what the log says of its start.
use smallpieclaw.Dict
use smallpieclaw.Prelude.{
  String, ◌==◌, ==_self, string_eq, ◌≡◌, ◌⊎◌, inl, inr, ap, sym, ◌∙◌, subst, true, false, Option,
  none, some, List, [], ◌∷◌, ◌++◌, arith, contains, Bool-cases,
}
use smallpieclaw.Prompts.{
  PromptRecord, Archived, unreadable, snapshot, Registry, replay_log, archive_snapshot,
}
use smallpieclaw.Prompts.Operations.{has_id, find_snapshot, find_in_archive}
use smallpieclaw.Prompts.Archive.{find_in_archive-prompt_id}

-- The same start: run, text and time.
pub record IsSameStart (s r : PromptRecord) : Type 0 where
  pub trace : s.trace_id ≡ r.trace_id
  pub words : s.text ≡ r.text
  pub time : s.started_at ≡ r.started_at

-- What the archive finds tells the start that the log has.
pub record IsFaithful (g : Registry) : Type 0 where
  pub told :
      (k : String) (s : PromptRecord)
      → find_in_archive g.archive k ≡ some s
      → (r : PromptRecord) × (Dict.get (replay_log g.log).records k ≡ some r) × IsSameStart s r

-- What one operation does to the log's table and to the archive, and which identifier it starts.
pub data Effect (g after : Registry) : List String → Type 0 where
  unchanged :
      (replay_log after.log).records ≡ (replay_log g.log).records
      → ((j : String) (s : PromptRecord)
          → find_in_archive after.archive j ≡ some s
          → find_in_archive g.archive j ≡ some s)
      → Effect g after []
  changed :
      (k : String) (old new : PromptRecord)
      → Dict.get (replay_log g.log).records k ≡ some old
      → IsSameStart old new
      → (replay_log after.log).records ≡ Dict.put (replay_log g.log).records k new
      → ((j : String) (s : PromptRecord)
          → find_in_archive after.archive j ≡ some s
          → (find_in_archive g.archive j ≡ some s) ⊎ ((s ≡ new) × (j ≡ k)))
      → Effect g after []
  began :
      (k : String) (new : PromptRecord)
      → (replay_log after.log).records ≡ Dict.put (replay_log g.log).records k new
      → after.archive ≡ g.archive
      → Effect g after (k ∷ [])

find_snapshot-either :
    (lines : List Archived) (r : PromptRecord) (k : String) (s : PromptRecord)
    → find_snapshot (lines ++ snapshot r ∷ []) k ≡ some s
    → (find_snapshot lines k ≡ some s) ⊎ (s ≡ r)
unfolding find_snapshot
find_snapshot-either [] r k s h = elim (Bool-cases (has_id k r)) [
  | inl here ↦ inr (ground (arith, h, here))
  | inr other ↦ absurd (ground (arith, h, other))
]
find_snapshot-either (unreadable ∷ lines) r k s h = find_snapshot-either lines r k s h
find_snapshot-either (snapshot q ∷ lines) r k s h = elim (Bool-cases (has_id k q)) [
  | inl here ↦ inl (ground (arith, h, here))
  | inr later ↦ elim (find_snapshot-either lines r k s (ground (arith, h, later))) [
    | inl before ↦ inl (ground (arith, before, later))
    | inr last ↦ inr last
  ]
]

find_in_archive-either :
    (archive : Option (List Archived)) (r : PromptRecord) (k : String) (s : PromptRecord)
    → find_in_archive (archive_snapshot r archive) k ≡ some s
    → (find_in_archive archive k ≡ some s) ⊎ (s ≡ r)
unfolding find_in_archive find_snapshot
find_in_archive-either none r k s h = elim (find_snapshot-either [] r k s h) [
  | inl before ↦ absurd (ground (arith, before))
  | inr last ↦ inr last
]
find_in_archive-either (some lines) r k s h = find_snapshot-either lines r k s h

pub archive_snapshot-either :
    (archive : Option (List Archived)) (r : PromptRecord) (k : String) (s : PromptRecord)
    → find_in_archive (archive_snapshot r archive) k ≡ some s
    → (find_in_archive archive k ≡ some s) ⊎ ((s ≡ r) × (k ≡ r.prompt_id))
archive_snapshot-either archive r k s h = elim (find_in_archive-either archive r k s h) [
  | inl before ↦ inl before
  | inr last ↦ inr (
    last,
    sym (find_in_archive-prompt_id (archive_snapshot r archive) k s h) ∙ ap (λ q. q.prompt_id) last,
  )
]

IsSameStart-trans : (s r t : PromptRecord) → IsSameStart s r → IsSameStart r t → IsSameStart s t
IsSameStart-trans s r t a b = record {
  trace = a.trace ∙ b.trace;
  words = a.words ∙ b.words;
  time = a.time ∙ b.time;
}

pub equal-IsSameStart : (s r : PromptRecord) → s ≡ r → IsSameStart s r
equal-IsSameStart s r e = record {
  trace = ap (λ q. q.trace_id) e;
  words = ap (λ q. q.text) e;
  time = ap (λ q. q.started_at) e;
}

-- The log's table after a write of one record.
module _ (g after : Registry) (k j : String) (new : PromptRecord)
    (written : (replay_log after.log).records ≡ Dict.put (replay_log g.log).records k new) where
  written-here : (k == j) ≡ true → Dict.get (replay_log after.log).records j ≡ some new
  written-here same =
      ap (λ d. Dict.get d j) written
      ∙ ground (arith, same, Dict.get-put (replay_log g.log).records k j new)

  written-other :
      (k == j) ≡ false
      → Dict.get (replay_log after.log).records j ≡ Dict.get (replay_log g.log).records j
  written-other other =
      ap (λ d. Dict.get d j) written
      ∙ ground (arith, other, Dict.get-put (replay_log g.log).records k j new)

pub Effect-IsFaithful :
    (g after : Registry) (begun : List String)
    → Effect g after begun
    → ((k : String) → contains begun k ≡ true → Dict.get (replay_log g.log).records k ≡ none)
    → IsFaithful g
    → IsFaithful after
unfolding contains
Effect-IsFaithful g after _ (unchanged same found) fresh faithful = record {
  told = λ k s h.
      let (r, at, like) = faithful.told k s (found k s h) in
      (r, ap (λ d. Dict.get d k) same ∙ at, like);
}
Effect-IsFaithful g after _ (changed k old new at like written found) fresh faithful = record {
  told = λ j s h. elim (found j s h) [
    | inl before ↦
        let (r, there, same) = faithful.told j s before in
        elim (Bool-cases (k == j)) [
          | inl here ↦
              let is_old : r ≡ old = ground (arith, there, at, here, string_eq.beq_iff k j) in
              (
                new,
                written-here g after k j new written here,
                IsSameStart-trans s old new (subst (λ q. IsSameStart s q) is_old same) like,
              )
          | inr other ↦ (r, written-other g after k j new written other ∙ there, same)
        ]
    | inr (last, name) ↦ (
      new,
      written-here g after k j new written (ground (arith, name, string_eq.beq_iff k j)),
      equal-IsSameStart s new last,
    )
  ];
}
Effect-IsFaithful g after _ (began k new written kept) fresh faithful = record {
  told = λ j s h.
      let (r, there, same) = faithful.told j s (sym (ap (λ a. find_in_archive a j) kept) ∙ h) in
      let other : (k == j) ≡ false =
        ground (arith, there, fresh k (ground (arith, ==_self k)), string_eq.beq_iff k j) in
      (r, written-other g after k j new written other ∙ there, same);
}

pub Effect-fresh :
    (g after : Registry) (begun : List String) (j : String)
    → Effect g after begun
    → contains begun j ≡ false
    → Dict.get (replay_log g.log).records j ≡ none
    → Dict.get (replay_log after.log).records j ≡ none
unfolding contains
Effect-fresh g after _ j (unchanged same found) other absent = ap (λ d. Dict.get d j) same ∙ absent
Effect-fresh g after _ j (changed k old new at like written found) other absent =
    written-other g after k j new written (ground (arith, at, absent, string_eq.beq_iff k j))
    ∙ absent
Effect-fresh g after _ j (began k new written kept) other absent =
    written-other g after k j new written (ground (arith, other)) ∙ absent
