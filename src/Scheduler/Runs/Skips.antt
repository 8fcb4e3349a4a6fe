-- ===== src/Scheduler/Runs/Skips.antt =====
-- Every job of the table skips overlaps: what keeps that so.
use smallpieclaw.Dict
use smallpieclaw.Dict.{Dict}
use smallpieclaw.Prelude.{
  ℕ, suc, ◌==◌, nat_eq, list_eq, string_eq, ◌≡◌, ap, sym, ◌∙◌, some, [], ◌∷◌, arith, All,
  Bool-cases, Option-cases, inl, inr,
}
use smallpieclaw.Scheduler.Tags.{Text}
use smallpieclaw.Scheduler.{JobMeta, RunHistory, overlay}
use smallpieclaw.Scheduler.Runs.{write_meta}

abbrev SkipsOverlap : Text × JobMeta → Type 0
SkipsOverlap job = job.1.overlap_policy ≡ "skip"

-- Every job of the table has the policy "skip".
abbrev pub AllSkip : Dict Text JobMeta → Type 0
AllSkip jobs = All SkipsOverlap jobs

pub put-AllSkip :
    (jobs : Dict Text JobMeta) (tag : Text) (meta : JobMeta)
    → AllSkip jobs
    → meta.overlap_policy ≡ "skip"
    → AllSkip (Dict.put jobs tag meta)
unfolding Dict.put
put-AllSkip [] tag meta h m = (m, tt)
put-AllSkip ((t, old) ∷ jobs) tag meta h m = elim (Bool-cases (t == tag)) [
  | inl same ↦ rw (same) (m, h.1)
  | inr other ↦ rw (other) (h.0, put-AllSkip jobs tag meta h.1 m)
]

pub remove-AllSkip :
    (jobs : Dict Text JobMeta) (tag : Text) → AllSkip jobs → AllSkip (Dict.remove jobs tag)
unfolding Dict.remove
remove-AllSkip [] tag h = tt
remove-AllSkip ((t, old) ∷ jobs) tag h = elim (Bool-cases (t == tag)) [
  | inl same ↦ rw (same) (remove-AllSkip jobs tag h.1)
  | inr other ↦ rw (other) (h.0, remove-AllSkip jobs tag h.1)
]

pub get-AllSkip :
    (jobs : Dict Text JobMeta) (tag : Text) (meta : JobMeta)
    → AllSkip jobs
    → Dict.get jobs tag ≡ some meta
    → meta.overlap_policy ≡ "skip"
unfolding Dict.get
get-AllSkip [] tag meta h at = absurd (ground (arith, at))
get-AllSkip ((t, old) ∷ jobs) tag meta h at = elim (Bool-cases (t == tag)) [
  | inl same ↦
      let equal : old ≡ meta = ground (arith, at, same) in
      ap (λ m. m.overlap_policy) (sym equal) ∙ h.0
  | inr other ↦ get-AllSkip jobs tag meta h.1 (ground (arith, at, other))
]

pub write_meta-AllSkip :
    (serial : ℕ) (write : JobMeta → JobMeta) (jobs : Dict Text JobMeta)
    → ((m : JobMeta) → (write m).overlap_policy ≡ m.overlap_policy)
    → AllSkip jobs
    → AllSkip (write_meta serial write jobs)
unfolding write_meta
write_meta-AllSkip serial write [] keeps h = tt
write_meta-AllSkip serial write ((t, meta) ∷ jobs) keeps h =
    let rest = write_meta-AllSkip serial write jobs keeps h.1 in
    elim (Bool-cases (meta.serial == serial)) [
      | inl same ↦ rw (same) (keeps meta ∙ h.0, rest)
      | inr other ↦ rw (other) (h.0, rest)
    ]

pub overlay-AllSkip :
    (serial : ℕ) (history : Dict Text RunHistory) (jobs : Dict Text JobMeta)
    → AllSkip jobs
    → AllSkip (overlay serial history jobs)
unfolding overlay
overlay-AllSkip serial history [] h = tt
overlay-AllSkip serial history ((t, meta) ∷ jobs) h =
    let rest = overlay-AllSkip (suc serial) history jobs h.1 in
    elim (Option-cases (Dict.get history t)) [
      | inl new ↦ rw (new, overlay) (h.0, rest)
      | inr (hist, known) ↦ rw (known, overlay) (h.0, rest)
    ]
