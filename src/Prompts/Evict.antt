-- ===== src/Prompts/Evict.antt =====
-- What `_evict_oldest` removes.
use smallpieclaw.Dict
use smallpieclaw.Dict.{Dict}
use smallpieclaw.Prelude.{
  suc, ◌≤◌, ◌<◌, String, ◌==◌, string_eq, ◌≡◌, refl, sym, subst, true, false, some, List, [], ◌∷◌,
  arith, inl, inr, leb, length, keep, All, Bool-cases,
}
use smallpieclaw.Prompts.{PromptRecord, Memory, is_final, max_in_memory}
use smallpieclaw.Prompts.Operations.{oldest_of, evict_record, evict_oldest}

-- Each record stands under its own identifier, once.
abbrev pub IsKeyed : Dict String PromptRecord → Type 0
IsKeyed [] = Unit
IsKeyed ((k, r) ∷ d) = (r.prompt_id ≡ k) × IsKeyed d

pub get-IsKeyed :
    (d : Dict String PromptRecord) (k : String) (r : PromptRecord)
    → IsKeyed d
    → Dict.get d k ≡ some r
    → r.prompt_id ≡ k
unfolding Dict.get
get-IsKeyed [] k r keyed h = absurd (ground (arith, h))
get-IsKeyed ((j, s) ∷ d) k r (at, keyed) h = elim (Bool-cases (j == k)) [
  | inl same ↦ ground (arith, same, h, at, string_eq.beq_iff j k)
  | inr other ↦ get-IsKeyed d k r keyed (ground (arith, h, other))
]

pub put-IsKeyed :
    (d : Dict String PromptRecord) (k : String) (r : PromptRecord)
    → r.prompt_id ≡ k
    → IsKeyed d
    → IsKeyed (Dict.put d k r)
unfolding Dict.put
put-IsKeyed [] k r at keyed = (at, tt)
put-IsKeyed ((j, s) ∷ d) k r at (first, keyed) = elim (Bool-cases (j == k)) [
  | inl same ↦ rw (same, Dict.put) (ground (arith, at, same, string_eq.beq_iff j k), keyed)
  | inr other ↦ rw (other, Dict.put) (first, put-IsKeyed d k r at keyed)
]

pub remove-IsKeyed :
    (d : Dict String PromptRecord) (k : String) → IsKeyed d → IsKeyed (Dict.remove d k)
unfolding Dict.remove
remove-IsKeyed [] k keyed = tt
remove-IsKeyed ((j, s) ∷ d) k (first, keyed) = elim (Bool-cases (j == k)) [
  | inl same ↦ rw (same, Dict.remove) (remove-IsKeyed d k keyed)
  | inr other ↦ rw (other, Dict.remove) (first, remove-IsKeyed d k keyed)
]

-- Everything in the table is found under its identifier.
abbrev pub IsFound : Dict String PromptRecord → PromptRecord → Type 0
IsFound d r = Dict.get d r.prompt_id ≡ some r

All-IsFound :
    (d : Dict String PromptRecord) (k : String) (r : PromptRecord) (values : List PromptRecord)
    → Dict.has d k ≡ false
    → All (IsFound d) values
    → All (IsFound ((k, r) ∷ d)) values
unfolding Dict.get
All-IsFound d k r [] new found = tt
All-IsFound d k r (s ∷ values) new (here, found) = (
  ground
      (arith, here, new, Dict.has-get d s.prompt_id {v = s} here, string_eq.beq_iff k s.prompt_id),
  All-IsFound d k r values new found,
)

pub values-IsFound :
    (d : Dict String PromptRecord) → IsKeyed d → Dict.IsUnique d → All (IsFound d) (Dict.values d)
unfolding Dict.get
values-IsFound [] keyed unique = tt
values-IsFound ((k, r) ∷ d) (at, keyed) (new, unique) = (
  ground (arith, at, string_eq.beq_iff k r.prompt_id),
  All-IsFound d k r (Dict.values d) new (values-IsFound d keyed unique),
)

-- Found and finished.
abbrev IsCandidate : Dict String PromptRecord → PromptRecord → Type 0
IsCandidate d r = IsFound d r × (is_final r ≡ true)

keep-IsCandidate :
    (d : Dict String PromptRecord) (values : List PromptRecord)
    → All (IsFound d) values
    → All (IsCandidate d) (keep is_final values)
unfolding keep
keep-IsCandidate d [] found = tt
keep-IsCandidate d (r ∷ values) (here, found) = elim (Bool-cases (is_final r)) [
  | inl final ↦ rw (final, keep) ((here, final), keep-IsCandidate d values found)
  | inr runs ↦ rw (runs, keep) (keep-IsCandidate d values found)
]

oldest_of-All {ℓ} :
    (P : PromptRecord → Type ℓ) (r : PromptRecord) (rest : List PromptRecord)
    → P r
    → All P rest
    → P (oldest_of r rest)
unfolding oldest_of
oldest_of-All P r [] here all = here
oldest_of-All P r (s ∷ rest) here (first, all) = elim (Bool-cases (leb r.started_at s.started_at)) [
  | inl older ↦ rw (older, oldest_of) (oldest_of-All P r rest here all)
  | inr newer ↦ rw (newer, oldest_of) (oldest_of-All P s rest first all)
]

abbrev IsNewer : PromptRecord → PromptRecord → Type 0
IsNewer r s = r.started_at ≤ s.started_at

All-IsNewer :
    (q r : PromptRecord) (rest : List PromptRecord)
    → q.started_at ≤ r.started_at
    → All (IsNewer r) rest
    → All (IsNewer q) rest
All-IsNewer q r [] h all = tt
All-IsNewer q r (s ∷ rest) h (first, all) = (omega (arith, h, first), All-IsNewer q r rest h all)

oldest_of-le :
    (r : PromptRecord) (rest : List PromptRecord) → All (IsNewer (oldest_of r rest)) (r ∷ rest)
unfolding oldest_of
oldest_of-le r [] = (omega arith, tt)
oldest_of-le r (s ∷ rest) = elim (Bool-cases (leb r.started_at s.started_at)) [
  | inl older ↦
      let chosen : oldest_of r (s ∷ rest) ≡ oldest_of r rest = rw (older, oldest_of) refl in
      let (first, all) = oldest_of-le r rest in
      subst (λ o. All (IsNewer o) (r ∷ s ∷ rest)) (sym chosen)
        (first, (ground (arith, first, older), all))
  | inr newer ↦
      let chosen : oldest_of r (s ∷ rest) ≡ oldest_of s rest = rw (newer, oldest_of) refl in
      let (first, all) = oldest_of-le s rest in
      subst (λ o. All (IsNewer o) (r ∷ s ∷ rest)) (sym chosen)
        (ground (arith, first, newer), (first, all))
]

-- The record `gone` leaves the memory `m`, which is over its bound: it has ended, and no record that has ended is older.
pub record Evicts (m : Memory) (gone : PromptRecord) (after : Memory) : Type 0 where
  pub full : max_in_memory < length m.records
  pub present : Dict.get m.records gone.prompt_id ≡ some gone
  pub final : is_final gone ≡ true
  pub oldest : All (IsNewer gone) (keep is_final (Dict.values m.records))
  pub left : after.records ≡ Dict.remove m.records gone.prompt_id
  pub smaller : suc (length after.records) ≡ length m.records

-- What an eviction may do.
pub data Eviction (m : Memory) : Memory → Type 0 where
  within : length m.records ≤ max_in_memory → Eviction m m
  all_running : keep is_final (Dict.values m.records) ≡ [] → Eviction m m
  evicted : {after : Memory} (gone : PromptRecord) → Evicts m gone after → Eviction m after

evict_record-Eviction :
    (m : Memory) (finals : List PromptRecord)
    → max_in_memory < length m.records
    → finals ≡ keep is_final (Dict.values m.records)
    → Dict.IsUnique m.records
    → All (IsCandidate m.records) finals
    → Eviction m (evict_record finals m)
unfolding evict_record
evict_record-Eviction m [] full same unique found = all_running (sym same)
evict_record-Eviction m (r ∷ rest) full same unique (first, found) =
    let (present, final) = oldest_of-All (IsCandidate m.records) r rest first found in
    evicted (oldest_of r rest) (record {
      full = full;
      present = present;
      final = final;
      oldest = subst (λ finals. All (IsNewer (oldest_of r rest)) finals) same (oldest_of-le r rest);
      left = refl;
      smaller = Dict.length-remove m.records (oldest_of r rest).prompt_id unique present;
    })

-- In a memory whose records stand once each under their identifiers, `_evict_oldest` does nothing
-- when there are at most 100 records or all of them run, and otherwise it removes exactly one
-- record, which has ended and than which no record that has ended started earlier. It removes none
-- unless there are more than 100.
pub evict_oldest-Eviction :
    (m : Memory) → IsKeyed m.records → Dict.IsUnique m.records → Eviction m (evict_oldest m)
unfolding evict_oldest
evict_oldest-Eviction m keyed unique = elim (Bool-cases (leb (length m.records) max_in_memory)) [
  | inl few ↦ rw (few, evict_oldest) (within (ground (arith, few)))
  | inr many ↦
      rw (many, evict_oldest)
        (evict_record-Eviction m (keep is_final (Dict.values m.records)) (ground (arith, many)) refl
          unique
          (keep-IsCandidate m.records (Dict.values m.records)
            (values-IsFound m.records keyed unique)))
]
