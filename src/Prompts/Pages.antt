-- ===== src/Prompts/Pages.antt =====
-- Sorted lists of prompts and their pages.
use smallpieclaw.Prelude.{
  ℕ, zero, suc, ◌≤◌, ◌+◌, string_eq, nat_eq, ◌≡◌, refl, ap, sym, ◌∙◌, inl, inr, Bool, true, List,
  [], ◌∷◌, ◌++◌, arith, leb, length, take, drop, keep, All, Bool-cases,
}
use smallpieclaw.Prompts.{PromptRecord}
use smallpieclaw.Prompts.Search.{insert_prompt, sort_prompts}

pub keep-All :
    (p : PromptRecord → Bool) (records : List PromptRecord) → All (λ s. p s ≡ true) (keep p records)
unfolding keep
keep-All p [] = tt
keep-All p (r ∷ records) = elim (Bool-cases (p r)) [
  | inl fits ↦ rw (fits) (fits, keep-All p records)
  | inr out ↦ rw (out) (keep-All p records)
]

module _ (P : PromptRecord → Type 0) where
  insert-All :
      (r : PromptRecord) (records : List PromptRecord)
      → P r
      → All P records
      → All P (insert_prompt r records)
  unfolding insert_prompt
  insert-All r [] here all = (here, tt)
  insert-All r (s ∷ records) here (first, all) = elim (Bool-cases (leb s.started_at r.started_at)) [
    | inl newer ↦ rw (newer) (here, (first, all))
    | inr older ↦ rw (older) (first, insert-All r records here all)
  ]

  pub sort-All : (records : List PromptRecord) → All P records → All P (sort_prompts records)
  unfolding sort_prompts
  sort-All [] all = tt
  sort-All (r ∷ records) (first, all) =
      insert-All r (sort_prompts records) first (sort-All records all)

  pub append-All : (a b : List PromptRecord) → All P a → All P b → All P (a ++ b)
  append-All [] b all others = others
  append-All (r ∷ a) b (first, all) others = (first, append-All a b all others)

  pub take-All : (n : ℕ) (records : List PromptRecord) → All P records → All P (take n records)
  take-All zero records all = tt
  take-All (suc n) [] all = tt
  take-All (suc n) (r ∷ records) (first, all) = (first, take-All n records all)

  pub drop-All : (n : ℕ) (records : List PromptRecord) → All P records → All P (drop n records)
  drop-All zero records all = all
  drop-All (suc n) [] all = tt
  drop-All (suc n) (r ∷ records) (first, all) = drop-All n records all

-- No record is newer than one before it.
abbrev pub IsNewestFirst : List PromptRecord → Type 0
IsNewestFirst [] = Unit
IsNewestFirst (r ∷ records) = All (λ s. s.started_at ≤ r.started_at) records × IsNewestFirst records

All-older :
    (m n : ℕ) (records : List PromptRecord)
    → m ≤ n
    → All (λ s. s.started_at ≤ m) records
    → All (λ s. s.started_at ≤ n) records
All-older m n [] le all = tt
All-older m n (r ∷ records) le (first, all) =
    (omega (arith, le, first), All-older m n records le all)

insert-IsNewestFirst :
    (r : PromptRecord) (records : List PromptRecord)
    → IsNewestFirst records
    → IsNewestFirst (insert_prompt r records)
unfolding insert_prompt
insert-IsNewestFirst r [] sorted = (tt, tt)
insert-IsNewestFirst r (s ∷ records) (first, sorted) =
    elim (Bool-cases (leb s.started_at r.started_at)) [
      | inl newer ↦
          let le : s.started_at ≤ r.started_at = ground (arith, newer) in
          rw (newer) ((le, All-older s.started_at r.started_at records le first), (first, sorted))
      | inr older ↦ rw (older) (
        insert-All (λ t. t.started_at ≤ s.started_at) r records (ground (arith, older)) first,
        insert-IsNewestFirst r records sorted,
      )
    ]

pub sort-IsNewestFirst : (records : List PromptRecord) → IsNewestFirst (sort_prompts records)
unfolding sort_prompts
sort-IsNewestFirst [] = tt
sort-IsNewestFirst (r ∷ records) =
    insert-IsNewestFirst r (sort_prompts records) (sort-IsNewestFirst records)

pub take-IsNewestFirst :
    (n : ℕ) (records : List PromptRecord) → IsNewestFirst records → IsNewestFirst (take n records)
take-IsNewestFirst zero records sorted = tt
take-IsNewestFirst (suc n) [] sorted = tt
take-IsNewestFirst (suc n) (r ∷ records) (first, sorted) = (
  take-All (λ s. s.started_at ≤ r.started_at) n records first,
  take-IsNewestFirst n records sorted,
)

pub drop-IsNewestFirst :
    (n : ℕ) (records : List PromptRecord) → IsNewestFirst records → IsNewestFirst (drop n records)
drop-IsNewestFirst zero records sorted = sorted
drop-IsNewestFirst (suc n) [] sorted = tt
drop-IsNewestFirst (suc n) (r ∷ records) (first, sorted) = drop-IsNewestFirst n records sorted

suc_add : (m n : ℕ) → suc m + n ≡ suc (m + n)
suc_add m n = omega arith

take_nil : (n : ℕ) → take {A = PromptRecord} n [] ≡ []
take_nil zero = refl
take_nil (suc n) = refl

drop_nil : (n : ℕ) → drop {A = PromptRecord} n [] ≡ []
drop_nil zero = refl
drop_nil (suc n) = refl

pub take_add :
    (m n : ℕ) (records : List PromptRecord)
    → take (m + n) records ≡ take m records ++ take n (drop m records)
take_add zero n records = ap (λ i. take i records) (omega arith)
take_add (suc m) n [] = ap (λ i. take i []) (suc_add m n) ∙ sym (take_nil n)
take_add (suc m) n (r ∷ records) =
    ap (λ i. take i (r ∷ records)) (suc_add m n) ∙ ap (λ rest. r ∷ rest) (take_add m n records)

pub drop_add :
    (k m : ℕ) (records : List PromptRecord) → drop m (drop k records) ≡ drop (k + m) records
drop_add zero m records = ap (λ i. drop i records) (omega arith)
drop_add (suc k) m [] = drop_nil m ∙ ap (λ i. drop i []) (sym (suc_add k m))
drop_add (suc k) m (r ∷ records) =
    drop_add k m records ∙ ap (λ i. drop i (r ∷ records)) (sym (suc_add k m))

pub take-whole :
    (n : ℕ) (records : List PromptRecord) → length records ≤ n → take n records ≡ records
take-whole zero [] few = refl
take-whole zero (r ∷ records) few = absurd (omega (arith, few))
take-whole (suc n) [] few = refl
take-whole (suc n) (r ∷ records) few =
    ap (λ rest. r ∷ rest) (take-whole n records (omega (arith, few)))
