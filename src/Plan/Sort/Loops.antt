-- ===== src/Plan/Sort/Loops.antt =====
-- The queue loop of `validate_plan` and the batch loop of `topological_sort`, from the invariant:
-- the fuel is enough, and what stands in the result.
use mathlib.Core.List.{append_assoc, append-nil}
use smallpieclaw.Prelude.{
  ℕ, zero, suc, ◌+◌, ◌<◌, String, ◌≡◌, refl, ◌↔◌, true, false, some, List, [], ◌∷◌, ◌++◌, arith,
  contains, contains-append, distinct, length, length-append, string_eq,
}
use smallpieclaw.Plan.Model.{Degrees, Edges, edges_of, release, kahn, release_batch, levels}
use smallpieclaw.Plan.Sort.Counting.{missing, count}
use smallpieclaw.Subsets.{In, Subset}
use smallpieclaw.Plan.Sort.Invariant.{IsGraph, Ordered, Inv, release-Inv, pop-Inv, length-le_names}

-- What a finished loop has: distinct ids of the plan, each behind its dependencies, and all ids
-- whose dependencies are among them.
pub record IsExhaustive (names : List String) (deps : String → List String) (order : List String)
    : Type 0 where
  pub apart : distinct order ≡ true
  pub within : Subset order names
  pub closed : (s : String) → In names s → missing order (deps s) ≡ 0 → In order s
  pub ordered : Ordered deps [] order

pub Inv-IsExhaustive :
    {names : List String} {deps : String → List String} {done : List String} {degrees : Degrees}
    → Inv names deps done [] [] degrees
    → IsExhaustive names deps done
unfolding count
Inv-IsExhaustive {done = done} inv = record {
  apart = rw append-nil at inv.apart;
  within = rw append-nil at inv.within;
  closed = λ s m z. rw append-nil at (inv.in_free s m (omega (arith, z)));
  ordered = inv.ordered;
}

abbrev pub flat {ℓ} : {A : Type ℓ} → List (List A) → List A
flat [] = []
flat (batch ∷ batches) = batch ++ flat batches

-- Each batch is exactly the ids whose dependencies are in the batches before it.
abbrev pub Layered :
    List String → (String → List String) → List String → List (List String) → Type 0
Layered names deps done [] = Unit
Layered names deps done (batch ∷ batches) =
    ((s : String)
      → In batch s ↔ (In names s × (contains done s ≡ false) × (missing done (deps s) ≡ 0)))
    × Layered names deps (done ++ batch) batches

not-before :
    (xs ys : List String) (s : String)
    → distinct (xs ++ ys) ≡ true
    → In ys s
    → contains xs s ≡ false
unfolding distinct contains
not-before [] ys s h m = refl
not-before (x ∷ xs) ys s h m =
    ground (arith, not-before xs ys s, contains-append xs ys x, string_eq.beq_iff x s)

module _ {names : List String} {deps : String → List String} {edges : Edges}
    (graph : IsGraph names deps edges) where
  pub kahn-total :
      (fuel : ℕ) (done queue : List String) {degrees : Degrees}
      → Inv names deps done queue [] degrees
      → length names < length done + fuel
      → (order : List String) × (kahn edges fuel degrees queue (length done) ≡ some (length order))
        × IsExhaustive names deps order
  unfolding kahn
  kahn-total zero done queue inv h = absurd (omega (arith, length-le_names inv))
  kahn-total (suc fuel) done [] inv h = (done, refl, Inv-IsExhaustive inv)
  kahn-total (suc fuel) done (current ∷ queue) {degrees} inv h =
      let (order, runs, exhaustive) =
        kahn-total fuel (done ++ current ∷ []) (release (edges_of edges current) degrees queue).1
          (release-Inv [] (edges_of edges current) degrees queue (pop-Inv graph inv))
          (omega (arith, length-append done (current ∷ []))) in
      (order, rw length-append at runs, exhaustive)

  pub release_batch-Inv :
      (current : List String) {done : List String} (degrees : Degrees) (next : List String)
      → Inv names deps done (current ++ next) [] degrees
      → Inv names deps
          (done ++ current)
          (release_batch edges current degrees next).1
          []
          (release_batch edges current degrees next).0
  unfolding release_batch
  release_batch-Inv [] {done} degrees next inv = rw append-nil inv
  release_batch-Inv (sid ∷ current) {done} degrees next inv =
      let step = release-Inv current (edges_of edges sid) degrees next (pop-Inv graph inv) in
      rw append_assoc at (release_batch-Inv current _ _ step)

  ready_exactly :
      {done current : List String} {degrees : Degrees}
      → Inv names deps done current [] degrees
      → (s : String)
      → In current s ↔ (In names s × (contains done s ≡ false) × (missing done (deps s) ≡ 0))
  unfolding count
  ready_exactly {done} {current} inv s = (
    λ m. (
      inv.within s (ground (arith, contains-append done current s)),
      not-before done current s inv.apart m,
      omega (arith, inv.free_in s (ground (arith, contains-append done current s))),
    ),
    λ ready. ground (arith, inv.in_free s ready.0, contains-append done current s),
  )

  pub levels-total :
      (fuel : ℕ) (done current : List String) {degrees : Degrees}
      → Inv names deps done current [] degrees
      → length names < length done + fuel
      → (batches : List (List String)) × (levels edges fuel degrees current ≡ some batches)
        × IsExhaustive names deps (done ++ flat batches)
        × Layered names deps done batches
  unfolding levels
  levels-total zero done current inv h = absurd (omega (arith, length-le_names inv))
  levels-total (suc fuel) done [] inv h = ([], refl, rw append-nil (Inv-IsExhaustive inv), tt)
  levels-total (suc fuel) done (sid ∷ current) {degrees} inv h =
      let next = release_batch-Inv (sid ∷ current) {done = done} degrees [] (rw append-nil inv) in
      let (batches, runs, exhaustive, layered) =
        levels-total fuel (done ++ sid ∷ current) (release_batch edges (sid ∷ current) degrees []).1
          next (omega (arith, length-append done (sid ∷ current))) in
      (
        (sid ∷ current) ∷ batches,
        rw (runs, levels),
        rw append_assoc at exhaustive,
        (ready_exactly inv, layered),
      )
