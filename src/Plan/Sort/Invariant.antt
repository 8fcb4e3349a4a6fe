-- ===== src/Plan/Sort/Invariant.antt =====
-- The invariant of both Kahn loops of execution_plan.py, kept by one decrement, by the release of
-- one id's dependents, and by taking an id off the queue.
use mathlib.Core.List.{append_assoc}
use smallpieclaw.Prelude.{
  ◌+◌, ◌≤◌, String, ==_self, ◌≡◌, true, false, some, List, [], ◌∷◌, ◌++◌, arith, contains,
  contains-append, distinct, length, length-append, string_eq, Bool-cases, inl, inr,
}
use smallpieclaw.Prelude.Int.{pos, pred, is_zero}
use smallpieclaw.Dict
use smallpieclaw.Plan.Model.{Degrees, Edges, modify, edges_of, is_free, release}
use smallpieclaw.Plan.Sort.Counting.{count, missing, missing-snoc}
use smallpieclaw.Subsets.{In, Subset, distinct-snoc, distinct-not_before, length-le_of_distinct}
use smallpieclaw.Plan.Sort.Degrees.{get-modify}

-- The ids of a plan, the dependencies of each, and the edge table over them.
pub record IsGraph (names : List String) (deps : String → List String) (edges : Edges)
    : Type 0 where
  pub edge_count : (c s : String) → In names c → count s (edges_of edges c) ≡ count c (deps s)
  pub edge_in : (c s : String) → In names c → In (edges_of edges c) s → In names s

-- Every id of the list stands behind its dependencies.
abbrev pub Ordered : (String → List String) → List String → List String → Type 0
Ordered deps before [] = Unit
Ordered deps before (x ∷ xs) = (missing before (deps x) ≡ 0) × Ordered deps (before ++ x ∷ []) xs

pub Ordered-snoc :
    (deps : String → List String) (before xs : List String) (c : String)
    → Ordered deps before xs
    → missing (before ++ xs) (deps c) ≡ 0
    → Ordered deps before (xs ++ c ∷ [])
Ordered-snoc deps before [] c h m = (rw mathlib.Core.List.append-nil at m, tt)
Ordered-snoc deps before (x ∷ xs) c h m =
    (h.0, Ordered-snoc deps (before ++ x ∷ []) xs c h.1 (rw append_assoc m))

-- `done` is processed, `queue` is free, and `rest` are the decrements that are still to come.
pub record Inv (names : List String) (deps : String → List String) (done queue rest : List String)
    (degrees : Degrees) : Type 0 where
  pub apart : distinct (done ++ queue) ≡ true
  pub within : Subset (done ++ queue) names
  pub degree :
      (s : String)
      → In names s
      → Dict.get degrees s ≡ some (pos (missing done (deps s) + count s rest))
  pub free_in : (s : String) → In (done ++ queue) s → missing done (deps s) + count s rest ≡ 0
  pub in_free :
      (s : String) → In names s → missing done (deps s) + count s rest ≡ 0 → In (done ++ queue) s
  pub pending : Subset rest names
  pub ordered : Ordered deps [] done

module _ {names : List String} {deps : String → List String} where
  module _ {done queue rest : List String} {x : String} {degrees : Degrees}
      (inv : Inv names deps done queue (x ∷ rest) degrees) where
    abbrev lowered : Degrees
    lowered = modify degrees x pred

    member : In names x
    unfolding contains
    member = inv.pending x (ground (arith, ==_self x))

    absent : contains (done ++ queue) x ≡ false
    unfolding count
    absent = ground (arith, inv.free_in x, ==_self x)

    degree-lowered :
        (s : String)
        → In names s
        → Dict.get lowered s ≡ some (pos (missing done (deps s) + count s rest))
    unfolding count pred
    degree-lowered s m =
        ground (arith, inv.degree s m, get-modify degrees x s pred, string_eq.beq_iff x s)

    is_free-lowered : is_free lowered x ≡ is_zero (pos (missing done (deps x) + count x rest))
    unfolding is_free
    is_free-lowered = ground (arith, degree-lowered x member)

    keep-Inv : is_free lowered x ≡ false → Inv names deps done queue rest lowered
    unfolding count contains
    keep-Inv stays = record {
      apart = inv.apart;
      within = inv.within;
      degree = degree-lowered;
      free_in = λ s m. ground (arith, inv.free_in s m);
      in_free = λ s m z. ground (arith, inv.in_free s m, is_free-lowered, string_eq.beq_iff x s);
      pending = λ s m. inv.pending s (ground arith);
      ordered = inv.ordered;
    }

    move-Inv : is_free lowered x ≡ true → Inv names deps done (queue ++ x ∷ []) rest lowered
    unfolding count contains
    move-Inv freed = record {
      apart = rw (← append_assoc) (distinct-snoc (done ++ queue) x inv.apart absent);
      within = λ s m. ground (
        arith,
        inv.within s,
        member,
        contains-append (done ++ queue) (x ∷ []) s,
        contains-append done queue s,
        contains-append done (queue ++ x ∷ []) s,
        contains-append queue (x ∷ []) s,
        string_eq.beq_iff x s,
      );
      degree = degree-lowered;
      free_in = λ s m. ground (
        arith,
        inv.free_in s,
        is_free-lowered,
        contains-append done queue s,
        contains-append done (queue ++ x ∷ []) s,
        contains-append queue (x ∷ []) s,
        string_eq.beq_iff x s,
      );
      in_free = λ s m z. ground (
        arith,
        inv.in_free s m,
        contains-append done queue s,
        contains-append done (queue ++ x ∷ []) s,
        contains-append queue (x ∷ []) s,
        string_eq.beq_iff x s,
      );
      pending = λ s m. inv.pending s (ground arith);
      ordered = inv.ordered;
    }

  -- All decrements of one id: `out` is the part of the queue that the loop appends to.
  pub release-Inv :
      {done : List String} (front rest : List String) (degrees : Degrees) (out : List String)
      → Inv names deps done (front ++ out) rest degrees
      → Inv names deps done (front ++ (release rest degrees out).1) [] (release rest degrees out).0
  unfolding release
  release-Inv front [] degrees out inv = inv
  release-Inv front (x ∷ rest) degrees out inv =
      elim (Bool-cases (is_free (modify degrees x pred) x)) [
        | inl freed ↦
            rw (freed, release)
              (release-Inv front rest (modify degrees x pred) (out ++ x ∷ [])
                (rw (← append_assoc) (move-Inv inv freed)))
        | inr stays ↦
            rw (stays, release)
              (release-Inv front rest (modify degrees x pred) out (keep-Inv inv stays))
      ]

  -- An id leaves the queue; its dependents are to be released.
  pub pop-Inv :
      {edges : Edges} {done queue : List String} {c : String} {degrees : Degrees}
      → IsGraph names deps edges
      → Inv names deps done (c ∷ queue) [] degrees
      → Inv names deps (done ++ c ∷ []) queue (edges_of edges c) degrees
  unfolding contains count
  pop-Inv {edges} {done} {queue} {c} {degrees} graph inv = record {
    apart = rw append_assoc inv.apart;
    within = rw append_assoc inv.within;
    degree = λ s m. rw (← balance s) (inv.degree s m);
    free_in = λ s m. rw (← balance s) (inv.free_in s (rw append_assoc at m));
    in_free = λ s m z. rw append_assoc (inv.in_free s m (rw (← balance s) at z));
    pending = λ s. graph.edge_in c s here;
    ordered = Ordered-snoc deps [] done c inv.ordered (ground (arith, inv.free_in c, queued));
  }
    where
      queued : In (done ++ c ∷ queue) c
      queued = ground (arith, contains-append done (c ∷ queue) c, ==_self c)

      here : In names c
      here = inv.within c queued

      balance :
          (s : String)
          → missing done (deps s) + count s []
            ≡ missing (done ++ c ∷ []) (deps s) + count s (edges_of edges c)
      balance s = omega (
        arith,
        missing-snoc done (deps s) c (distinct-not_before done queue c inv.apart),
        graph.edge_count c s here,
      )

  -- What is processed or queued is no more than the plan has.
  pub length-le_names :
      {done queue rest : List String} {degrees : Degrees}
      → Inv names deps done queue rest degrees
      → length done + length queue ≤ length names
  length-le_names {done} {queue} inv = omega (
    arith,
    length-append done queue,
    length-le_of_distinct (done ++ queue) names inv.apart inv.within,
  )
