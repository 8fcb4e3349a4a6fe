-- ===== src/Scheduler/Runs/Places.antt =====
-- The tags that runs occupy, and the steps that take one run away or add none.
use smallpieclaw.Prelude.{
  ℕ, zero, suc, ◌==◌, nat_eq, list_eq, string_eq, ==_self, ==_sym, ◌≡◌, refl, ap, sym, ◌∙◌, subst,
  true, false, not, ◌&&◌, ◌||◌, some, List, [], ◌∷◌, ◌++◌, contains, distinct, get_elem?,
  get_elem?-append, get_elem?-map, arith, map, Bool-cases, inl, inr, contains-append, contains-keep,
}
use smallpieclaw.Scheduler.Tags.{Text}
use smallpieclaw.Scheduler.{Scheduler, discard}
use smallpieclaw.Scheduler.Runs.{Flight, System, drop_at, set_spawned}
use smallpieclaw.Scheduler.Runs.Quiet.{Quiet, Released}
use smallpieclaw.Scheduler.Runs.Skips.{AllSkip}
use smallpieclaw.Scheduler.Runs.Slots.{
  get_elem?-contains, drop_at-contains, drop_at-distinct, distinct-insert, drop_at-append,
  drop_at-map,
}

-- The tags of the runs in flight and of those that were lost.
abbrev pub tags_of : List Flight → List Text
tags_of flights = map (λ f. f.tag) flights

abbrev pub occupied : System → List Text
occupied sys = tags_of sys.flights ++ sys.lost

-- Every job skips overlaps, no tag has two runs, and the running tags are the occupied ones.
abbrev pub IsSound : System → Type 0
IsSound sys =
    AllSkip sys.scheduler.jobs
    × (distinct (occupied sys) ≡ true)
    × ((t : Text) → contains sys.scheduler.running t ≡ contains (occupied sys) t)

discard-contains :
    (tag : Text) (tags : List Text) (t : Text)
    → contains (discard tag tags) t ≡ (contains tags t && not (tag == t))
unfolding discard
discard-contains tag tags t =
    contains-keep (λ x. not (x == tag)) tags t ∙ ap (λ b. contains tags t && not b) (==_sym t tag)

-- The places of a system, with one run taken out.
module _ (sys : System) (n : ℕ) (f : Flight) (at : get_elem? sys.flights n ≡ some f)
    (sound : IsSound sys) where
  tag_at : get_elem? (occupied sys) n ≡ some f.tag
  tag_at =
      get_elem?-append n (tags_of sys.flights) sys.lost
        (get_elem?-map (λ x. x.tag) n sys.flights at)

  rest_of : List Text
  rest_of = tags_of (drop_at n sys.flights) ++ sys.lost

  rest-drop_at : rest_of ≡ drop_at n (occupied sys)
  unfolding rest_of
  rest-drop_at =
      ap (λ l. l ++ sys.lost) (drop_at-map (λ x. x.tag) n sys.flights)
      ∙ sym (
          drop_at-append n (tags_of sys.flights) sys.lost f.tag
            (get_elem?-map (λ x. x.tag) n sys.flights at))

  rest-distinct : distinct rest_of ≡ true
  rest-distinct = ap distinct rest-drop_at ∙ drop_at-distinct n (occupied sys) f.tag tag_at sound.1

  rest-contains : (t : Text) → contains rest_of t ≡ (contains (occupied sys) t && not (f.tag == t))
  rest-contains t =
      ap (λ l. contains l t) rest-drop_at ∙ drop_at-contains n (occupied sys) f.tag t tag_at sound.1

  moved :
      (t : Text)
      → (contains (tags_of (drop_at n sys.flights)) t || contains (f.tag ∷ sys.lost) t)
        ≡ contains (occupied sys) t
  unfolding rest_of contains
  moved t =
      let tags = tags_of (drop_at n sys.flights) in
      let both = sym (contains-append tags sys.lost t) ∙ rest-contains t in
      elim (Bool-cases (f.tag == t)) [
        | inl same ↦
            let there : contains (occupied sys) t ≡ true =
              subst (λ b. contains (occupied sys) b ≡ true) ((list_eq.beq_iff f.tag t).0 same)
                (get_elem?-contains n (occupied sys) f.tag tag_at) in
            ground (arith, same, there)
        | inr other ↦ ground (arith, both, other)
      ]

  pub Released-IsSound :
      (after : Scheduler)
      → Released f.tag sys.scheduler after
      → IsSound (record sys { scheduler = after; flights = drop_at n sys.flights })
  unfolding rest_of
  Released-IsSound after (running, keeps) = (
    keeps sound.0,
    rest-distinct,
    λ t.
        ap (λ r. contains r t) running
        ∙ discard-contains f.tag sys.scheduler.running t
        ∙ ap (λ b. b && not (f.tag == t)) (sound.2 t)
        ∙ sym (rest-contains t),
  )

  pub lost-IsSound :
      (after : Scheduler)
      → Quiet sys.scheduler after
      → IsSound
          (record { scheduler = after; flights = drop_at n sys.flights; lost = f.tag ∷ sys.lost })
  unfolding rest_of
  lost-IsSound after (running, keeps) =
      let tags = tags_of (drop_at n sys.flights) in
      let new : contains rest_of f.tag ≡ false =
        rest-contains f.tag ∙ ground (arith, ==_self f.tag) in
      (
        keeps sound.0,
        distinct-insert tags sys.lost f.tag rest-distinct new,
        λ t.
            ap (λ r. contains r t) running
            ∙ sound.2 t
            ∙ sym (contains-append tags (f.tag ∷ sys.lost) t ∙ moved t),
      )

pub set_spawned-tags : (n : ℕ) (fs : List Flight) → tags_of (set_spawned n fs) ≡ tags_of fs
unfolding set_spawned
set_spawned-tags n [] = refl
set_spawned-tags zero (f ∷ fs) = refl
set_spawned-tags (suc n) (f ∷ fs) = ap (λ l. f.tag ∷ l) (set_spawned-tags n fs)

pub Quiet-IsSound :
    (sys : System) (after : Scheduler) (flights : List Flight)
    → tags_of flights ≡ tags_of sys.flights
    → Quiet sys.scheduler after
    → IsSound sys
    → IsSound (record sys { scheduler = after; flights = flights })
Quiet-IsSound sys after flights same (running, keeps) sound =
    let places : tags_of flights ++ sys.lost ≡ occupied sys = ap (λ l. l ++ sys.lost) same in
    (
      keeps sound.0,
      ap distinct places ∙ sound.1,
      λ t. ap (λ r. contains r t) running ∙ sound.2 t ∙ sym (ap (λ l. contains l t) places),
    )
