-- ===== src/Subsets.antt =====
-- Lists of texts as sets: membership, inclusion, and how many distinct entries there can be.
use smallpieclaw.Prelude.{
  ◌+◌, ◌≤◌, String, ◌==◌, ==_self, ◌≡◌, refl, inl, inr, true, false, List, [], ◌∷◌, ◌++◌, arith,
  if◌then◌else◌, contains, contains-append, distinct, length, string_eq, Bool-cases,
}

abbrev pub In : List String → String → Type 0
In xs a = contains xs a ≡ true

-- Distinct ids among `ys` are at most as many as `ys`.
pub delete : String → List String → List String
delete a [] = []
delete a (x ∷ xs) = let rest = delete a xs in if x == a then xs else x ∷ rest

pub length-delete : (a : String) (xs : List String) → In xs a → length (delete a xs) + 1 ≡ length xs
unfolding delete contains
length-delete a [] h = ground arith
length-delete a (x ∷ xs) h = ground (arith, length-delete a xs)

pub In-delete : (a b : String) (xs : List String) → (a == b) ≡ false → In xs b → In (delete a xs) b
unfolding delete contains
In-delete a b [] n h = h
In-delete a b (x ∷ xs) n h =
    ground (
      arith,
      In-delete a b xs n,
      string_eq.beq_iff x a,
      string_eq.beq_iff x b,
      string_eq.beq_iff a b,
    )

abbrev pub Subset : List String → List String → Type 0
Subset xs ys = (a : String) → In xs a → In ys a

pub length-le_of_distinct :
    (xs ys : List String) → distinct xs ≡ true → Subset xs ys → length xs ≤ length ys
unfolding distinct contains
length-le_of_distinct [] ys d s = omega arith
length-le_of_distinct (x ∷ xs) ys d s =
    let there : In ys x = s x (ground (arith, ==_self x)) in
    let smaller : Subset xs (delete x ys) =
      λ a m. In-delete x a ys (ground (arith, string_eq.beq_iff x a)) (s a (ground arith)) in
    omega (
      arith,
      length-le_of_distinct xs (delete x ys) (ground arith) smaller,
      length-delete x ys there,
    )

-- A sublist without repetition that is as long holds everything.
pub Subset_of_length :
    (xs ys : List String)
    → distinct xs ≡ true
    → Subset xs ys
    → length ys ≤ length xs
    → (a : String) → In ys a
    → In xs a
Subset_of_length xs ys d s h a m = elim (Bool-cases (contains xs a)) [
  | inl there ↦ there
  | inr absent ↦ absurd (
      omega (
        arith,
        length-le_of_distinct xs (delete a ys) d
            (λ b mb. In-delete a b ys (ground (arith, string_eq.beq_iff a b)) (s b mb)),
        length-delete a ys m,
      ))
]

pub distinct-append_left : (xs ys : List String) → distinct (xs ++ ys) ≡ true → distinct xs ≡ true
unfolding distinct contains
distinct-append_left [] ys h = refl
distinct-append_left (x ∷ xs) ys h =
    ground (arith, distinct-append_left xs ys, contains-append xs ys x)

pub distinct-snoc :
    (xs : List String) (a : String)
    → distinct xs ≡ true
    → contains xs a ≡ false
    → distinct (xs ++ a ∷ []) ≡ true
unfolding distinct contains
distinct-snoc [] a d h = refl
distinct-snoc (x ∷ xs) a d h = ground (
  arith,
  distinct-snoc xs a,
  contains-append xs (a ∷ []) x,
  string_eq.beq_iff x a,
  string_eq.beq_iff a x,
)

-- In a list without repetition nothing stands both before and at a place.
pub distinct-not_before :
    (xs ys : List String) (c : String) → distinct (xs ++ c ∷ ys) ≡ true → contains xs c ≡ false
unfolding distinct contains
distinct-not_before [] ys c h = refl
distinct-not_before (x ∷ xs) ys c h = ground (
  arith,
  distinct-not_before xs ys c,
  contains-append xs (c ∷ ys) x,
  string_eq.beq_iff x c,
  ==_self c,
)
