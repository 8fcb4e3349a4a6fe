-- ===== src/Prelude/Lists.antt =====
-- Lists measured and indexed by native numbers, membership tests and predicates on all elements.
use Prim.Native.Nat.{ℕ, zero, suc, ◌+◌, ◌-◌, ◌≤◌, ◌<◌, min}
use mathlib.Core.Path.{◌≡◌, refl, sym, ap, ◌∙◌}
use mathlib.Core.Logic.{◌↔◌, inl, inr}
use mathlib.Core.Bool.{Bool, true, false, ◌&&◌, ◌||◌}
use mathlib.Core.List.{List, [], ◌∷◌, ◌++◌, map}
use mathlib.Core.Option.{Option, none, some}
use native.Mathlib.Omega.{arith}
use smallpieclaw.Prelude.Tests.{if◌then◌else◌, Bool-cases}
use smallpieclaw.Prelude.Equality.{Eq, ◌==◌, ==_self}

module _ {ℓ} {A : Type ℓ} where
  abbrev pub length : List A → ℕ
  length [] = 0
  length (x ∷ xs) = suc (length xs)

  abbrev pub take : ℕ → List A → List A
  take zero xs = []
  take (suc n) [] = []
  take (suc n) (x ∷ xs) = x ∷ take n xs

  abbrev pub drop : ℕ → List A → List A
  drop zero xs = xs
  drop (suc n) [] = []
  drop (suc n) (x ∷ xs) = drop n xs

  abbrev pub get_elem? : List A → ℕ → Option A
  get_elem? [] i = none
  get_elem? (x ∷ xs) zero = some x
  get_elem? (x ∷ xs) (suc i) = get_elem? xs i

  -- `[x for x in xs if p(x)]`
  unfoldable pub keep : (A → Bool) → List A → List A
  keep p [] = []
  keep p (x ∷ xs) = let rest = keep p xs in if p x then x ∷ rest else rest

  -- `any(p(x) for x in xs)` and `all(p(x) for x in xs)`
  unfoldable pub any : (A → Bool) → List A → Bool
  any p [] = false
  any p (x ∷ xs) = p x || any p xs

  unfoldable pub all : (A → Bool) → List A → Bool
  all p [] = true
  all p (x ∷ xs) = p x && all p xs

  abbrev pub All {κ} : (A → Type κ) → List A → Type κ
  All P [] = Unit
  All P (x ∷ xs) = P x × All P xs

module _ {ℓ} {A : Type ℓ} where
  pub length-append : (xs ys : List A) → length (xs ++ ys) ≡ length xs + length ys
  length-append [] ys = omega arith
  length-append (x ∷ xs) ys = omega (arith, length-append xs ys)

  pub length-take : (n : ℕ) (xs : List A) → length (take n xs) ≡ min n (length xs)
  length-take zero xs = omega arith
  length-take (suc n) [] = omega arith
  length-take (suc n) (x ∷ xs) = omega (arith, length-take n xs)

  pub length-drop : (n : ℕ) (xs : List A) → length (drop n xs) ≡ length xs - n
  length-drop zero xs = omega arith
  length-drop (suc n) [] = omega arith
  length-drop (suc n) (x ∷ xs) = omega (arith, length-drop n xs)

  pub append-take-drop : (n : ℕ) (xs : List A) → take n xs ++ drop n xs ≡ xs
  append-take-drop zero xs = refl
  append-take-drop (suc n) [] = refl
  append-take-drop (suc n) (x ∷ xs) = ap (λ t. x ∷ t) (append-take-drop n xs)

  drop-nil : (n : ℕ) → Path (List A) (drop n []) []
  drop-nil zero = refl
  drop-nil (suc n) = refl

  pub drop-drop : (n k : ℕ) (xs : List A) → drop k (drop n xs) ≡ drop (n + k) xs
  drop-drop zero k xs = ap (λ i. drop i xs) (omega arith)
  drop-drop (suc n) k [] = drop-nil k ∙ sym (drop-nil (suc n + k))
  drop-drop (suc n) k (x ∷ xs) =
      drop-drop n k xs ∙ ap (λ i. drop i (x ∷ xs)) {x = suc (n + k)} (omega arith)

  -- An index in range splits the list around its element.
  pub split_at :
      (i : ℕ) (xs : List A)
      → i < length xs
      → (x : A) × (get_elem? xs i ≡ some x)
        × (take 1 (drop i xs) ≡ x ∷ [])
        × (xs ≡ take i xs ++ (x ∷ drop (suc i) xs))
  split_at i [] h = absurd (omega arith)
  split_at zero (x ∷ xs) h = (x, refl, refl, refl)
  split_at (suc i) (x ∷ xs) h =
      let (y, found, alone, whole) = split_at i xs (omega arith) in
      (y, found, alone, ap (λ t. x ∷ t) whole)

  pub get_elem?-lt : (i : ℕ) (xs : List A) {x : A} → get_elem? xs i ≡ some x → i < length xs
  get_elem?-lt i [] h = absurd (ground (arith, h))
  get_elem?-lt zero (y ∷ xs) h = omega arith
  get_elem?-lt (suc i) (y ∷ xs) h = omega (arith, get_elem?-lt i xs h)

  pub get_elem?-append :
      (n : ℕ) (xs ys : List A) {x : A} → get_elem? xs n ≡ some x → get_elem? (xs ++ ys) n ≡ some x
  get_elem?-append n [] ys h = absurd (ground (arith, h))
  get_elem?-append zero (x ∷ xs) ys h = h
  get_elem?-append (suc n) (x ∷ xs) ys h = get_elem?-append n xs ys h

  pub get_elem?-last : (xs : List A) (x : A) → get_elem? (xs ++ x ∷ []) (length xs) ≡ some x
  get_elem?-last [] x = refl
  get_elem?-last (y ∷ xs) x = get_elem?-last xs x

  pub get_elem?-drop : (n i : ℕ) (xs : List A) → get_elem? (drop n xs) i ≡ get_elem? xs (n + i)
  get_elem?-drop zero i xs = ap (λ j. get_elem? xs j) (omega arith)
  get_elem?-drop (suc n) i [] = refl
  get_elem?-drop (suc n) i (x ∷ xs) =
      get_elem?-drop n i xs ∙ ap (λ j. get_elem? (x ∷ xs) j) {x = suc (n + i)} (omega arith)

  pub get_elem?-map {κ} :
      {B : Type κ} (f : A → B) (i : ℕ) (xs : List A) {x : A}
      → get_elem? xs i ≡ some x
      → get_elem? (map f xs) i ≡ some (f x)
  get_elem?-map f i [] h = absurd (ground (arith, h))
  get_elem?-map f zero (y ∷ xs) h = ground (arith, h)
  get_elem?-map f (suc i) (y ∷ xs) h = get_elem?-map f i xs h

  pub length-map {κ} : {B : Type κ} (xs : List A) (f : A → B) → length (map f xs) ≡ length xs
  length-map [] f = refl
  length-map (x ∷ xs) f = ap suc (length-map xs f)

  pub length-keep-le : (p : A → Bool) (xs : List A) → length (keep p xs) ≤ length xs
  unfolding keep
  length-keep-le p [] = omega arith
  length-keep-le p (x ∷ xs) = ground (arith, length-keep-le p xs)

module _ {ℓ} {A : Type ℓ} ⦃e : Eq A⦄ where
  -- `a in xs`
  unfoldable pub contains : List A → A → Bool
  contains [] a = false
  contains (x ∷ xs) a = x == a || contains xs a

  pub contains-append :
      (xs ys : List A) (a : A) → contains (xs ++ ys) a ≡ (contains xs a || contains ys a)
  unfolding contains
  contains-append [] ys a = refl
  contains-append (x ∷ xs) ys a = ground (arith, contains-append xs ys a)

  pub contains-keep :
      (p : A → Bool) (xs : List A) (a : A) → contains (keep p xs) a ≡ (contains xs a && p a)
  unfolding contains keep
  contains-keep p [] a = refl
  contains-keep p (x ∷ xs) a = ground (arith, contains-keep p xs a, e.beq_iff x a)

  pub any_iff :
      (p : A → Bool) (xs : List A)
      → (any p xs ≡ true) ↔ ((x : A) × (contains xs x ≡ true) × (p x ≡ true))
  unfolding any contains
  any_iff p [] = (λ h. absurd (ground arith), λ (x, m, good). absurd (ground (arith, m)))
  any_iff p (x ∷ xs) = (
    λ h. elim (Bool-cases (p x)) [
      | inl here ↦ (x, ground (arith, ==_self x), here)
      | inr later ↦ let (y, m, good) = (any_iff p xs).0 (ground arith) in (y, ground arith, good)
    ],
    λ (y, m, good). elim (Bool-cases (x == y)) [
      | inl same ↦ let here : x ≡ y = (e.beq_iff x y).0 same in ground (arith, ap p here)
      | inr other ↦ let later = (any_iff p xs).1 (y, ground arith, good) in ground arith
    ],
  )

  -- `len(xs) == len(set(xs))`
  unfoldable pub distinct : List A → Bool
  unfolding contains
  distinct [] = true
  distinct (x ∷ xs) = (if contains xs x then false else true) && distinct xs
