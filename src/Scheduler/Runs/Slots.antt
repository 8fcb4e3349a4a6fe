-- ===== src/Scheduler/Runs/Slots.antt =====
-- Lists without repetitions from which one element is taken.
use smallpieclaw.Prelude.{
  ℕ, zero, suc, ◌==◌, Eq, ==_self, ==_sym, ◌≡◌, refl, ap, sym, ◌∙◌, subst, true, false, not, ◌&&◌,
  ◌||◌, some, List, [], ◌∷◌, ◌++◌, contains, distinct, get_elem?, arith, contains-append,
  Bool-cases, inl, inr, map,
}
use smallpieclaw.Scheduler.Runs.{drop_at}

module _ {A : Type 0} ⦃e : Eq A⦄ where
  pub get_elem?-contains :
      (n : ℕ) (xs : List A) (a : A) → get_elem? xs n ≡ some a → contains xs a ≡ true
  unfolding contains
  get_elem?-contains n [] a h = absurd (ground (arith, h))
  get_elem?-contains zero (x ∷ xs) a h =
      let same : x ≡ a = ground (arith, h) in
      subst (λ t. contains (x ∷ xs) t ≡ true) same (ground (arith, ==_self x))
  get_elem?-contains (suc n) (x ∷ xs) a h = ground (arith, get_elem?-contains n xs a h)

  pub drop_at-contains :
      (n : ℕ) (xs : List A) (a t : A)
      → get_elem? xs n ≡ some a
      → distinct xs ≡ true
      → contains (drop_at n xs) t ≡ (contains xs t && not (a == t))
  unfolding drop_at contains distinct
  drop_at-contains n [] a t h d = absurd (ground (arith, h))
  drop_at-contains zero (x ∷ xs) a t h d =
      let same : x ≡ a = ground (arith, h) in
      subst (λ b. contains xs t ≡ ((x == t || contains xs t) && not (b == t))) same
        (elim (Bool-cases (x == t)) [
          | inl here ↦
              let twin : x ≡ t = (e.beq_iff x t).0 here in
              let gone : contains xs t ≡ false =
                subst (λ b. contains xs b ≡ false) twin (ground (arith, d)) in
              ground (arith, here, gone)
          | inr other ↦ ground (arith, other)
        ])
  drop_at-contains (suc n) (x ∷ xs) a t h d =
      let later = get_elem?-contains n xs a h in
      let rest = drop_at-contains n xs a t h (ground (arith, d)) in
      elim (Bool-cases (x == t)) [
        | inl here ↦
            let twin : x ≡ t = (e.beq_iff x t).0 here in
            let gone : contains xs t ≡ false =
              subst (λ b. contains xs b ≡ false) twin (ground (arith, d)) in
            elim (Bool-cases (a == t)) [
              | inl same ↦
                  let there : contains xs t ≡ true =
                    subst (λ b. contains xs b ≡ true) ((e.beq_iff a t).0 same) later in
                  absurd (ground (arith, gone, there))
              | inr apart ↦ ground (arith, here, apart)
            ]
        | inr other ↦ ground (arith, other, rest)
      ]

  pub drop_at-distinct :
      (n : ℕ) (xs : List A) (a : A)
      → get_elem? xs n ≡ some a
      → distinct xs ≡ true
      → distinct (drop_at n xs) ≡ true
  unfolding drop_at contains distinct
  drop_at-distinct n [] a h d = absurd (ground (arith, h))
  drop_at-distinct zero (x ∷ xs) a h d = ground (arith, d)
  drop_at-distinct (suc n) (x ∷ xs) a h d =
      ground (arith, d, drop_at-distinct n xs a h, drop_at-contains n xs a x h)

  -- An element that is new may be put anywhere.
  pub distinct-insert :
      (xs ys : List A) (a : A)
      → distinct (xs ++ ys) ≡ true
      → contains (xs ++ ys) a ≡ false
      → distinct (xs ++ a ∷ ys) ≡ true
  unfolding contains distinct
  distinct-insert [] ys a d new = ground (arith, d, new)
  distinct-insert (x ∷ xs) ys a d new =
      let apart : (x == a) ≡ false = ground (arith, new) in
      let flipped : (a == x) ≡ false = ==_sym a x ∙ apart in
      let inner = distinct-insert xs ys a (ground (arith, d)) (ground (arith, new)) in
      let spread : contains (xs ++ a ∷ ys) x ≡ contains (xs ++ ys) x =
        contains-append xs (a ∷ ys) x ∙ ground (arith, flipped) ∙ sym (contains-append xs ys x) in
      ground (arith, d, inner, spread)

  pub drop_at-append :
      (n : ℕ) (xs ys : List A) (a : A)
      → get_elem? xs n ≡ some a
      → drop_at n (xs ++ ys) ≡ drop_at n xs ++ ys
  unfolding drop_at
  drop_at-append n [] ys a h = absurd (ground (arith, h))
  drop_at-append zero (x ∷ xs) ys a h = refl
  drop_at-append (suc n) (x ∷ xs) ys a h = ap (λ l. x ∷ l) (drop_at-append n xs ys a h)

pub drop_at-map :
    {A B : Type 0} (f : A → B) (n : ℕ) (xs : List A) → map f (drop_at n xs) ≡ drop_at n (map f xs)
unfolding drop_at
drop_at-map f n [] = refl
drop_at-map f zero (x ∷ xs) = refl
drop_at-map f (suc n) (x ∷ xs) = ap (λ l. f x ∷ l) (drop_at-map f n xs)
