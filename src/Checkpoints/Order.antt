-- ===== src/Checkpoints/Order.antt =====
-- The first entries of a sorted list, and those behind them.
use smallpieclaw.Dict
use smallpieclaw.Prelude.{
  ℕ, zero, suc, String, ◌==◌, string_eq, ◌≡◌, refl, ap, sym, ◌∙◌, inl, inr, true, false, ◌||◌,
  Option, none, some, List, [], ◌∷◌, arith, length, take, drop, All, contains, distinct, Bool-cases,
}
use smallpieclaw.Checkpoints.{Text, text_le, Entry, key_of}
use smallpieclaw.Checkpoints.Sorting.{IsBelow, IsSorted}
use smallpieclaw.Checkpoints.Pruning.{corrupted_names}

module _ {ℓ} {V : Type ℓ} where
  pub contains-keys :
      (d : Dict.Dict String V) (k : String) → contains (Dict.keys d) k ≡ Dict.has d k
  unfolding contains Dict.has
  contains-keys [] k = refl
  contains-keys ((j, v) ∷ d) k = ground (arith, contains-keys d k)

  pub distinct-keys : (d : Dict.Dict String V) → Dict.IsUnique d → distinct (Dict.keys d) ≡ true
  unfolding distinct
  distinct-keys [] unique = refl
  distinct-keys ((j, v) ∷ d) (new, unique) =
      ground (arith, distinct-keys d unique, contains-keys d j, new)

  pub length-keys : (d : Dict.Dict String V) → length (Dict.keys d) ≡ length d
  length-keys [] = refl
  length-keys ((j, v) ∷ d) = ap suc (length-keys d)

  pub has_split_at :
      (n : ℕ) (d : Dict.Dict String V) (k : String)
      → Dict.has d k ≡ (Dict.has (take n d) k || Dict.has (drop n d) k)
  unfolding Dict.has
  has_split_at zero d k = refl
  has_split_at (suc n) [] k = refl
  has_split_at (suc n) ((j, v) ∷ d) k = ground (arith, has_split_at n d k)

  pub get-take :
      (n : ℕ) (d : Dict.Dict String V) (k : String)
      → Dict.has (take n d) k ≡ true
      → Dict.get (take n d) k ≡ Dict.get d k
  unfolding Dict.has Dict.get
  get-take zero d k h = absurd (ground (arith, h))
  get-take (suc n) [] k h = absurd (ground (arith, h))
  get-take (suc n) ((j, v) ∷ d) k h = ground (arith, get-take n d k, h)

  pub take-IsUnique : (n : ℕ) (d : Dict.Dict String V) → Dict.IsUnique d → Dict.IsUnique (take n d)
  take-IsUnique zero d unique = tt
  take-IsUnique (suc n) [] unique = tt
  take-IsUnique (suc n) ((j, v) ∷ d) (new, unique) =
      (ground (arith, has_split_at n d j, new), take-IsUnique n d unique)

pub get-corrupted :
    (entries : List Entry) (k : String)
    → Dict.get entries k ≡ some none
    → contains (corrupted_names entries) k ≡ true
unfolding Dict.get corrupted_names contains
get-corrupted [] k h = absurd (ground (arith, h))
get-corrupted ((j, none) ∷ entries) k h = ground (arith, h, get-corrupted entries k)
get-corrupted ((j, some c) ∷ entries) k h = ground (arith, h, get-corrupted entries k)

has-corrupted :
    (entries : List Entry) (k : String)
    → contains (corrupted_names entries) k ≡ true
    → Dict.has entries k ≡ true
unfolding Dict.has corrupted_names contains
has-corrupted [] k h = h
has-corrupted ((j, none) ∷ entries) k h = ground (arith, h, has-corrupted entries k)
has-corrupted ((j, some c) ∷ entries) k h = ground (arith, h, has-corrupted entries k)

pub corrupted-get :
    (entries : List Entry) (k : String)
    → Dict.IsUnique entries
    → contains (corrupted_names entries) k ≡ true
    → Dict.get entries k ≡ some none
unfolding Dict.get corrupted_names contains
corrupted-get [] k unique h = absurd (ground (arith, h))
corrupted-get ((j, none) ∷ entries) k (new, unique) h =
    ground (arith, h, corrupted-get entries k unique)
corrupted-get ((j, some c) ∷ entries) k (new, unique) h =
    ground (
      arith,
      h,
      new,
      corrupted-get entries k unique,
      has-corrupted entries k,
      string_eq.beq_iff j k,
    )

All-get :
    (e : Entry) (entries : List Entry) (k : String) (t : Option Text)
    → All (IsBelow e) entries
    → Dict.get entries k ≡ some t
    → text_le (key_of t) (key_of e.1) ≡ true
unfolding Dict.get
All-get e [] k t all h = absurd (ground (arith, h))
All-get e ((j, u) ∷ entries) k t (first, all) h = elim (Bool-cases (j == k)) [
  | inl same ↦
      let here : u ≡ t = ground (arith, h, same) in
      ap (λ x. text_le (key_of x) (key_of e.1)) (sym here) ∙ first
  | inr other ↦ All-get e entries k t all (ground (arith, h, other))
]

-- In a sorted list nothing behind the first `n` entries is newer than one of these.
pub take-le-drop :
    (n : ℕ) (entries : List Entry) (a b : String) (s t : Option Text)
    → IsSorted entries
    → Dict.IsUnique entries
    → Dict.has (take n entries) a ≡ true
    → Dict.has (drop n entries) b ≡ true
    → Dict.get entries a ≡ some s
    → Dict.get entries b ≡ some t
    → text_le (key_of t) (key_of s) ≡ true
unfolding Dict.has Dict.get
take-le-drop zero entries a b s t sorted unique in_take in_drop at_a at_b =
    absurd (ground (arith, in_take))
take-le-drop (suc n) [] a b s t sorted unique in_take in_drop at_a at_b =
    absurd (ground (arith, in_take))
take-le-drop (suc n) ((j, u) ∷ entries) a b s t (first, sorted) (new, unique) in_take in_drop at_a
      at_b =
    let behind : Dict.has entries b ≡ true = ground (arith, has_split_at n entries b, in_drop) in
    let apart : (j == b) ≡ false = ground (arith, behind, new, string_eq.beq_iff j b) in
    let at_b' : Dict.get entries b ≡ some t = ground (arith, at_b, apart) in
    elim (Bool-cases (j == a)) [
      | inl same ↦
          let here : u ≡ s = ground (arith, at_a, same) in
          ap (λ x. text_le (key_of t) (key_of x)) (sym here)
          ∙ All-get (j, u) entries b t first at_b'
      | inr other ↦
          take-le-drop n entries a b s t sorted unique (ground (arith, in_take, other)) in_drop
            (ground (arith, at_a, other)) at_b'
    ]
