-- ===== src/Dict.antt =====
-- Python's `dict`: keys with values in order of insertion. A write to a key that is there keeps
-- the key's place; iteration follows the list.
use smallpieclaw.Prelude.{
  suc, ◌≤◌, Eq, ◌==◌, ==_self, ◌≡◌, refl, ap, Bool, true, false, not, ◌&&◌, ◌||◌, Option, none,
  some, List, [], ◌∷◌, arith, if◌then◌else◌, length, Bool-cases, inl, inr,
}

abbrev pub Dict {ℓ κ} : Type ℓ → Type κ → Type (ℓ ⊔ κ)
Dict K V = List (K × V)

module _ {ℓ κ} {K : Type ℓ} {V : Type κ} ⦃e : Eq K⦄ where
  -- d.get(k)
  unfoldable pub get : Dict K V → K → Option V
  get [] k = none
  get ((j, v) ∷ d) k = if j == k then some v else get d k

  -- d[k] = v
  unfoldable pub put : Dict K V → K → V → Dict K V
  put [] k v = (k, v) ∷ []
  put ((j, w) ∷ d) k v = if j == k then (j, v) ∷ d else (j, w) ∷ put d k v

  -- d.pop(k, None)
  unfoldable pub remove : Dict K V → K → Dict K V
  remove [] k = []
  remove ((j, w) ∷ d) k = let rest = remove d k in if j == k then rest else (j, w) ∷ rest

  -- k in d
  unfoldable pub has : Dict K V → K → Bool
  has [] k = false
  has ((j, v) ∷ d) k = j == k || has d k

  abbrev pub keys : Dict K V → List K
  keys [] = []
  keys ((k, v) ∷ d) = k ∷ keys d

  abbrev pub values : Dict K V → List V
  values [] = []
  values ((k, v) ∷ d) = v ∷ values d

  pub get-put :
      (d : Dict K V) (k j : K) (v : V) → get (put d k v) j ≡ (if k == j then some v else get d j)
  unfolding get put
  get-put [] k j v = refl
  get-put ((i, w) ∷ d) k j v =
      ground (arith, e.beq_iff k j, e.beq_iff i k, e.beq_iff i j, get-put d k j v)

  pub get-remove :
      (d : Dict K V) (k j : K) → get (remove d k) j ≡ (if k == j then none else get d j)
  unfolding get remove
  get-remove [] k j = ground arith
  get-remove ((i, w) ∷ d) k j =
      ground (arith, e.beq_iff k j, e.beq_iff i k, e.beq_iff i j, get-remove d k j)

  pub get-put_self : (d : Dict K V) (k : K) (v : V) → get (put d k v) k ≡ some v
  get-put_self d k v = ground (arith, get-put d k k v, ==_self k)

  pub get-remove_self : (d : Dict K V) (k : K) → get (remove d k) k ≡ none
  get-remove_self d k = ground (arith, get-remove d k k, ==_self k)

  pub has-get : (d : Dict K V) (k : K) {v : V} → get d k ≡ some v → has d k ≡ true
  unfolding get has
  has-get [] k h = ground arith
  has-get ((j, w) ∷ d) k {v} h = ground (arith, has-get d k {v = v})

  pub get-has : (d : Dict K V) (k : K) → has d k ≡ true → (v : V) × (get d k ≡ some v)
  unfolding get has
  get-has [] k h = ground arith
  get-has ((j, w) ∷ d) k h = elim (Bool-cases (j == k)) [
    | inl same ↦ (w, ground arith)
    | inr other ↦ let (v, found) = get-has d k (ground arith) in (v, ground arith)
  ]

  pub has-false→get : (d : Dict K V) (k : K) → has d k ≡ false → get d k ≡ none
  unfolding get has
  has-false→get [] k h = refl
  has-false→get ((j, w) ∷ d) k h = ground (arith, has-false→get d k)

  pub has-put : (d : Dict K V) (k j : K) (v : V) → has (put d k v) j ≡ (k == j || has d j)
  unfolding has put
  has-put [] k j v = refl
  has-put ((i, w) ∷ d) k j v =
      ground (arith, e.beq_iff k j, e.beq_iff i k, e.beq_iff i j, has-put d k j v)

  pub has-remove : (d : Dict K V) (k j : K) → has (remove d k) j ≡ (not (k == j) && has d j)
  unfolding has remove
  has-remove [] k j = ground arith
  has-remove ((i, w) ∷ d) k j =
      ground (arith, e.beq_iff k j, e.beq_iff i k, e.beq_iff i j, has-remove d k j)

  -- No key stands twice.
  abbrev pub IsUnique : Dict K V → Type 0
  IsUnique [] = Unit
  IsUnique ((k, v) ∷ d) = (has d k ≡ false) × IsUnique d

  pub put-IsUnique : (d : Dict K V) (k : K) (v : V) → IsUnique d → IsUnique (put d k v)
  unfolding put has
  put-IsUnique [] k v u = (refl, tt)
  put-IsUnique ((j, w) ∷ d) k v u =
      ground (arith, put-IsUnique d k v, has-put d k j v, e.beq_iff k j, e.beq_iff j k)

  pub remove-IsUnique : (d : Dict K V) (k : K) → IsUnique d → IsUnique (remove d k)
  unfolding remove
  remove-IsUnique [] k u = tt
  remove-IsUnique ((j, w) ∷ d) k u = ground (arith, remove-IsUnique d k, has-remove d k j)

  pub length-remove-le : (d : Dict K V) (k : K) → length (remove d k) ≤ length d
  unfolding remove
  length-remove-le [] k = omega arith
  length-remove-le ((j, w) ∷ d) k = ground (arith, length-remove-le d k)

  remove-absent : (d : Dict K V) (k : K) → has d k ≡ false → remove d k ≡ d
  unfolding remove has
  remove-absent [] k h = refl
  remove-absent ((j, w) ∷ d) k h = ground (arith, remove-absent d k)

  pub length-remove :
      (d : Dict K V) (k : K) {v : V}
      → IsUnique d
      → get d k ≡ some v
      → suc (length (remove d k)) ≡ length d
  unfolding remove get
  length-remove [] k {v} u h = absurd (ground (arith, h))
  length-remove ((j, w) ∷ d) k {v} (new, u) h = elim (Bool-cases (j == k)) [
    | inl same ↦
        let absent : has d k ≡ false = ground (arith, same, new, e.beq_iff j k) in
        rw (same, remove, remove-absent d k absent) refl
    | inr other ↦
        rw (other, remove) (ap suc (length-remove d k {v = v} u (ground (arith, h, other))))
  ]
