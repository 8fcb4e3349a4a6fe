-- ===== src/Policy/Create/Collected.antt =====
-- What `create` collects for Tier 0.
use smallpieclaw.Dict
use smallpieclaw.Dict.{Dict}
use smallpieclaw.Prelude.{
  ℕ, zero, suc, String, ◌==◌, nat_eq, list_eq, string_eq, ==_self, ◌≡◌, inl, inr, ap, sym, ◌∙◌,
  subst, Bool, true, false, ◌||◌, some, List, [], ◌∷◌, arith, any, contains, get_elem?, Bool-cases,
  Sum-cases, if◌then◌else◌, map,
}
use smallpieclaw.Paths.{FilePath, is_contained}
use smallpieclaw.Policy.{ProhibitedEntry, external}
use smallpieclaw.Policy.Verdicts.{within}
use smallpieclaw.Policy.Create.{
  Host, PolicyConfig, RawItem, text, not_text, entries, realify_items, realify_list, is_empty,
  resolve, derived_entries, hardcoded_prohibited, credential_home_paths, home, system_entries,
  with_credentials, with_derived, with_configured, prohibited_of,
}
use smallpieclaw.Policy.Create.Built.{}

-- The directories and files of Tier 0, by where they come from.
pub data IsTier0 (host : Host) (c : PolicyConfig) : FilePath → Type 0 where
  system : {dir : FilePath} → contains hardcoded_prohibited dir ≡ true → IsTier0 host c dir
  derived :
      (i : ℕ) {path : FilePath} (entry : ProhibitedEntry)
      → get_elem? (derived_entries host c) i ≡ some (path, entry)
      → is_empty path ≡ false
      → IsTier0 host c path
  credentials :
      (i : ℕ) {rel : FilePath} (reason : String)
      → get_elem? credential_home_paths i ≡ some (rel, reason)
      → IsTier0 host c (host.realpath (host.join (host.expanduser home) rel))
  configured :
      (items : List RawItem) (i : ℕ) {dir : FilePath}
      → c.prohibited_dirs ≡ entries items
      → get_elem? items i ≡ some (text dir)
      → IsTier0 host c (resolve host dir)

pub or_right : (a : Bool) {b : Bool} → b ≡ true → (a || b) ≡ true
or_right a h = ground (arith, h)

or_left : {a : Bool} (b : Bool) → a ≡ true → (a || b) ≡ true
or_left b h = ground (arith, h)

pub has-within :
    (d : Dict FilePath ProhibitedEntry) (dir path : FilePath)
    → Dict.has d dir ≡ true
    → is_contained path dir ≡ true
    → within d path ≡ true
unfolding Dict.has within any
has-within [] dir path h inside = absurd (ground (arith, h))
has-within ((other, entry) ∷ d) dir path h inside = elim (Bool-cases (other == dir)) [
  | inl same ↦
      let here : is_contained path other ≡ true =
        subst (λ z. is_contained path z ≡ true) (sym ((list_eq.beq_iff other dir).0 same)) inside in
      ground arith
  | inr differ ↦ ground (arith, has-within d dir path, h, differ, inside)
]

with_derived-has :
    (more : List (FilePath × ProhibitedEntry)) (dir : FilePath) (d : Dict FilePath ProhibitedEntry)
    → Dict.has d dir ≡ true
    → Dict.has (with_derived more d) dir ≡ true
unfolding with_derived
with_derived-has [] dir d h = h
with_derived-has ((path, entry) ∷ more) dir d h =
    with_derived-has more dir (if is_empty path then d else Dict.put d path entry)
      (ground (arith, h, Dict.has-put d path dir entry))

with_derived-new :
    (more : List (FilePath × ProhibitedEntry)) (d : Dict FilePath ProhibitedEntry) (i : ℕ)
    (path : FilePath) (entry : ProhibitedEntry)
    → get_elem? more i ≡ some (path, entry)
    → is_empty path ≡ false
    → Dict.has (with_derived more d) path ≡ true
unfolding with_derived
with_derived-new [] d i path entry at h = absurd (ground (arith, at))
with_derived-new ((p, e) ∷ more) d zero path entry at h =
    let same : p ≡ path = ground (arith, at) in
    let given : is_empty p ≡ false = ap is_empty same ∙ h in
    subst (λ t. Dict.has (with_derived more (if is_empty p then d else Dict.put d p e)) t ≡ true)
      same
      (with_derived-has more p (if is_empty p then d else Dict.put d p e)
        (ground (arith, given, Dict.has-put d p p e, ==_self p)))
with_derived-new ((p, e) ∷ more) d (suc i) path entry at h =
    with_derived-new more (if is_empty p then d else Dict.put d p e) i path entry at h

with_configured-has :
    (paths : List FilePath) (dir : FilePath) (d : Dict FilePath ProhibitedEntry)
    → (contains paths dir || Dict.has d dir) ≡ true
    → Dict.has (with_configured paths d) dir ≡ true
unfolding with_configured contains
with_configured-has [] dir d h = h
with_configured-has (path ∷ paths) dir d h =
    let entry : ProhibitedEntry = record {
      reason = "prohibited directory from config";
      category = external;
    } in
    with_configured-has paths dir (if Dict.has d path then d else Dict.put d path entry)
      (elim (Bool-cases (Dict.has d path)) [
        | inl there ↦ elim (Bool-cases (path == dir)) [
          | inl same ↦
              let listed : Dict.has d dir ≡ true =
                subst (λ p. Dict.has d p ≡ true) ((list_eq.beq_iff path dir).0 same) there in
              ground (arith, there, listed)
          | inr differ ↦ ground (arith, h, there, differ)
        ]
        | inr new ↦ ground (arith, h, new, Dict.has-put d path dir entry)
      ])

with_credentials-has :
    (host : Host) (rels : List (FilePath × String)) (dir : FilePath)
    (d : Dict FilePath ProhibitedEntry)
    → Dict.has d dir ≡ true
    → Dict.has (with_credentials host rels d) dir ≡ true
unfolding with_credentials
with_credentials-has host [] dir d h = h
with_credentials-has host ((rel, reason) ∷ rels) dir d h =
    let path = host.realpath (host.join (host.expanduser home) rel) in
    let entry : ProhibitedEntry = record { reason = reason; category = external } in
    with_credentials-has host rels dir (Dict.put d path entry)
      (ground (arith, h, Dict.has-put d path dir entry))

with_credentials-new :
    (host : Host) (rels : List (FilePath × String)) (d : Dict FilePath ProhibitedEntry) (i : ℕ)
    (rel : FilePath) (reason : String)
    → get_elem? rels i ≡ some (rel, reason)
    → Dict.has (with_credentials host rels d) (host.realpath (host.join (host.expanduser home) rel))
      ≡ true
unfolding with_credentials
with_credentials-new host [] d i rel reason h = absurd (ground (arith, h))
with_credentials-new host ((r, why) ∷ rels) d zero rel reason h =
    let same : r ≡ rel = ground (arith, h) in
    let path = host.realpath (host.join (host.expanduser home) r) in
    let entry : ProhibitedEntry = record { reason = why; category = external } in
    subst
      (λ t.
        Dict.has (with_credentials host rels (Dict.put d path entry))
          (host.realpath (host.join (host.expanduser home) t))
        ≡ true)
      same
      (with_credentials-has host rels path (Dict.put d path entry)
        (ground (arith, Dict.has-put d path path entry, ==_self path)))
with_credentials-new host ((r, why) ∷ rels) d (suc i) rel reason h =
    with_credentials-new host rels
      (Dict.put d (host.realpath (host.join (host.expanduser home) r))
        (record { reason = why; category = external }))
      i rel reason h

has-system :
    (dirs : List FilePath) (dir : FilePath) (entry : ProhibitedEntry)
    → contains dirs dir ≡ true
    → Dict.has (map (λ p. (p, entry)) dirs) dir ≡ true
unfolding contains Dict.has
has-system [] dir entry h = h
has-system (d ∷ dirs) dir entry h = ground (arith, has-system dirs dir entry)

-- Nothing is left out of a list whose directories need not exist.
realify_items-contains :
    (host : Host) (label : String) (items : List RawItem) (i : ℕ) (dir : FilePath)
    (resolved : List FilePath)
    → get_elem? items i ≡ some (text dir)
    → realify_items host label false items ≡ inr resolved
    → contains resolved (resolve host dir) ≡ true
unfolding realify_items contains
realify_items-contains host label [] i dir resolved at h = absurd (ground (arith, at))
realify_items-contains host label (not_text ∷ items) i dir resolved at h =
    absurd (ground (arith, h))
realify_items-contains host label (text item ∷ items) zero dir resolved at h =
    elim (Sum-cases (realify_items host label false items)) [
      | inl (error, fails) ↦ absurd (ground (arith, h, fails))
      | inr (rest, good) ↦
          let same : item ≡ dir = ground (arith, at) in
          let shape : resolved ≡ resolve host item ∷ rest = ground (arith, h, good) in
          subst (λ d. contains resolved (resolve host d) ≡ true) same
            (subst (λ l. contains l (resolve host item) ≡ true) (sym shape)
              (ground (arith, ==_self (resolve host item))))
    ]
realify_items-contains host label (text item ∷ items) (suc i) dir resolved at h =
    elim (Sum-cases (realify_items host label false items)) [
      | inl (error, fails) ↦ absurd (ground (arith, h, fails))
      | inr (rest, good) ↦
          let shape : resolved ≡ resolve host item ∷ rest = ground (arith, h, good) in
          subst (λ l. contains l (resolve host dir) ≡ true) (sym shape)
            (ground (arith, realify_items-contains host label items i dir rest at good))
    ]

upper-has :
    (host : Host) (c : PolicyConfig) (dirs : List FilePath) (dir : FilePath)
    → Dict.has (with_credentials host credential_home_paths system_entries) dir ≡ true
    → Dict.has (prohibited_of host c dirs) dir ≡ true
unfolding prohibited_of
upper-has host c dirs dir h =
    let d = with_credentials host credential_home_paths system_entries in
    with_configured-has dirs dir (with_derived (derived_entries host c) d)
      (or_right _ (with_derived-has (derived_entries host c) dir d h))

pub prohibited_of-has :
    (host : Host) (c : PolicyConfig) (dirs : List FilePath) (dir : FilePath)
    → realify_list host c.prohibited_dirs "prohibited_dirs" false ≡ inr dirs
    → IsTier0 host c dir
    → Dict.has (prohibited_of host c dirs) dir ≡ true
unfolding prohibited_of realify_list system_entries
prohibited_of-has host c dirs dir h (system m) =
    let entry : ProhibitedEntry = record { reason = "system directory"; category = external } in
    upper-has host c dirs dir (
      with_credentials-has host credential_home_paths dir system_entries
        (has-system hardcoded_prohibited dir entry m))
prohibited_of-has host c dirs dir h (derived i entry at given) =
    let d = with_credentials host credential_home_paths system_entries in
    with_configured-has dirs dir (with_derived (derived_entries host c) d)
      (or_right _ (with_derived-new (derived_entries host c) d i dir entry at given))
prohibited_of-has host c dirs dir h (credentials i {rel} reason at) =
    upper-has host c dirs dir
      (with_credentials-new host credential_home_paths system_entries i rel reason at)
prohibited_of-has host c dirs dir h (configured items i {dir = raw} listed at) =
    let d = with_credentials host credential_home_paths system_entries in
    let items_good = ap (λ l. realify_list host l "prohibited_dirs" false) (sym listed) ∙ h in
    with_configured-has dirs (resolve host raw) (with_derived (derived_entries host c) d)
      (or_left _ (realify_items-contains host "prohibited_dirs" items i raw dirs at items_good))
