-- ===== src/Grants/Consent.antt =====
-- What a ledger answers, told by the history of its operations.
use smallpieclaw.Prelude.{
  String, ◌==◌, string_eq, ==_self, ◌≡◌, refl, ◌↔◌, ◌⊎◌, none, Bool, true, false, not, ◌&&◌, ◌||◌,
  Option, List, [], ◌∷◌, arith, contains, contains-append, contains-keep, any_iff, sym, ap, all,
  Bool-cases, inl, inr,
}
use smallpieclaw.Paths.{FilePath, grant_covers}
use smallpieclaw.Grants.{
  prompt, session, Grant, grant_eq, lifetime_eq, scope_eq, may_hold_grant, Ledger, insert, in_scope,
  add, check, Op, add_op, clear_prompt_op, clear_all_op, apply, replay,
}

contains-insert :
    (h : Grant) (grants : Ledger) (g : Grant)
    → contains (insert h grants) g ≡ (h == g || contains grants g)
unfolding insert contains
contains-insert h grants g = elim (Bool-cases (h == g)) [
  | inl same ↦
      let here : h ≡ g = (grant_eq.beq_iff h g).0 same in
      rw here (ground (arith, contains-append grants (g ∷ []) g, ==_self g))
  | inr other ↦ ground (arith, contains-append grants (h ∷ []) g)
]

-- The operation takes the grant out of every ledger.
unfoldable pub revokes : Op → Grant → Bool
revokes (add_op tool dir lifetime scope_owner) g = false
revokes (clear_prompt_op scope_owner) g = g.lifetime == prompt && g.scope_owner == scope_owner
revokes clear_all_op g = true

-- A session grant that no agent owns is for all; any other grant is for the caller that owns it.
abbrev pub InScope : Grant → Option String → Type 0
InScope g scope_owner =
    ((g.lifetime ≡ session) × (g.scope_owner ≡ none)) ⊎ (g.scope_owner ≡ scope_owner)

in_scope_iff :
    (g : Grant) (scope_owner : Option String)
    → (in_scope g scope_owner ≡ true) ↔ InScope g scope_owner
unfolding in_scope
in_scope_iff g scope_owner = ground (
  arith,
  lifetime_eq.beq_iff g.lifetime session,
  scope_eq.beq_iff g.scope_owner none,
  scope_eq.beq_iff g.scope_owner scope_owner,
)

module _ (realpath : FilePath → FilePath) where
  -- The operation puts the grant into every ledger.
  unfoldable pub gives : Op → Grant → Bool
  unfolding may_hold_grant
  gives (add_op tool dir lifetime scope_owner) g =
      may_hold_grant tool
      && (record {
        tool = tool;
        dir = realpath dir;
        lifetime = lifetime;
        scope_owner = scope_owner;
      })
        == g
  gives (clear_prompt_op scope_owner) g = false
  gives clear_all_op g = false

  -- Some operation of the history gave the grant, and none behind it revoked it.
  unfoldable pub stands : List Op → Grant → Bool
  unfolding gives revokes all
  stands [] g = false
  stands (op ∷ ops) g = stands ops g || gives op g && all (λ o. not (revokes o g)) ops

  contains-apply :
      (op : Op) (grants : Ledger) (g : Grant)
      → contains (apply realpath op grants) g
        ≡ (gives op g || contains grants g && not (revokes op g))
  unfolding apply add gives revokes insert contains
  contains-apply (add_op tool dir lifetime scope_owner) grants g = ground (
    arith,
    contains-insert
        (record { tool = tool; dir = realpath dir; lifetime = lifetime; scope_owner = scope_owner })
        grants g,
  )
  contains-apply (clear_prompt_op scope_owner) grants g = ground (
    arith,
    contains-keep (λ h. not (h.lifetime == prompt && h.scope_owner == scope_owner)) grants g,
  )
  contains-apply clear_all_op grants g = ground arith

  contains-replay :
      (ops : List Op) (grants : Ledger) (g : Grant)
      → contains (replay realpath ops grants) g
        ≡ (stands ops g || contains grants g && all (λ o. not (revokes o g)) ops)
  unfolding replay stands all
  contains-replay [] grants g = ground arith
  contains-replay (op ∷ ops) grants g =
      ground (arith, contains-replay ops (apply realpath op grants) g, contains-apply op grants g)

  gives→may_hold : (op : Op) (g : Grant) → gives op g ≡ true → may_hold_grant g.tool ≡ true
  unfolding gives
  gives→may_hold (add_op tool dir lifetime scope_owner) g h =
      let given : Grant = record {
        tool = tool;
        dir = realpath dir;
        lifetime = lifetime;
        scope_owner = scope_owner;
      } in
      ground (arith, ap (λ x. x.tool) ((grant_eq.beq_iff given g).0 (ground arith)))
  gives→may_hold (clear_prompt_op scope_owner) g h = absurd (ground arith)
  gives→may_hold clear_all_op g h = absurd (ground arith)

  stands→may_hold : (ops : List Op) (g : Grant) → stands ops g ≡ true → may_hold_grant g.tool ≡ true
  unfolding stands gives
  stands→may_hold [] g h = absurd (ground arith)
  stands→may_hold (op ∷ ops) g h = ground (arith, stands→may_hold ops g, gives→may_hold op g)

  -- A grant that lets a call through.
  abbrev pub Covers : Grant → String → FilePath → Option String → Type 0
  Covers g tool dir scope_owner =
      (g.tool ≡ tool) × (grant_covers realpath g.dir (realpath dir) ≡ true) × InScope g scope_owner

  -- After any history of operations on an empty ledger, `check` lets a call through exactly when
  -- some grant stands - it was given by an `add` and not revoked by a later operation - for the same
  -- tool, with a directory that covers the call's, and in the scope of the caller.
  pub check_iff :
      (ops : List Op) (tool : String) (dir : FilePath) (scope_owner : Option String)
      → (check realpath (replay realpath ops []) tool dir scope_owner ≡ true)
        ↔ ((g : Grant) × (stands ops g ≡ true) × Covers g tool dir scope_owner)
  unfolding check contains
  check_iff ops tool dir scope_owner = (to, from)
    where
      let_through : Grant → Bool
      let_through g =
          g.tool == tool && grant_covers realpath g.dir (realpath dir) && in_scope g scope_owner

      to :
          check realpath (replay realpath ops []) tool dir scope_owner ≡ true
          → (g : Grant) × (stands ops g ≡ true) × Covers g tool dir scope_owner
      to h =
          let (g, m, covers) = (any_iff let_through (replay realpath ops [])).0 (ground arith) in
          (
            g,
            ground (arith, m, contains-replay ops [] g),
            (
              (string_eq.beq_iff g.tool tool).0 (ground arith),
              ground arith,
              (in_scope_iff g scope_owner).0 (ground arith),
            ),
          )

      from :
          (g : Grant) × (stands ops g ≡ true) × Covers g tool dir scope_owner
          → check realpath (replay realpath ops []) tool dir scope_owner ≡ true
      from (g, s, (same, covers, scope)) =
          let fits : (g.tool == tool) ≡ true = (string_eq.beq_iff g.tool tool).1 same in
          let inside : in_scope g scope_owner ≡ true = (in_scope_iff g scope_owner).1 scope in
          let passes : let_through g ≡ true = rw (fits, covers, inside) refl in
          let found =
            (any_iff let_through (replay realpath ops [])).1
              (g, ground (arith, contains-replay ops [] g), passes) in
          let may : may_hold_grant tool ≡ true = rw (sym same) (stands→may_hold ops g s) in
          ground (arith, found, may)
