-- ===== src/Grants.antt =====
-- confirmation.py: `Grant` and `GrantLedger`. The set of grants is a list without repetitions; the
-- lock makes each operation one step. `os.path.realpath` behind `expanduser` is a parameter.
pub mod Consent
mod Tests
use smallpieclaw.Prelude.{
  ℕ, String, ◌==◌, nat_eq, list_eq, string_eq, Eq, ◌≡◌, ◌↔◌, Bool, true, false, not, ◌&&◌, ◌||◌,
  Option, none, some, List, [], ◌∷◌, ◌++◌, arith, if◌then◌else◌, contains, any, keep,
}
use smallpieclaw.Paths.{FilePath, grant_covers}

pub data GrantLifetime : Type 0 where
  prompt session : GrantLifetime

pub record Grant : Type 0 where
  pub tool : String
  pub dir : FilePath
  pub lifetime : GrantLifetime
  pub scope_owner : Option String

abbrev lifetime_beq : GrantLifetime → GrantLifetime → Bool
lifetime_beq prompt prompt = true
lifetime_beq session session = true
lifetime_beq prompt session = false
lifetime_beq session prompt = false

abbrev scope_beq : Option String → Option String → Bool
scope_beq none none = true
scope_beq (some a) (some b) = a == b
scope_beq none (some b) = false
scope_beq (some a) none = false

pub lifetime_beq_iff : (a b : GrantLifetime) → (lifetime_beq a b ≡ true) ↔ (a ≡ b)
lifetime_beq_iff prompt prompt = ground arith
lifetime_beq_iff session session = ground arith
lifetime_beq_iff prompt session = ground arith
lifetime_beq_iff session prompt = ground arith

pub scope_beq_iff : (a b : Option String) → (scope_beq a b ≡ true) ↔ (a ≡ b)
scope_beq_iff none none = ground arith
scope_beq_iff (some a) (some b) = ground (arith, string_eq.beq_iff a b)
scope_beq_iff none (some b) = ground arith
scope_beq_iff (some a) none = ground arith

instance abbrev pub lifetime_eq : Eq GrantLifetime
lifetime_eq = record { beq = lifetime_beq; beq_iff = lifetime_beq_iff }

instance abbrev pub scope_eq : Eq (Option String)
scope_eq = record { beq = scope_beq; beq_iff = scope_beq_iff }

abbrev dir_eq : Eq FilePath
dir_eq = list_eq

unfoldable pub grant_beq : Grant → Grant → Bool
grant_beq g h =
    g.tool == h.tool && g.dir == h.dir && g.lifetime == h.lifetime && g.scope_owner == h.scope_owner

pub grant_beq_iff : (g h : Grant) → (grant_beq g h ≡ true) ↔ (g ≡ h)
unfolding grant_beq
grant_beq_iff g h = ground (
  arith,
  string_eq.beq_iff g.tool h.tool,
  dir_eq.beq_iff g.dir h.dir,
  lifetime_beq_iff g.lifetime h.lifetime,
  scope_beq_iff g.scope_owner h.scope_owner,
)

instance abbrev pub grant_eq : Eq Grant
grant_eq = record { beq = grant_beq; beq_iff = grant_beq_iff }

abbrev pub no_standing_grant_tools : List String
no_standing_grant_tools = "shell" ∷ "secret_get" ∷ []

unfoldable pub may_hold_grant : String → Bool
unfolding contains
may_hold_grant tool = not (contains no_standing_grant_tools tool)

abbrev pub Ledger : Type 0
Ledger = List Grant

-- self._grants.add(grant)
unfoldable pub insert : Grant → Ledger → Ledger
unfolding contains
insert g grants = if contains grants g then grants else grants ++ g ∷ []

-- The comprehension of `clear_prompt_scope`.
unfoldable pub clear_prompt_scope : Option String → Ledger → Ledger
unfolding keep
clear_prompt_scope scope_owner grants =
    keep (λ g. not (g.lifetime == prompt && g.scope_owner == scope_owner)) grants

abbrev pub clear_all : Ledger → Ledger
clear_all grants = []

-- The scope test of `check`.
unfoldable pub in_scope : Grant → Option String → Bool
in_scope g scope_owner =
    g.lifetime == session && g.scope_owner == none || g.scope_owner == scope_owner

-- The operations that change a ledger, for histories of them.
pub data Op : Type 0 where
  add_op : String → FilePath → GrantLifetime → Option String → Op
  clear_prompt_op : Option String → Op
  clear_all_op : Op

module _ (realpath : FilePath → FilePath) where
  unfoldable pub add : String → FilePath → GrantLifetime → Option String → Ledger → Bool × Ledger
  unfolding may_hold_grant insert
  add tool dir lifetime scope_owner grants =
      if may_hold_grant tool
      then (
        true,
        insert
            (record {
              tool = tool;
              dir = realpath dir;
              lifetime = lifetime;
              scope_owner = scope_owner;
            })
            grants,
      )
      else (false, grants)

  unfoldable pub check : Ledger → String → FilePath → Option String → Bool
  unfolding may_hold_grant any grant_covers in_scope
  check grants tool dir scope_owner =
      may_hold_grant tool
      && any
          (λ g.
            g.tool == tool && grant_covers realpath g.dir (realpath dir) && in_scope g scope_owner)
          grants

  unfoldable pub apply : Op → Ledger → Ledger
  unfolding add clear_prompt_scope
  apply (add_op tool dir lifetime scope_owner) grants = (add tool dir lifetime scope_owner grants).1
  apply (clear_prompt_op scope_owner) grants = clear_prompt_scope scope_owner grants
  apply clear_all_op grants = clear_all grants

  unfoldable pub replay : List Op → Ledger → Ledger
  unfolding apply
  replay [] grants = grants
  replay (op ∷ ops) grants = replay ops (apply op grants)
