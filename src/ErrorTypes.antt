-- ===== src/ErrorTypes.antt =====
-- error_registry.py: the retry policies of the known error types. Backoff bases are whole seconds.
use smallpieclaw.Prelude.{
  ℕ, ◌≤◌, String, ◌≡◌, string_eq, Bool, true, false, Option, some, List, [], ◌∷◌, All, arith,
}
use smallpieclaw.Dict
use smallpieclaw.Dict.{Dict}

pub record ErrorTypeInfo : Type 0 where
  pub error_type : String
  pub recoverable : Bool
  pub max_retries : ℕ
  pub backoff_base : ℕ
  pub requires_complex_recovery : Bool

abbrev pub ErrorTypeRegistry : Type 0
ErrorTypeRegistry = Dict String ErrorTypeInfo

unfoldable pub register : ErrorTypeRegistry → ErrorTypeInfo → ErrorTypeRegistry
unfolding Dict.put
register types info = Dict.put types info.error_type info

unfoldable pub get : ErrorTypeRegistry → String → Option ErrorTypeInfo
unfolding Dict.get
get types error_type = Dict.get types error_type

abbrev info : String → Bool → ℕ → ℕ → Bool → ErrorTypeInfo
info error_type recoverable max_retries backoff_base complex = record {
  error_type = error_type;
  recoverable = recoverable;
  max_retries = max_retries;
  backoff_base = backoff_base;
  requires_complex_recovery = complex;
}

-- The calls of `register` that follow one another.
unfoldable pub register_all : List ErrorTypeInfo → ErrorTypeRegistry → ErrorTypeRegistry
unfolding register
register_all [] types = types
register_all (i ∷ infos) types = register_all infos (register types i)

abbrev pub default_infos : List ErrorTypeInfo
default_infos =
    info "tool_timeout" true 2 2 false
    ∷ info "network_error" true 2 2 false
    ∷ info "syntax_error" true 2 1 false
    ∷ info "permission_denied" false 0 0 true
    ∷ info "file_not_found" false 0 0 true
    ∷ info "command_not_found" false 0 0 false
    ∷ info "wrong_model_for_task" false 0 0 true
    ∷ info "fundamentally_wrong_approach" false 0 0 true
    ∷ info "impossible_with_current_tools" false 0 0 true
    ∷ info "nsjail_error" false 0 0 true
    ∷ []

unfoldable pub register_defaults : ErrorTypeRegistry → ErrorTypeRegistry
unfolding register_all
register_defaults types = register_all default_infos types

-- ErrorTypeRegistry(): an empty table with the defaults.
unfoldable pub defaults : ErrorTypeRegistry
unfolding register_defaults
defaults = register_defaults []

-- No policy of the table allows more than `m` retries or has a backoff base above `b`.
pub record PoliciesWithin (m b : ℕ) (types : ErrorTypeRegistry) : Type 0 where
  pub bound :
      (t : String) (i : ErrorTypeInfo)
      → get types t ≡ some i
      → (i.max_retries ≤ m) × (i.backoff_base ≤ b)

module _ (m b : ℕ) where
  abbrev Within : ErrorTypeInfo → Type 0
  Within i = (i.max_retries ≤ m) × (i.backoff_base ≤ b)

  register-PoliciesWithin :
      (types : ErrorTypeRegistry) (i : ErrorTypeInfo)
      → Within i
      → PoliciesWithin m b types
      → PoliciesWithin m b (register types i)
  unfolding get register
  register-PoliciesWithin types i h r = record {
    bound = λ t j e. ground (arith, r.bound t j, Dict.get-put types i.error_type t i);
  }

  register_all-PoliciesWithin :
      (infos : List ErrorTypeInfo) (types : ErrorTypeRegistry)
      → All Within infos
      → PoliciesWithin m b types
      → PoliciesWithin m b (register_all infos types)
  unfolding register_all
  register_all-PoliciesWithin [] types h r = r
  register_all-PoliciesWithin (i ∷ infos) types h r =
      register_all-PoliciesWithin infos (register types i) h.1
        (register-PoliciesWithin types i h.0 r)

  empty-PoliciesWithin : PoliciesWithin m b []
  unfolding get
  empty-PoliciesWithin = record { bound = λ t j e. ground arith }

pub defaults-PoliciesWithin : PoliciesWithin 2 2 defaults
unfolding defaults register_defaults
defaults-PoliciesWithin =
    register_all-PoliciesWithin 2 2 default_infos [] (omega arith) (empty-PoliciesWithin 2 2)
