-- ===== src/Scheduler/Schedule.antt =====
-- scheduler.py: `_legacy_to_cron` and `Scheduler._resolve_schedule`.
-- `Library` holds what they take from Python and from croniter.
use smallpieclaw.Prelude.{
  ℕ, zero, suc, ◌==◌, nat_eq, Bool, true, false, not, ◌&&◌, Option, none, some, [], ◌∷◌, ◌++◌, ◌⊎◌,
  inl, inr, if◌then◌else◌, contains,
}
use smallpieclaw.Scheduler.Tags.{Text, is_empty}

pub record Library : Type 0 where
  pub strip : Text → Text
  pub lower : Text → Text
  -- str(int(text)); `none` stands for the ValueError
  pub decimal : Text → Option Text
  pub show : ℕ → Text
  -- croniter(expr) does not raise
  pub is_cron : Text → Bool

pub data ScheduleType : Type 0 where
  once daily interval other : ScheduleType

-- What is stored of it.
pub data Kind : Type 0 where
  once_job cron_job : Kind

abbrev default_time : Text
default_time = b'0' ∷ b'2' ∷ b':' ∷ b'0' ∷ b'0' ∷ []

abbrev default_cron : Text
default_cron = b'0' ∷ 32 ∷ b'2' ∷ 32 ∷ b'*' ∷ 32 ∷ b'*' ∷ 32 ∷ b'*' ∷ []

abbrev any_day : Text
any_day = 32 ∷ b'*' ∷ 32 ∷ b'*' ∷ 32 ∷ b'*' ∷ []

abbrev every_hour : Text
every_hour = b'0' ∷ 32 ∷ b'*' ∷ 32 ∷ b'*' ∷ 32 ∷ b'*' ∷ 32 ∷ b'*' ∷ []

abbrev every_minute : Text
every_minute = b'*' ∷ 32 ∷ b'*' ∷ 32 ∷ b'*' ∷ 32 ∷ b'*' ∷ 32 ∷ b'*' ∷ []

abbrev hours_prefix : Text
hours_prefix = b'0' ∷ 32 ∷ b'*' ∷ b'/' ∷ []

abbrev hours_suffix : Text
hours_suffix = 32 ∷ b'*' ∷ 32 ∷ b'*' ∷ 32 ∷ b'*' ∷ []

abbrev minutes_prefix : Text
minutes_prefix = b'*' ∷ b'/' ∷ []

abbrev minutes_suffix : Text
minutes_suffix = 32 ∷ b'*' ∷ 32 ∷ b'*' ∷ 32 ∷ b'*' ∷ 32 ∷ b'*' ∷ []

-- text.split(":") when that has two parts
unfoldable pub split_colon : Text → Option (Text × Text)
split_colon [] = none
split_colon (c ∷ text) = elim (split_colon text) [
  | none ↦ if c == b':' && not (contains text b':') then some ([], text) else none
  | some (h, m) ↦ if c == b':' then none else some (c ∷ h, m)
]

-- `a or b` of texts that may be missing
abbrev pub or_text : Option Text → Option Text → Option Text
or_text none b = b
or_text (some []) b = b
or_text (some (c ∷ text)) b = some (c ∷ text)

abbrev text_or : Option Text → Text → Text
text_or none b = b
text_or (some []) b = b
text_or (some (c ∷ text)) b = c ∷ text

-- "{m} {h} * * *", or the default when the time does not parse
unfoldable pub daily_cron : Library → Text → Text
unfolding split_colon
daily_cron lib time = elim (split_colon time) [
  | none ↦ default_cron
  | some (h, m) ↦ elim (lib.decimal m) [
    | none ↦ default_cron
    | some minute ↦ elim (lib.decimal h) [
      | none ↦ default_cron
      | some hour ↦ minute ++ (32 ∷ (hour ++ any_day))
    ]
  ]
]

unfoldable pub interval_cron : Library → Option ℕ → Option ℕ → Option Text
interval_cron lib (some (suc zero)) minutes = some every_hour
interval_cron lib (some (suc (suc h))) minutes =
    some (hours_prefix ++ (lib.show (suc (suc h)) ++ hours_suffix))
interval_cron lib hours (some (suc zero)) = some every_minute
interval_cron lib hours (some (suc (suc m))) =
    some (minutes_prefix ++ (lib.show (suc (suc m)) ++ minutes_suffix))
interval_cron lib hours minutes = none

unfoldable pub legacy_to_cron :
    Library → ScheduleType → (time_str : Option Text) → (hours minutes : Option ℕ) → Option Text
unfolding daily_cron interval_cron
legacy_to_cron lib once time_str hours minutes = none
legacy_to_cron lib daily time_str hours minutes =
    some (daily_cron lib (text_or time_str default_time))
legacy_to_cron lib interval time_str hours minutes = interval_cron lib hours minutes
legacy_to_cron lib other time_str hours minutes = none

pub data ScheduleError : Type 0 where
  no_schedule run_at_required : ScheduleError
  invalid_cron : Text → ScheduleError

abbrev is_truthy : Option Text → Bool
is_truthy none = false
is_truthy (some []) = false
is_truthy (some (c ∷ text)) = true

-- The expression and the kind, before they are validated.
unfoldable pub choose_schedule :
    Library
    → ScheduleType
    → (cron time_str : Option Text) → (hours minutes : Option ℕ)
    → ScheduleError ⊎ Option Text × Kind
unfolding legacy_to_cron
choose_schedule lib stype (some (c ∷ expr)) time_str hours minutes =
    inr (some (lib.strip (c ∷ expr)), cron_job)
choose_schedule lib once cron time_str hours minutes = inr (none, once_job)
choose_schedule lib stype cron time_str hours minutes =
    let expr = legacy_to_cron lib stype time_str hours minutes in
    if is_truthy expr then inr (expr, cron_job) else inl no_schedule

abbrev is_once : Kind → Bool
is_once once_job = true
is_once cron_job = false

-- An expression that is empty is not validated.
unfoldable pub resolve_schedule :
    Library
    → ScheduleType
    → (cron time_str : Option Text) → (hours minutes : Option ℕ) → (run_at : Option Text)
    → ScheduleError ⊎ Option Text × Kind × Option Text
unfolding choose_schedule
resolve_schedule lib stype cron time_str hours minutes run_at =
    elim (choose_schedule lib stype cron time_str hours minutes) [
      | inl error ↦ inl error
      | inr (expr, kind) ↦
          let effective_run_at = or_text run_at time_str in
          let text = text_or expr [] in
          if not (is_empty text) && not (lib.is_cron text)
          then inl (invalid_cron text)
          else if is_once kind && not (is_truthy effective_run_at)
          then inl run_at_required
          else inr (expr, kind, effective_run_at)
    ]
