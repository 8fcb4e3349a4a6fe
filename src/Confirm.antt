-- ===== src/Confirm.antt =====
-- confirmation.py: the confirmation flows of `ConfirmationManager`, each as a step relation over the
-- entries of one token. A step is one operation on a dictionary or an event, which is what is atomic
-- there; the thread of a request and the threads of its signals interleave in any order.
pub mod Flow
pub mod Headless
mod Tests
use smallpieclaw.Prelude.{
  ℕ, suc, ◌≡◌, Bool, true, false, Option, none, some, List, [], ◌∷◌, ◌++◌, ◌⊎◌,
}

-- The tokens of two requests differ, so the entries of one token are all that a request sees.
pub record Entries (A : Type 0) : Type 0 where
  -- the token has an event in `_..._events`, and that event is set
  pub listed : Bool
  pub is_set : Bool
  -- the token's value in `_..._results`
  pub result : Option A

-- results.pop(token, default)
abbrev pub popped : {A : Type 0} → A → Option A → A
popped default none = default
popped default (some a) = a

-- Which entry the end of a request pops first: the result in `request_confirmation`, the event in
-- `request_extension` and `request_retry`.
pub data PopOrder : Type 0 where
  result_first event_first : PopOrder

-- Where the thread of the request stands.
pub data Caller (A : Type 0) : Type 0 where
  idle : Caller A
  -- behind the write of the event, and behind that of the default
  registered prompting : Caller A
  waiting stopped : Caller A
  -- between the two pops
  has_result : A → Caller A
  has_unlisted : Caller A
  returned : A → Caller A
  -- the progress callback raised: between the two pops, and behind them
  clearing raised : Caller A

pub record State (A : Type 0) : Type 0 where
  pub entries : Entries A
  pub caller : Caller A
  -- signals that found the event and have not yet written; those that wrote and have not yet set it
  pub found : List A
  pub wrote : ℕ
  -- the values of all signals that found the event
  pub accepted : List A

abbrev pub initial : {A : Type 0} → State A
initial = record {
  entries = record { listed = false; is_set = false; result = none };
  caller = idle;
  found = [];
  wrote = 0;
  accepted = [];
}

-- `request_confirmation`, `request_extension`, `request_retry` with the `signal_...` of each.
module _ {A : Type 0} (order : PopOrder) (default : A) where
  pub data Step (s : State A) : State A → Type 0 where
    register :
        s.caller ≡ idle
        → Step s (record s {
          entries = record s.entries { listed = true; is_set = false };
          caller = registered;
        })
    write_default :
        s.caller ≡ registered
        → Step s
            (record s { entries = record s.entries { result = some default }; caller = prompting })
    prompt_sent : s.caller ≡ prompting → Step s (record s { caller = waiting })
    prompt_raises :
        s.caller ≡ prompting
        → Step s (record s { entries = record s.entries { listed = false }; caller = clearing })
    clear :
        s.caller ≡ clearing
        → Step s (record s { entries = record s.entries { result = none }; caller = raised })
    -- the wait ends, by the event or by its timeout: the code does not ask which
    stop : s.caller ≡ waiting → Step s (record s { caller = stopped })
    pop_result_first :
        s.caller ≡ stopped
        → order ≡ result_first
        → Step s (record s {
          entries = record s.entries { result = none };
          caller = has_result (popped default s.entries.result);
        })
    pop_event_last :
        {a : A}
        → s.caller ≡ has_result a
        → Step s (record s { entries = record s.entries { listed = false }; caller = returned a })
    pop_event_first :
        s.caller ≡ stopped
        → order ≡ event_first
        → Step s (record s { entries = record s.entries { listed = false }; caller = has_unlisted })
    pop_result_last :
        s.caller ≡ has_unlisted
        → Step s (record s {
          entries = record s.entries { result = none };
          caller = returned (popped default s.entries.result);
        })
    -- a signal gets the event; where it is not listed, the signal only logs
    signal_get :
        (a : A)
        → s.entries.listed ≡ true
        → Step s (record s { found = a ∷ s.found; accepted = a ∷ s.accepted })
    signal_write :
        (before : List A) (a : A) (after : List A)
        → s.found ≡ before ++ a ∷ after
        → Step s (record s {
          entries = record s.entries { result = some a };
          found = before ++ after;
          wrote = suc s.wrote;
        })
    signal_set :
        (n : ℕ)
        → s.wrote ≡ suc n
        → Step s (record s { entries = record s.entries { is_set = true }; wrote = n })

  pub data Reach : State A → Type 0 where
    start : Reach initial
    later : {s t : State A} → Reach s → Step s t → Reach t

-- `request_headless_confirmation` and `signal_headless_confirmation`, which pops the event.
pub data HeadlessStep (s : State Bool) : State Bool → Type 0 where
  register_headless :
      s.caller ≡ idle
      → HeadlessStep s (record s {
        entries = record s.entries { listed = true; is_set = false };
        caller = registered;
      })
  write_denied :
      s.caller ≡ registered
      → HeadlessStep s
          (record s { entries = record s.entries { result = some false }; caller = prompting })
  prompted : s.caller ≡ prompting → HeadlessStep s (record s { caller = waiting })
  prompt_fails :
      s.caller ≡ prompting
      → HeadlessStep s
          (record s { entries = record s.entries { listed = false }; caller = clearing })
  clear_failed :
      s.caller ≡ clearing
      → HeadlessStep s (record s { entries = record s.entries { result = none }; caller = raised })
  -- `wait` returns true: the event is set
  wake :
      s.caller ≡ waiting → s.entries.is_set ≡ true → HeadlessStep s (record s { caller = stopped })
  pop_answer :
      s.caller ≡ stopped
      → HeadlessStep s (record s {
        entries = record s.entries { result = none };
        caller = returned (popped false s.entries.result);
      })
  -- `wait` returns false: the event is not set
  time_out :
      s.caller ≡ waiting
      → s.entries.is_set ≡ false
      → HeadlessStep s (record s { caller = has_result false })
  expire_event :
      s.caller ≡ has_result false
      → HeadlessStep s
          (record s { entries = record s.entries { listed = false }; caller = has_unlisted })
  expire_result :
      s.caller ≡ has_unlisted
      → HeadlessStep s
          (record s { entries = record s.entries { result = none }; caller = returned false })
  signal_pop :
      (a : Bool)
      → s.entries.listed ≡ true
      → HeadlessStep s (record s {
        entries = record s.entries { listed = false };
        found = a ∷ s.found;
        accepted = a ∷ s.accepted;
      })
  signal_headless_write :
      (before : List Bool) (a : Bool) (after : List Bool)
      → s.found ≡ before ++ a ∷ after
      → HeadlessStep s (record s {
        entries = record s.entries { result = some a };
        found = before ++ after;
        wrote = suc s.wrote;
      })
  signal_headless_set :
      (n : ℕ)
      → s.wrote ≡ suc n
      → HeadlessStep s (record s { entries = record s.entries { is_set = true }; wrote = n })

pub data HeadlessReach : State Bool → Type 0 where
  headless_start : HeadlessReach initial
  headless_later : {s t : State Bool} → HeadlessReach s → HeadlessStep s t → HeadlessReach t
