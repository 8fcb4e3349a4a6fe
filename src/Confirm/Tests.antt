-- ===== src/Confirm/Tests.antt =====
-- Runs of the confirmation flows.
use smallpieclaw.Prelude.{ℕ, ◌≤◌, ◌≡◌, refl, length, Bool, true, false, none, some, [], ◌∷◌, ◌⊎◌}
use smallpieclaw.Confirm.{
  State, returned, stopped, raised, result_first, event_first, Reach, start, later, register,
  write_default, prompt_sent, prompt_raises, clear, stop, pop_result_first, pop_event_last,
  pop_event_first, pop_result_last, signal_get, signal_write, signal_set, HeadlessReach,
  headless_start, headless_later, register_headless, write_denied, prompted, wake, pop_answer,
  time_out, expire_event, expire_result, signal_pop, signal_headless_write, signal_headless_set,
}
use smallpieclaw.Confirm.Flow.{Among, Reach-returned}
use smallpieclaw.Confirm.Headless.{IsAnswered, HeadlessReach-returned}

-- request_confirmation, approved in time.
abbrev approved : State Bool
approved = record {
  entries = record { listed = false; is_set = true; result = none };
  caller = returned true;
  found = [];
  wrote = 0;
  accepted = true ∷ [];
}

approved_run : Reach result_first false approved
approved_run =
    later
      (later
        (later
          (later
            (later
              (later
                (later (later (later start (register refl)) (write_default refl))
                  (prompt_sent refl))
                (signal_get true refl))
              (signal_write [] true [] refl))
            (signal_set 0 refl))
          (stop refl))
        (pop_result_first refl refl))
      (pop_event_last refl)

-- request_retry: the signal found the event, but its write comes behind the timeout. The value is
-- left in the table.
abbrev leaked : State ℕ
leaked = record {
  entries = record { listed = false; is_set = false; result = some 7 };
  caller = returned 0;
  found = [];
  wrote = 1;
  accepted = 7 ∷ [];
}

leaked_run : Reach event_first 0 leaked
leaked_run =
    later
      (later
        (later
          (later
            (later
              (later (later (later start (register refl)) (write_default refl)) (prompt_sent refl))
              (signal_get 7 refl))
            (stop refl))
          (pop_event_first refl refl))
        (pop_result_last refl))
      (signal_write [] 7 [] refl)

abbrev refused : State Bool
refused = record {
  entries = record { listed = false; is_set = false; result = none };
  caller = raised;
  found = [];
  wrote = 0;
  accepted = [];
}

refused_run : Reach result_first false refused
refused_run =
    later (later (later (later start (register refl)) (write_default refl)) (prompt_raises refl))
      (clear refl)

Reach-returned_example :
    ((true ≡ false) ⊎ Among true approved.accepted) × (approved.entries.listed ≡ false)
Reach-returned_example = Reach-returned result_first false approved true approved_run refl

abbrev woken : State Bool
woken = record {
  entries = record { listed = false; is_set = true; result = some true };
  caller = stopped;
  found = [];
  wrote = 0;
  accepted = true ∷ [];
}

woken_run : HeadlessReach woken
woken_run =
    headless_later
      (headless_later
        (headless_later
          (headless_later
            (headless_later
              (headless_later (headless_later headless_start (register_headless refl))
                (write_denied refl))
              (prompted refl))
            (signal_pop true refl))
          (signal_headless_write [] true [] refl))
        (signal_headless_set 0 refl))
      (wake refl refl)

HeadlessReach-returned_example :
    (length approved.accepted ≤ 1) × IsAnswered approved (returned true)
HeadlessReach-returned_example =
    HeadlessReach-returned approved (headless_later woken_run (pop_answer refl))

-- The signal is accepted while the request times out: the operator is told that the approval was
-- taken, the request returns false, and the approval is left in the table.
abbrev lost : State Bool
lost = record {
  entries = record { listed = false; is_set = true; result = some true };
  caller = returned false;
  found = [];
  wrote = 0;
  accepted = true ∷ [];
}

lost_run : HeadlessReach lost
lost_run =
    headless_later
      (headless_later
        (headless_later
          (headless_later
            (headless_later
              (headless_later
                (headless_later
                  (headless_later (headless_later headless_start (register_headless refl))
                    (write_denied refl))
                  (prompted refl))
                (signal_pop true refl))
              (time_out refl refl))
            (expire_event refl))
          (expire_result refl))
        (signal_headless_write [] true [] refl))
      (signal_headless_set 0 refl)
