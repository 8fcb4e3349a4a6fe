-- ===== src/Confirm/Headless.antt =====
-- The confirmation of a sub-agent's tool: at most one signal is accepted, and an approval is only
-- ever the operator's.
use smallpieclaw.Prelude.{
  ℕ, ◌≤◌, ◌≡◌, refl, Bool, true, false, Option, none, some, List, [], ◌∷◌, ◌++◌, inl, inr, arith,
  subst, sym, ◌∙◌, length, Bool-cases,
}
use smallpieclaw.Confirm.{
  popped, Caller, idle, registered, prompting, waiting, stopped, has_result, has_unlisted, returned,
  clearing, raised, State, HeadlessStep, HeadlessReach, register_headless, write_denied, prompted,
  prompt_fails, clear_failed, wake, pop_answer, time_out, expire_event, expire_result, signal_pop,
  signal_headless_write, signal_headless_set, headless_start, headless_later,
}
use smallpieclaw.Confirm.Flow.{Among, Among-middle, Among-rest}

-- No signal has been accepted yet.
record Quiet (accepted found : List Bool) (wrote : ℕ) (is_set : Bool) : Type 0 where
  none_accepted : accepted ≡ []
  none_found : found ≡ []
  none_wrote : wrote ≡ 0
  not_set : is_set ≡ false

abbrev IsQuiet : State Bool → Type 0
IsQuiet s = Quiet s.accepted s.found s.wrote s.entries.is_set

-- What holds of the caller's place: a return of true had one signal, with true.
abbrev Approved : List Bool → Caller Bool → Type 0
Approved accepted (returned true) = accepted ≡ true ∷ []
Approved accepted (has_result true) = ⊥
Approved accepted _ = Unit

abbrev Closed : State Bool → Caller Bool → Type 0
Closed s idle = IsQuiet s × (s.entries.listed ≡ false)
Closed s stopped = s.entries.is_set ≡ true
Closed s has_unlisted = s.entries.listed ≡ false
Closed s (returned a) = s.entries.listed ≡ false
Closed s clearing = s.entries.listed ≡ false
Closed s raised = s.entries.listed ≡ false
Closed s _ = Unit

record Inv (s : State Bool) : Type 0 where
  few : length s.accepted ≤ 1
  quiet : s.entries.listed ≡ true → IsQuiet s
  found : (a : Bool) → Among a s.found → s.accepted ≡ a ∷ []
  result : s.entries.result ≡ some true → s.accepted ≡ true ∷ []
  caller : Approved s.accepted s.caller
  closed : Closed s s.caller

popped-Approved :
    (accepted : List Bool) (result : Option Bool)
    → (result ≡ some true → accepted ≡ true ∷ [])
    → Approved accepted (returned (popped false result))
popped-Approved accepted none h = tt
popped-Approved accepted (some true) h = h refl
popped-Approved accepted (some false) h = tt

set→closed : (s : State Bool) → Inv s → s.entries.is_set ≡ true → s.entries.listed ≡ false
set→closed s v h = elim (Bool-cases s.entries.listed) [
  | inl listed ↦ absurd (ground (arith, (v.quiet listed).not_set))
  | inr closed ↦ closed
]

-- A signal's step, where the request has started.
Closed-signal :
    (s t : State Bool) (c : Caller Bool)
    → (s.entries.listed ≡ false → t.entries.listed ≡ false)
    → (s.entries.is_set ≡ true → t.entries.is_set ≡ true)
    → (IsQuiet s → s.entries.listed ≡ false → ⊥)
    → Closed s c
    → Closed t c
Closed-signal s t idle f g started (q, l) = absurd (started q l)
Closed-signal s t stopped f g started h = g h
Closed-signal s t has_unlisted f g started h = f h
Closed-signal s t (returned a) f g started h = f h
Closed-signal s t clearing f g started h = f h
Closed-signal s t raised f g started h = f h
Closed-signal s t registered f g started h = tt
Closed-signal s t prompting f g started h = tt
Closed-signal s t waiting f g started h = tt
Closed-signal s t (has_result a) f g started h = tt

Approved-more :
    (accepted : List Bool) (a : Bool) (c : Caller Bool)
    → accepted ≡ []
    → Approved accepted c
    → Approved (a ∷ accepted) c
Approved-more accepted a (returned true) e h = absurd (ground (arith, e, h))
Approved-more accepted a (returned false) e h = tt
Approved-more accepted a (has_result true) e h = h
Approved-more accepted a (has_result false) e h = tt
Approved-more accepted a idle e h = tt
Approved-more accepted a stopped e h = tt
Approved-more accepted a has_unlisted e h = tt
Approved-more accepted a clearing e h = tt
Approved-more accepted a raised e h = tt
Approved-more accepted a registered e h = tt
Approved-more accepted a prompting e h = tt
Approved-more accepted a waiting e h = tt

no_middle : (before : List Bool) (a : Bool) (after : List Bool) → before ++ a ∷ after ≡ [] → ⊥
no_middle [] a after e = absurd (ground arith)
no_middle (x ∷ before) a after e = absurd (ground arith)

-- A signal that found the event: the request is no longer quiet.
not_quiet :
    (s : State Bool) (before : List Bool) (a : Bool) (after : List Bool)
    → s.found ≡ before ++ a ∷ after
    → IsQuiet s
    → ⊥
not_quiet s before a after h q = no_middle before a after (sym h ∙ q.none_found)

step-Inv : (s t : State Bool) → HeadlessStep s t → Inv s → Inv t
step-Inv s _ (register_headless h) v =
    let (q, _) = subst (Closed s) h v.closed in
    record {
      few = v.few;
      quiet = λ _. record {
        none_accepted = q.none_accepted;
        none_found = q.none_found;
        none_wrote = q.none_wrote;
        not_set = refl;
      };
      found = v.found;
      result = v.result;
      caller = tt;
      closed = tt;
    }
step-Inv s _ (write_denied h) v = record {
  few = v.few;
  quiet = v.quiet;
  found = v.found;
  result = λ e. absurd (ground arith);
  caller = tt;
  closed = tt;
}
step-Inv s _ (prompted h) v = record {
  few = v.few;
  quiet = v.quiet;
  found = v.found;
  result = v.result;
  caller = tt;
  closed = tt;
}
step-Inv s _ (prompt_fails h) v = record {
  few = v.few;
  quiet = λ e. absurd (ground arith);
  found = v.found;
  result = v.result;
  caller = tt;
  closed = refl;
}
step-Inv s _ (clear_failed h) v = record {
  few = v.few;
  quiet = v.quiet;
  found = v.found;
  result = λ e. absurd (ground arith);
  caller = tt;
  closed = subst (Closed s) h v.closed;
}
step-Inv s _ (wake h e) v = record {
  few = v.few;
  quiet = v.quiet;
  found = v.found;
  result = v.result;
  caller = tt;
  closed = e;
}
step-Inv s _ (pop_answer h) v = record {
  few = v.few;
  quiet = v.quiet;
  found = v.found;
  result = λ e. absurd (ground arith);
  caller = popped-Approved s.accepted s.entries.result v.result;
  closed = set→closed s v (subst (Closed s) h v.closed);
}
step-Inv s _ (time_out h e) v = record {
  few = v.few;
  quiet = v.quiet;
  found = v.found;
  result = v.result;
  caller = tt;
  closed = tt;
}
step-Inv s _ (expire_event h) v = record {
  few = v.few;
  quiet = λ e. absurd (ground arith);
  found = v.found;
  result = v.result;
  caller = tt;
  closed = refl;
}
step-Inv s _ (expire_result h) v = record {
  few = v.few;
  quiet = v.quiet;
  found = v.found;
  result = λ e. absurd (ground arith);
  caller = tt;
  closed = subst (Closed s) h v.closed;
}
step-Inv s t (signal_pop a h) v = record {
  few = ground (arith, (v.quiet h).none_accepted);
  quiet = λ e. absurd (ground arith);
  found = λ b m. first b m;
  result = λ e. absurd (ground (arith, v.result e, (v.quiet h).none_accepted));
  caller = Approved-more s.accepted a s.caller (v.quiet h).none_accepted v.caller;
  closed = Closed-signal s t s.caller (λ _. refl) (λ e. e) (λ q l. ground arith) v.closed;
}
  where
    first : (b : Bool) → Among b (a ∷ s.found) → a ∷ s.accepted ≡ b ∷ []
    first b (inl e) = ground (arith, e, (v.quiet h).none_accepted)
    first b (inr m) = absurd (subst (Among b) (v.quiet h).none_found m)
step-Inv s t (signal_headless_write before a after h) v = record {
  few = v.few;
  quiet = λ l. absurd (not_quiet s before a after h (v.quiet l));
  found = λ b m. v.found b (subst (Among b) (sym h) (Among-rest before a after b m));
  result = λ e. ground (arith, v.found a (subst (Among a) (sym h) (Among-middle before a after)));
  caller = v.caller;
  closed =
      Closed-signal s t s.caller (λ e. e) (λ e. e) (λ q l. not_quiet s before a after h q) v.closed;
}
step-Inv s t (signal_headless_set n h) v = record {
  few = v.few;
  quiet = λ l. absurd (ground (arith, (v.quiet l).none_wrote));
  found = v.found;
  result = v.result;
  caller = v.caller;
  closed =
      Closed-signal s t s.caller (λ e. e) (λ _. refl) (λ q l. ground (arith, q.none_wrote))
        v.closed;
}

Reach-Inv : (s : State Bool) → HeadlessReach s → Inv s
Reach-Inv _ headless_start = record {
  few = omega arith;
  quiet = λ e. absurd (ground arith);
  found = λ a m. absurd m;
  result = λ e. absurd (ground arith);
  caller = tt;
  closed =
      (record { none_accepted = refl; none_found = refl; none_wrote = refl; not_set = refl }, refl);
}
Reach-Inv t (headless_later {s} r step) = step-Inv s t step (Reach-Inv s r)

-- What holds where a request ends: no event is listed, and true is returned only for one accepted
-- signal, an approval.
abbrev pub IsAnswered : State Bool → Caller Bool → Type 0
IsAnswered s (returned true) = (s.entries.listed ≡ false) × (s.accepted ≡ true ∷ [])
IsAnswered s (returned false) = s.entries.listed ≡ false
IsAnswered s raised = s.entries.listed ≡ false
IsAnswered s _ = Unit

Inv-IsAnswered :
    (s : State Bool) (c : Caller Bool) → Approved s.accepted c → Closed s c → IsAnswered s c
Inv-IsAnswered s idle approved closed = tt
Inv-IsAnswered s registered approved closed = tt
Inv-IsAnswered s prompting approved closed = tt
Inv-IsAnswered s waiting approved closed = tt
Inv-IsAnswered s stopped approved closed = tt
Inv-IsAnswered s (has_result a) approved closed = tt
Inv-IsAnswered s has_unlisted approved closed = tt
Inv-IsAnswered s (returned true) approved closed = (closed, approved)
Inv-IsAnswered s (returned false) approved closed = closed
Inv-IsAnswered s clearing approved closed = tt
Inv-IsAnswered s raised approved closed = closed

-- In every interleaving of a headless request with its signals and its timeout, at every point, at
-- most one signal has been accepted. Where the request has returned or its prompt has raised, no
-- event is listed; and where it has returned true, exactly one signal was accepted, an approval.
pub HeadlessReach-returned :
    (s : State Bool) → HeadlessReach s → (length s.accepted ≤ 1) × IsAnswered s s.caller
HeadlessReach-returned s r =
    let v = Reach-Inv s r in (v.few, Inv-IsAnswered s s.caller v.caller v.closed)

-- A headless request whose wait was ended by the event has no event listed when it goes on to pop
-- its answer, though it does not pop the event itself: the signal did.
HeadlessReach-woken :
    (s : State Bool) → HeadlessReach s → s.caller ≡ stopped → s.entries.listed ≡ false
HeadlessReach-woken s r h = let v = Reach-Inv s r in set→closed s v (subst (Closed s) h v.closed)
