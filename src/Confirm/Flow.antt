-- ===== src/Confirm/Flow.antt =====
-- What a request of the confirmation flows can return, and when signals still count.
use smallpieclaw.Prelude.{
  ◌≡◌, refl, Bool, false, Option, none, some, List, [], ◌∷◌, ◌++◌, ◌⊎◌, inl, inr, arith, subst, sym,
}
use smallpieclaw.Confirm.{
  popped, PopOrder, Caller, idle, registered, prompting, waiting, stopped, has_result, has_unlisted,
  returned, clearing, raised, State, Step, Reach, start, later, register, write_default,
  prompt_sent, prompt_raises, clear, stop, pop_result_first, pop_event_last, pop_event_first,
  pop_result_last, signal_get, signal_write, signal_set,
}

abbrev pub Among : {A : Type 0} → A → List A → Type 0
Among a [] = ⊥
Among a (x ∷ xs) = (x ≡ a) ⊎ Among a xs

pub Among-middle :
    {A : Type 0} (before : List A) (a : A) (after : List A) → Among a (before ++ a ∷ after)
Among-middle [] a after = inl refl
Among-middle (x ∷ before) a after = inr (Among-middle before a after)

pub Among-rest :
    {A : Type 0} (before : List A) (a : A) (after : List A) (b : A)
    → Among b (before ++ after)
    → Among b (before ++ a ∷ after)
Among-rest [] a after b m = inr m
Among-rest (x ∷ before) a after b (inl e) = inl e
Among-rest (x ∷ before) a after b (inr m) = inr (Among-rest before a after b m)

module _ {A : Type 0} (order : PopOrder) (default : A) where
  -- A value that the request may return: the default, or one of a signal that found the event.
  abbrev Fair : List A → A → Type 0
  Fair accepted a = (a ≡ default) ⊎ Among a accepted

  abbrev CallerFair : List A → Caller A → Type 0
  CallerFair accepted (has_result a) = Fair accepted a
  CallerFair accepted (returned a) = Fair accepted a
  CallerFair accepted _ = Unit

  -- Behind its pops, a request has no event listed.
  abbrev Unlisted : Caller A → Bool → Type 0
  Unlisted has_unlisted listed = listed ≡ false
  Unlisted (returned a) listed = listed ≡ false
  Unlisted clearing listed = listed ≡ false
  Unlisted raised listed = listed ≡ false
  Unlisted idle listed = listed ≡ false
  Unlisted _ listed = Unit

  record Inv (s : State A) : Type 0 where
    found : (a : A) → Among a s.found → Among a s.accepted
    result : (a : A) → s.entries.result ≡ some a → Fair s.accepted a
    caller : CallerFair s.accepted s.caller
    unlisted : Unlisted s.caller s.entries.listed

  popped-Fair :
      (accepted : List A) (result : Option A)
      → ((a : A) → result ≡ some a → Fair accepted a)
      → Fair accepted (popped default result)
  popped-Fair accepted none h = inl refl
  popped-Fair accepted (some a) h = h a refl

  Fair-more : (accepted : List A) (b a : A) → Fair accepted a → Fair (b ∷ accepted) a
  Fair-more accepted b a (inl e) = inl e
  Fair-more accepted b a (inr m) = inr (inr m)

  CallerFair-more :
      (accepted : List A) (b : A) (caller : Caller A)
      → CallerFair accepted caller
      → CallerFair (b ∷ accepted) caller
  CallerFair-more accepted b (has_result a) f = Fair-more accepted b a f
  CallerFair-more accepted b (returned a) f = Fair-more accepted b a f
  CallerFair-more accepted b idle f = tt
  CallerFair-more accepted b registered f = tt
  CallerFair-more accepted b prompting f = tt
  CallerFair-more accepted b waiting f = tt
  CallerFair-more accepted b stopped f = tt
  CallerFair-more accepted b has_unlisted f = tt
  CallerFair-more accepted b clearing f = tt
  CallerFair-more accepted b raised f = tt

  no_result : (P : A → Type 0) (a : A) → Path (Option A) none (some a) → P a
  no_result P a h = absurd (ground arith)

  step-Inv : (s t : State A) → Step order default s t → Inv s → Inv t
  step-Inv s _ (register h) v = record {
    found = v.found;
    result = v.result;
    caller = tt;
    unlisted = tt;
  }
  step-Inv s _ (write_default h) v = record {
    found = v.found;
    result = λ a e. inl (ground arith);
    caller = tt;
    unlisted = tt;
  }
  step-Inv s _ (prompt_sent h) v = record {
    found = v.found;
    result = v.result;
    caller = tt;
    unlisted = tt;
  }
  step-Inv s _ (prompt_raises h) v = record {
    found = v.found;
    result = v.result;
    caller = tt;
    unlisted = refl;
  }
  step-Inv s _ (clear h) v = record {
    found = v.found;
    result = no_result (Fair s.accepted);
    caller = tt;
    unlisted = subst (λ c. Unlisted c s.entries.listed) h v.unlisted;
  }
  step-Inv s _ (stop h) v = record {
    found = v.found;
    result = v.result;
    caller = tt;
    unlisted = tt;
  }
  step-Inv s _ (pop_result_first h o) v = record {
    found = v.found;
    result = no_result (Fair s.accepted);
    caller = popped-Fair s.accepted s.entries.result v.result;
    unlisted = tt;
  }
  step-Inv s _ (pop_event_last {a} h) v = record {
    found = v.found;
    result = v.result;
    caller = subst (CallerFair s.accepted) h v.caller;
    unlisted = refl;
  }
  step-Inv s _ (pop_event_first h o) v = record {
    found = v.found;
    result = v.result;
    caller = tt;
    unlisted = refl;
  }
  step-Inv s _ (pop_result_last h) v = record {
    found = v.found;
    result = no_result (Fair s.accepted);
    caller = popped-Fair s.accepted s.entries.result v.result;
    unlisted = subst (λ c. Unlisted c s.entries.listed) h v.unlisted;
  }
  step-Inv s _ (signal_get a h) v = record {
    found = λ b m. found_more b m;
    result = λ b e. Fair-more s.accepted a b (v.result b e);
    caller = CallerFair-more s.accepted a s.caller v.caller;
    unlisted = v.unlisted;
  }
    where
      found_more : (b : A) → Among b (a ∷ s.found) → Among b (a ∷ s.accepted)
      found_more b (inl e) = inl e
      found_more b (inr m) = inr (v.found b m)
  step-Inv s _ (signal_write before a after h) v = record {
    found = λ b m. v.found b (rw h (Among-rest before a after b m));
    result = λ b e. inr (written b (ground arith));
    caller = v.caller;
    unlisted = v.unlisted;
  }
    where
      written : (b : A) → a ≡ b → Among b s.accepted
      written b e = rw (sym e) (v.found a (rw h (Among-middle before a after)))
  step-Inv s _ (signal_set n h) v = record {
    found = v.found;
    result = v.result;
    caller = v.caller;
    unlisted = v.unlisted;
  }

  Reach-Inv : (s : State A) → Reach order default s → Inv s
  Reach-Inv _ start = record {
    found = λ a m. m;
    result = no_result (Fair []);
    caller = tt;
    unlisted = refl;
  }
  Reach-Inv t (later {s} r step) = step-Inv s t step (Reach-Inv s r)

  -- In every interleaving, what a request returns is its default or the value of a signal that
  -- found the request listed; and when it has returned, no event is listed any more, so every later
  -- signal is turned away.
  pub Reach-returned :
      (s : State A) (a : A)
      → Reach order default s
      → s.caller ≡ returned a
      → ((a ≡ default) ⊎ Among a s.accepted) × (s.entries.listed ≡ false)
  Reach-returned s a r h =
      let v = Reach-Inv s r in (fair s.accepted s.caller h v.caller, gone s.caller h v.unlisted)
    where
      fair :
          (accepted : List A) (c : Caller A)
          → c ≡ returned a
          → CallerFair accepted c
          → Fair accepted a
      fair accepted c e f = subst (CallerFair accepted) e f

      gone :
          (c : Caller A) → c ≡ returned a → Unlisted c s.entries.listed → s.entries.listed ≡ false
      gone c e u = subst (λ x. Unlisted x s.entries.listed) e u

  -- A request whose prompt could not be sent leaves no event listed behind its exception.
  Reach-raised :
      (s : State A) → Reach order default s → s.caller ≡ raised → s.entries.listed ≡ false
  Reach-raised s r h = subst (λ x. Unlisted x s.entries.listed) h (Reach-Inv s r).unlisted
