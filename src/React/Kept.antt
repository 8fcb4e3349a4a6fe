-- ===== src/React/Kept.antt =====
-- What a compaction and a turn leave of the goal.
use smallpieclaw.Prelude.Int.{pos, pos_part}
use smallpieclaw.Prelude.{
  ℕ, suc, ◌≤◌, string_eq, ◌≡◌, inl, inr, refl, ap, sym, ◌∙◌, subst, not, ◌&&◌, ◌||◌, some, List, [],
  ◌∷◌, arith, get_elem?, get_elem?-append, get_elem?-map, Bool-cases, all, ltb,
}
use smallpieclaw.Compaction.{Text, Message, cap_string_message}
use smallpieclaw.Compaction.Compact.Result.{maybe_compact-goal}
use smallpieclaw.React.State.{
  max_empty_retries, user, Setting, LoopState, NativeReply, not_attempted, native_empty,
  native_call, native_text, permanent_error, retry, cancel, timeout, JsonReply, llm_cancelled,
  llm_error, json_text, StepWorld, StepEnd,
}
use smallpieclaw.React.Turns.{linearize_message, linearize, Turn, json_turn, answer_turn}
use smallpieclaw.React.Step.{take_turn, store_compacted, compact_context}
use smallpieclaw.React.Appends.{Extends, take_turn-Extends}

-- The goal, or the goal cut to caps between 400 and 6000 characters, once or several times.
pub data IsCut (set : Setting) (goal : Message) : Message → Type 0 where
  whole : IsCut set goal goal
  cut :
      (limit : ℕ) {m : Message}
      → 400 ≤ limit
      → limit ≤ 6000
      → IsCut set goal m
      → IsCut set goal (cap_string_message set.services.marker m limit)

-- The index of the state is that of the goal.
abbrev pub Holds : Setting → Message → LoopState → Type 0
Holds set goal st =
    (i : ℕ) × (m : Message) × (st.goal_idx ≡ pos i)
    × (get_elem? st.messages i ≡ some m)
    × IsCut set goal m

IsCut-role : (set : Setting) (text : Text) (m : Message) → IsCut set (user text) m → m.role ≡ "user"
unfolding cap_string_message
IsCut-role set text m whole = refl
IsCut-role set text t (cut limit {m} low high c) = IsCut-role set text m c

linearize_message-user :
    (set : Setting) (m : Message) → m.role ≡ "user" → linearize_message set m ≡ m
unfolding linearize_message
linearize_message-user set m h = rw (h) refl

linearize-Holds :
    (set : Setting) (text : Text) (st : LoopState)
    → Holds set (user text) st
    → Holds set (user text) (record st { messages = linearize set st.messages })
unfolding linearize
linearize-Holds set text st (i, m, index, at, c) = (
  i,
  m,
  index,
  get_elem?-map (linearize_message set) i st.messages at
      ∙ ap some (linearize_message-user set m (IsCut-role set text m c)),
  c,
)

pub Extends-Holds :
    (set : Setting) (goal : Message) (st after : LoopState)
    → Extends st after
    → Holds set goal st
    → Holds set goal after
Extends-Holds set goal st after (same, more, longer) (i, m, index, at, c) = (
  i,
  m,
  same ∙ index,
  ap (λ ms. get_elem? ms i) longer ∙ get_elem?-append i st.messages more at,
  c,
)

pub compact-Holds :
    (set : Setting) (goal : Message) (st after : LoopState)
    → compact_context set st ≡ some after
    → Holds set goal st
    → Holds set goal after
unfolding compact_context store_compacted
compact-Holds set goal st after h (i, m, index, at, c) =
    let there : get_elem? st.messages (pos_part st.goal_idx) ≡ some m =
      ap (λ j. get_elem? st.messages (pos_part j)) index ∙ at in
    let (result, idx, runs, found) =
      maybe_compact-goal set.services set.cfg st.messages set.ctx_max_tokens (pos_part st.goal_idx)
        set.tool_defs_tokens m there in
    let stored : some (record st { messages = result; goal_idx = idx }) ≡ some after =
      sym (ap (store_compacted st) runs) ∙ h in
    let same : record st { messages = result; goal_idx = idx } ≡ after = ground (arith, stored) in
    let (j, at_j, kept) = found in
    subst (λ s. Holds set goal s) same
      (elim kept [
        | inl unchanged ↦ (j, m, at_j, unchanged, c)
        | inr (limit, low, high, shortened) ↦ (
          j,
          cap_string_message set.services.marker m limit,
          at_j,
          shortened,
          cut limit low high c,
        )
      ])

json_turn-Holds :
    (set : Setting) (text : Text) (empty_retries : ℕ) (replies : List JsonReply)
    (st after : LoopState) (turn : Turn)
    → json_turn set empty_retries replies st ≡ some (turn, after)
    → Holds set (user text) st
    → Holds set (user text) after
unfolding json_turn
json_turn-Holds set text n [] st after turn h held = absurd (ground (arith, h))
json_turn-Holds set text n (llm_cancelled ∷ replies) st after turn h held =
    let same : st ≡ after = ground (arith, h) in subst (λ s. Holds set (user text) s) same held
json_turn-Holds set text n (llm_error message retry ∷ replies) st after turn h held =
    json_turn-Holds set text n replies
      (record st { has_checkpoint = st.has_checkpoint || set.checkpoint_enabled }) after turn h held
json_turn-Holds set text n (llm_error message cancel ∷ replies) st after turn h held =
    let same : record st { has_checkpoint = st.has_checkpoint && not set.checkpoint_enabled }
        ≡ after =
      ground (arith, h) in
    subst (λ s. Holds set (user text) s) same held
json_turn-Holds set text n (llm_error message timeout ∷ replies) st after turn h held =
    let same : record st { has_checkpoint = st.has_checkpoint || set.checkpoint_enabled } ≡ after =
      ground (arith, h) in
    subst (λ s. Holds set (user text) s) same held
json_turn-Holds set text n (json_text raw ∷ replies) st after turn h held =
    elim (Bool-cases (all set.services.is_space raw && ltb n max_empty_retries)) [
      | inl again ↦
          json_turn-Holds set text (suc n) replies st after turn (ground (arith, h, again)) held
      | inr over ↦
          let same : record st { messages = linearize set st.messages } ≡ after =
            ground (arith, h, over) in
          subst (λ s. Holds set (user text) s) same (linearize-Holds set text st held)
    ]

pub answer_turn-Holds :
    (set : Setting) (text : Text) (native : NativeReply) (json : List JsonReply)
    (st after : LoopState) (turn : Turn)
    → answer_turn set native json st ≡ some (turn, after)
    → Holds set (user text) st
    → Holds set (user text) after
unfolding answer_turn
answer_turn-Holds set text not_attempted json st after turn h held =
    json_turn-Holds set text 0 json st after turn h held
answer_turn-Holds set text native_empty json st after turn h held =
    let same : st ≡ after = ground (arith, h) in subst (λ s. Holds set (user text) s) same held
answer_turn-Holds set text (native_call call) json st after turn h held =
    let same : st ≡ after = ground (arith, h) in subst (λ s. Holds set (user text) s) same held
answer_turn-Holds set text (native_text []) json st after turn h held =
    let same : st ≡ after = ground (arith, h) in subst (λ s. Holds set (user text) s) same held
answer_turn-Holds set text (native_text (c ∷ raw)) json st after turn h held =
    let same : st ≡ after = ground (arith, h) in subst (λ s. Holds set (user text) s) same held
answer_turn-Holds set text permanent_error json st after turn h held =
    let same : st ≡ after = ground (arith, h) in subst (λ s. Holds set (user text) s) same held

pub take_turn-Holds :
    (set : Setting) (w : StepWorld) (goal : Message) (turn : Turn) (st : LoopState)
    (after : StepEnd × LoopState)
    → some (take_turn set w turn st) ≡ some after
    → Holds set goal st
    → Holds set goal after.1
take_turn-Holds set w goal turn st after h held =
    let same : take_turn set w turn st ≡ after = ground (arith, h) in
    subst (λ end. Holds set goal end.1) same
      (Extends-Holds set goal st (take_turn set w turn st).1 (take_turn-Extends set w turn st) held)
