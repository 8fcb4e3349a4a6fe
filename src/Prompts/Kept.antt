-- ===== src/Prompts/Kept.antt =====
-- What the operations leave in the log and in the archive.
use smallpieclaw.Dict
use smallpieclaw.Prelude.{
  ℕ, String, ◌==◌, string_eq, ◌≡◌, inl, inr, refl, ap, sym, ◌∙◌, subst, true, false, if◌then◌else◌,
  some, List, arith, Bool-cases, Option-cases,
}
use smallpieclaw.Prompts.{
  PromptRecord, add_line, finish_line, Registry, Disk, is_final, with_agent, replay_line,
  replay_log, archive_snapshot,
}
use smallpieclaw.Prompts.Operations.{started, start, finish, finished, add_sub_agent}
use smallpieclaw.Prompts.Evict.{get-IsKeyed}
use smallpieclaw.Prompts.Replay.{get-Agrees}
use smallpieclaw.Prompts.Logged.{IsSound, replay_log-start, replay_log-change}
use smallpieclaw.Prompts.Archive.{IsArchived, archive_snapshot-IsArchived, archive_snapshot-last}

-- What the log knows has an identifier, and is in the archive once it has ended.
pub record IsKept (g : Registry) : Type 0 where
  pub named :
      (k : String) (r : PromptRecord)
      → Dict.get (replay_log g.log).records k ≡ some r
      → (k == "") ≡ false
  pub kept :
      (k : String) (r : PromptRecord)
      → Dict.get (replay_log g.log).records k ≡ some r
      → is_final r ≡ true
      → IsArchived g.archive k

-- A write of one record to the log's table.
put-IsKept :
    (g after : Registry) (k : String) (changed : PromptRecord)
    → (replay_log after.log).records ≡ Dict.put (replay_log g.log).records k changed
    → (k == "") ≡ false
    → (is_final changed ≡ true → IsArchived after.archive k)
    → ((j : String) → IsArchived g.archive j → IsArchived after.archive j)
    → IsKept g
    → IsKept after
put-IsKept g after k changed replayed named archived keeps old =
    let logged = (replay_log g.log).records in
    record {
      named = λ j r h. elim (Bool-cases (k == j)) [
        | inl same ↦ ground (arith, named, same, string_eq.beq_iff k j)
        | inr other ↦ old.named j r (
            ground
              (arith, other, ap (λ d. Dict.get d j) replayed, h, Dict.get-put logged k j changed))
      ];
      kept = λ j r h final. elim (Bool-cases (k == j)) [
        | inl same ↦
            let is_changed : changed ≡ r =
              ground (
                arith,
                same,
                ap (λ d. Dict.get d j) replayed,
                h,
                Dict.get-put logged k j changed,
              ) in
            subst (λ i. IsArchived after.archive i) ((string_eq.beq_iff k j).0 same)
              (archived (ap is_final is_changed ∙ final))
        | inr other ↦ keeps j (
            old.kept j r
              (ground
                (arith, other, ap (λ d. Dict.get d j) replayed, h, Dict.get-put logged k j changed))
              final)
      ];
    }

pub start-IsKept :
    (disk : Disk) (k t : String) (text : List ℕ) (now : ℕ) (g : Registry)
    → disk.log_ok ≡ true
    → (k == "") ≡ false
    → IsKept g
    → IsKept (start disk k t text now g).0
unfolding start
start-IsKept disk k t text now g ok named old =
    let r = started k t text now in
    put-IsKept g (start disk k t text now g).0 k r
      (rw (ok, start) (replay_log-start g.log k t r.text now)) named
      (λ final. absurd (ground (arith, final))) (λ j archived. rw (ok, start) archived) old

pub finish-IsKept :
    (disk : Disk) (k status : String) (now : ℕ) (g : Registry)
    → disk.log_ok ≡ true
    → disk.archive_ok ≡ true
    → IsSound g
    → IsKept g
    → IsKept (finish disk k status now g).0
unfolding finish replay_line
finish-IsKept disk k status now g ok kept_ok sound old =
    elim (Option-cases (Dict.get g.memory.records k)) [
      | inl unknown ↦ rw (unknown, finish) old
      | inr (r, found) ↦
          let ended = finished r status now in
          let at = get-IsKeyed g.memory.records k r sound.table.0 found in
          let named =
            old.named k r
              (get-Agrees g.memory.records (replay_log g.log).records k r sound.agrees found) in
          put-IsKept g (finish disk k status now g).0 k ended
            (rw (found, ok, finish)
              (replay_log-change g k r ended
                (finish_line k (some now) (some status) (some r.sub_agent_ids))
                (λ x. record x {
                  ended_at = some now;
                  status = status;
                  sub_agent_ids = r.sub_agent_ids;
                })
                found refl refl sound))
            named
            (λ final.
              rw (found, ok, kept_ok, finish)
                (subst (λ i. IsArchived (archive_snapshot ended g.archive) i) at
                  (archive_snapshot-last g.archive ended
                    (subst (λ i. (i == "") ≡ false) (sym at) named))))
            (λ j archived.
              rw (found, ok, kept_ok, finish)
                (archive_snapshot-IsArchived g.archive ended j archived))
            old
    ]

with_agent-final : (agent : String) (r : PromptRecord) → is_final (with_agent agent r) ≡ is_final r
unfolding with_agent
with_agent-final agent r = ground arith

pub add_sub_agent-IsKept :
    (disk : Disk) (k agent : String) (g : Registry)
    → disk.log_ok ≡ true
    → (agent == "") ≡ false
    → IsSound g
    → IsKept g
    → IsKept (add_sub_agent disk k agent g).0
unfolding add_sub_agent replay_line
add_sub_agent-IsKept disk k agent g ok told sound old =
    elim (Option-cases (Dict.get g.memory.records k)) [
      | inl unknown ↦ rw (unknown, add_sub_agent) old
      | inr (r, found) ↦
          let logged =
            get-Agrees g.memory.records (replay_log g.log).records k r sound.agrees found in
          put-IsKept g (add_sub_agent disk k agent g).0 k (with_agent agent r)
            (rw (found, ok, add_sub_agent)
              (replay_log-change g k r (with_agent agent r) (add_line k agent)
                (λ x. if agent == "" then x else with_agent agent x) found refl (rw (told) refl)
                sound))
            (old.named k r logged)
            (λ final.
              rw (found, ok, add_sub_agent)
                (old.kept k r logged (sym (with_agent-final agent r) ∙ final)))
            (λ j archived. rw (found, ok, add_sub_agent) archived) old
    ]
