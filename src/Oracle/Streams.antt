-- ===== src/Oracle/Streams.antt =====
-- The verdict on a stream of events, of internal/oracle/state_machine.go.
use agentapi_doctor.Common.{
  ◌≡◌, ◌↔◌, Bool, true, false, List, [], ◌∷◌, ◌++◌, none, some, is_some, arith, Option-cases,
  Bool-cases, inl, inr, sym, ◌∙◌, subst,
}
use agentapi_doctor.StateMachine.{Machine, Event, EventType, Violation, apply, apply_all}
use agentapi_doctor.StateMachine.{new as new_machine}
use agentapi_doctor.StateMachine.{finish as finish_machine}
use agentapi_doctor.StateMachine.Order.{Numbered, EndsWith, apply_all-EndsWith, apply_all-Numbered}
use agentapi_doctor.Oracle.{
  Checks, Input, pass, fail, violated, target_fail, insufficient, preflight, evaluate_state_machine,
}
use agentapi_doctor.Oracle.Relations.{is_sound, sound_goes, unsound-Halts}

-- A violation stays the first one, whatever follows.
violation_stays :
    (m : Machine) (es more : List Event) (v : Violation)
    → (apply_all m es).1 ≡ some v
    → (apply_all m (es ++ more)).1 ≡ some v
unfolding apply_all
violation_stays m [] more v h = absurd (ground (arith, h))
violation_stays m (e ∷ es) more v h = elim (Option-cases (apply m e).1) [
  | inl goes ↦
      rw (goes, apply_all) (violation_stays (apply m e).0 es more v (ground (arith, h, goes)))
  | inr (w, stops) ↦ ground (arith, h, stops)
]

module _ (k : Checks) where
  -- What a verdict rests on.
  module _ (input : Input (List Event)) where
    failed_violated :
        (evaluate_state_machine k input).verdict ≡ fail
        → input.complete ≡ false
        → (v : Violation) × ((apply_all new_machine input.value).1 ≡ some v)
          × (preflight k input ≡ none)
    unfolding evaluate_state_machine insufficient
    failed_violated h partial = elim (Bool-cases (is_sound k input)) [
      | inr unsound ↦ absurd (ground (arith, h, (unsound-Halts k input unsound).3))
      | inl sound ↦ elim (Option-cases (apply_all new_machine input.value).1) [
        | inl quiet ↦ absurd (ground (arith, h, sound_goes k input sound, quiet, partial))
        | inr (v, e) ↦ (v, e, sound_goes k input sound)
      ]
    ]

    passed_accepted :
        (evaluate_state_machine k input).verdict ≡ pass
        → (input.complete ≡ true)
          × ((apply_all new_machine input.value).1 ≡ none)
          × (finish_machine (apply_all new_machine input.value).0 ≡ none)
    unfolding evaluate_state_machine insufficient target_fail
    passed_accepted h = elim (Bool-cases (is_sound k input)) [
      | inr unsound ↦ absurd (ground (arith, h, (unsound-Halts k input unsound).3))
      | inl sound ↦ ground (arith, h, sound_goes k input sound)
    ]

    violated_fails :
        (v : Violation)
        → preflight k input ≡ none
        → (apply_all new_machine input.value).1 ≡ some v
        → evaluate_state_machine k input ≡ target_fail input.evidence_refs (violated v)
    unfolding evaluate_state_machine
    violated_fails v pre e = ground (arith, pre, e)

  -- A failure that is found in a part of a stream is found in the whole stream, with the same outcome,
  -- whatever events follow and whether or not the whole is complete.
  pub failed_part_fails :
      (input : Input (List Event)) (more : List Event) (complete : Bool)
      → (evaluate_state_machine k input).verdict ≡ fail
      → input.complete ≡ false
      → evaluate_state_machine k (record input { value = input.value ++ more; complete = complete })
        ≡ evaluate_state_machine k input
  unfolding preflight
  failed_part_fails input more complete h partial =
      let found = failed_violated input h partial in
      violated_fails (record input { value = input.value ++ more; complete = complete }) found.0
        found.2 (violation_stays new_machine input.value more found.0 found.1)
      ∙ sym (violated_fails input found.0 found.2 found.1)

  -- A stream that passes has complete evidence, its events are numbered without gap from one, and it
  -- ends with its only terminal event.
  pub passed_stream_ends :
      (input : Input (List Event))
      → (evaluate_state_machine k input).verdict ≡ pass
      → (input.complete ≡ true)
        × Numbered 1 input.value
        × ((t : EventType) × EndsWith input.value (some t))
  passed_stream_ends input h =
      let accepted = passed_accepted input h in
      let ending = apply_all-EndsWith input.value accepted.1 in
      (
        accepted.0,
        apply_all-Numbered input.value accepted.1,
        terminal_known (apply_all new_machine input.value).0 accepted.2 ending.0 ending.1,
      )
    where
      terminal_known :
          (m : Machine)
          → finish_machine m ≡ none
          → EndsWith input.value m.terminal
          → (finish_machine m ≡ none) ↔ (is_some m.terminal ≡ true)
          → (t : EventType) × EndsWith input.value (some t)
      terminal_known m done ends iff = elim (Option-cases m.terminal) [
        | inl open_yet ↦ absurd (ground (arith, done, iff, open_yet))
        | inr (t, e) ↦ (t, subst (EndsWith input.value) e ends)
      ]
