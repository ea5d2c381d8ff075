-- ===== src/Core/Event/Effect/Settling.antt =====
-- The handlers of src/main.rs for write access, power, motion and errors follow their rules.
use puddle.Base.{ℕ, ◌≡◌, ◌∙◌, Bool, true, false, none, some, inl, inr, Bool-cases}
use puddle.Base.Exec.{◌>>◌}
use puddle.Messages.{
  errored, MotionAction, ControllerId, ClientMessage, request_write_access, release_write_access,
  set_drive_power, set_motion_state, acknowledge_error, write_access_result, write_access_changed,
  ack, invalid_state,
}
use puddle.Core.Manager.{HidUi, Core, CoreManager, Act, set_holder, is_holder, send}
use puddle.Core.Manager.Keeps.{
  Keeps-seq, send-Keeps, update_core-two, update_core-then, is_holder_lem, is_holder_self,
}
use puddle.Core.Access.{is_off, is_hid, can_take_write_access, for_holder, announce}
use puddle.Core.Access
use puddle.Core.Power
use puddle.Core.Event.Effect.{IsHolder}
use puddle.Core.Event.Effect.Handlers.{announce-Keeps, succeed-then}
use puddle.Core.Event.Effect.Rules.{
  IsValidMove, May, After, Settles, with_action, after_power, after_motion,
}
use puddle.Core.Event.Effect.Conditions.{
  can_take-MayTake, can_take-refused, is_valid_action-IsValidMove, is_valid_action-refused,
  is_errored_lem, is_errored-refused, power_lem, move_lem,
}

module _ (ui : HidUi) where
  -- What is reserved for the holder settles as its condition does.
  pub for_holder-Settles :
      (P : Core → Type 0) (changed : Core → Core) (id : ControllerId) (seq : ℕ)
      (m : Act ui (Unit {0}))
      → ((s : CoreManager ui) → Settles (P s.core) (changed s.core) s.core (m s).1.core)
      → (s : CoreManager ui)
      → Settles
          (IsHolder id s.core × P s.core)
          (changed s.core)
          s.core
          (for_holder ui id seq m s).1.core
  for_holder-Settles P changed id seq m h s =
      elim (Bool-cases (is_holder s.core.core_state.write_access_holder id)) [
        | inl e ↦ rw e (elim (h s) [
          | inl (p, done) ↦ inl ((is_holder_lem _ id e, p), done)
          | inr (refused, same) ↦ inr (λ both. refused both.1, same)
        ])
        | inr e ↦ rw e (
            inr (
              λ both. let self = is_holder_self id in let held = both.0 in cc,
              send-Keeps ui _ _ s,
            ))
      ]

  -- The settling of one handler for the message that it answers.
  abbrev pub Does : ControllerId → ClientMessage → Act ui (Unit {0}) → Type 0
  Does id m act =
      (s : CoreManager ui) → Settles (May id m s.core) (After id m s.core) s.core (act s).1.core

  pub request-Does :
      (id : ControllerId) (seq : ℕ)
      → Does id (request_write_access seq) (Access.request_write_access ui id seq)
  unfolding Access.request_write_access
  request-Does id seq s =
      let previous = s.core.core_state.write_access_holder in
      let granted = write_access_result seq true (some id) in
      elim (Bool-cases (can_take_write_access s.core id)) [
        | inl e ↦ rw e (
            inl (
              can_take-MayTake id s.core e,
              update_core-then ui (set_holder (some id))
                  (announce ui id previous >> send ui (some id) granted) s
                  (Keeps-seq ui (announce ui id previous) (send ui (some id) granted)
                    (announce-Keeps ui id previous) (send-Keeps ui (some id) granted)),
            ))
        | inr e ↦ rw e (
            inr (
              can_take-refused id s.core e,
              send-Keeps ui (some id) (write_access_result seq false previous) s,
            ))
      ]

  pub release-Does :
      (id : ControllerId) (seq : ℕ)
      → Does id (release_write_access seq) (Access.release_write_access ui id seq)
  unfolding Access.release_write_access
  release-Does id seq =
      for_holder-Settles (λ k. Unit {0}) (After id (release_write_access seq)) id seq _
        (λ s. inl (
          tt,
          update_core-two ui (set_holder none) none (some id)
              (λ _. write_access_changed none (some id)) (λ _. ack seq true none) s,
        ))

  pub power-Does :
      (id : ControllerId) (seq : ℕ) (enabled : Bool)
      → Does id (set_drive_power seq enabled) (Power.set_drive_power ui id seq enabled)
  unfolding Power.set_drive_power
  power-Does id seq enabled =
      for_holder-Settles (λ k. Unit {0}) (after_power enabled) id seq _
        (λ s. inl (tt, succeed-then ui id seq (Power.power enabled) s ∙ power_lem enabled s.core))

  pub motion-Does :
      (id : ControllerId) (seq : ℕ) (action : MotionAction)
      → Does id (set_motion_state seq action) (Power.set_motion_state ui id seq action)
  unfolding Power.set_motion_state
  motion-Does id seq action =
      for_holder-Settles (λ k. IsValidMove action k.core_state.drive_state) (after_motion action) id
        seq _
        (λ s.
          let d = s.core.core_state.drive_state in
          elim (Bool-cases (Power.is_valid_action action d)) [
            | inl e ↦ rw e (
                inl (
                  is_valid_action-IsValidMove action d e,
                  succeed-then ui id seq (Power.move action) s ∙ move_lem action s.core,
                ))
            | inr e ↦ rw e (
                inr (
                  is_valid_action-refused action d e,
                  send-Keeps ui (some id) (ack seq false (some invalid_state)) s,
                ))
          ])

  pub acknowledge-Does :
      (id : ControllerId) (seq : ℕ)
      → Does id (acknowledge_error seq) (Power.acknowledge_error ui id seq)
  unfolding Power.acknowledge_error
  acknowledge-Does id seq =
      for_holder-Settles (λ k. k.core_state.drive_state ≡ errored) (with_action 2) id seq _
        (λ s.
          let d = s.core.core_state.drive_state in
          elim (Bool-cases (Power.is_errored d)) [
            | inl e ↦ rw e (inl (is_errored_lem d e, succeed-then ui id seq (Power.add_action 2) s))
            | inr e ↦ rw e (
                inr (
                  is_errored-refused d e,
                  send-Keeps ui (some id) (ack seq false (some invalid_state)) s,
                ))
          ])
