-- ===== src/Hid/Variables/TooLarge.antt =====
-- src/hid.rs: an entry that is too large for a report ends `send_variable_updates`.
use puddle.Base.{
  ℕ, ◌+◌, ◌%◌, ◌<◌, ◌≡◌, ◌∙◌, sym, refl, ap, arith, true, ◌&&◌, List, [], ◌∷◌, ◌++◌, append-nil,
  inl, inr, All, Bool-cases, ltb, length, length-append,
}
use puddle.Base.Exec.{Result, err}
use puddle.Hid.Messages.{VariableEntry}
use puddle.Hid.Screen.{hid_report_len}
use puddle.Hid.Variables.{
  VariableError, entry_too_large, get_encoded_size, max_payload, send_entries,
  send_variable_updates,
}
use puddle.Hid.Variables.Whole.{
  IsSendable, IsOpen, encoded, flat, flat-append, report_of, accepts_all, send-restart, send-append,
  grow-IsOpen, size-encoded, size-ge, one_entry, room-le,
}

module _ (large : VariableEntry) (after : List VariableEntry)
    (h : max_payload < get_encoded_size large) where
  -- The error, whatever was sent.
  abbrev IsRefused : List (List ℕ) → Result VariableError (Unit {0}) × List (List ℕ) → Type 0
  IsRefused written r = r.0 ≡ err (entry_too_large (get_encoded_size large))

  IsRefused-now :
      (body : List ℕ) (count : ℕ) (written : List (List ℕ))
      → IsRefused written (send_entries accepts_all (large ∷ after) body count written)
  unfolding send_entries
  IsRefused-now body count written =
      let too_large : ltb max_payload (get_encoded_size large) ≡ true = ground arith in
      rw too_large refl

  send_entries-IsRefused :
      (before : List VariableEntry) (group written : List (List ℕ))
      → IsOpen group
      → All IsSendable before
      → IsRefused written
          (send_entries accepts_all (before ++ (large ∷ after)) (flat group) (length group) written)
  send_entries-IsRefused [] group written g sendable =
      IsRefused-now (flat group) (length group) written
  send_entries-IsRefused (entry ∷ before) group written g (sendable, rest) =
      let entries = before ++ (large ∷ after) in
      let full =
        ltb hid_report_len (2 + length (flat group) + get_encoded_size entry)
        && ltb 0 (length group) in
      elim (Bool-cases full) [
        | inl e ↦
            let written' = written ++ (report_of group ∷ []) in
            let refused =
              send_entries-IsRefused before (encoded entry ∷ []) written' (one_entry entry sendable)
                rest in
            rw
              (
                send-restart entry entries group written sendable e,
                sym (append-nil (encoded entry)),
              )
              refused
        | inr e ↦
            let grown =
              grow-IsOpen group (encoded entry) g
                (omega (arith, size-encoded entry sendable, size-ge entry))
                (room-le entry sendable group g e) in
            let flattened =
              flat-append group (encoded entry ∷ [])
              ∙ ap (λ t. flat group ++ t) (append-nil (encoded entry)) in
            let count : length (group ++ (encoded entry ∷ [])) ≡ (length group + 1) % 256 =
              omega (arith, length-append group (encoded entry ∷ []), grown.two, grown.fits) in
            rw (send-append entry entries group written sendable e, sym flattened, sym count)
              (send_entries-IsRefused before (group ++ (encoded entry ∷ [])) written grown rest)
      ]

  -- Where an entry takes more than the 62 bytes of a report, and those before it can be sent,
  -- `send_variable_updates` fails with that entry's size, even though the device takes every report.
  pub send_variable_updates-IsRefused :
      (before : List VariableEntry) (written : List (List ℕ))
      → All IsSendable before
      → (send_variable_updates (λ _ _. true) (before ++ (large ∷ after)) written).0
        ≡ err (entry_too_large (get_encoded_size large))
  unfolding send_variable_updates
  send_variable_updates-IsRefused before written sendable =
      send_entries-IsRefused before [] written (record { fits = omega arith; two = omega arith })
        sendable
