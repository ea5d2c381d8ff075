-- ===== src/Hid/Variables/Whole.antt =====
-- src/hid.rs: what `send_variable_updates` sends to a device that takes every report.
use puddle.Base.{
  ℕ, ◌+◌, ◌-◌, ◌*◌, ◌%◌, ◌<◌, ◌≤◌, ◌≡◌, ◌∙◌, sym, refl, ap, arith, subst, Bool, true, false, ◌&&◌,
  List, [], ◌∷◌, ◌++◌, append_assoc, append-nil, map, inl, inr, All, Bool-cases, ltb, length,
  length-append, replicate, length-replicate,
}
use puddle.Base.Exec.{Result, ok, err}
use puddle.Hid.Messages.{VariableEntry, fixed_point, short_string, hardware_control}
use puddle.Hid.Screen.{Accepts, write, hid_report_len}
use puddle.Hid.Variables.{
  VariableError, get_encoded_size, encode_entry, max_payload, update_report, flush, send_entries,
  send_variable_updates,
}
use puddle.Hid.Variables.Size.{HasSize, encode_entry-HasSize}

abbrev pub encoded_or_none : Result VariableError (List ℕ) → List ℕ
encoded_or_none (ok bytes) = bytes
encoded_or_none (err e) = []

-- The bytes of an entry that can be encoded.
abbrev pub encoded : VariableEntry → List ℕ
encoded entry = encoded_or_none (encode_entry entry)

-- An entry that can be encoded and fits a report.
pub record IsSendable (entry : VariableEntry) : Type 0 where
  pub encodes : encode_entry entry ≡ ok (encoded entry)
  pub fits : get_encoded_size entry ≤ max_payload

abbrev pub flat : List (List ℕ) → List ℕ
flat [] = []
flat (bytes ∷ group) = bytes ++ flat group

abbrev pub flatten : List (List (List ℕ)) → List (List ℕ)
flatten [] = []
flatten (group ∷ groups) = group ++ flatten groups

-- The report that carries the entries of a group: its id, the number of the entries, the entries,
-- and zeros up to 64 bytes.
abbrev pub report_of : List (List ℕ) → List ℕ
report_of group = 2 ∷ length group ∷ (flat group ++ replicate (62 - length (flat group)) 0)

-- A group that is sent: it has entries, their number fits a byte, and it makes a whole report.
abbrev pub IsGroup : List (List ℕ) → Type 0
IsGroup group =
    (0 < length group) × ((length group < 256) × (length (report_of group) ≡ hid_report_len))

-- The entries go out in order, in groups that each fill one report.
pub record IsSent (bytes : List (List ℕ)) (written : List (List ℕ))
    (after : Result VariableError (Unit {0}) × List (List ℕ)) : Type 0 where
  pub groups : List (List (List ℕ))
  pub sent : after ≡ (ok tt, written ++ map report_of groups)
  pub whole : flatten groups ≡ bytes
  pub fit : All IsGroup groups

abbrev pub accepts_all : Accepts
accepts_all written report = true

-- The group under way: each of its entries has two bytes at least.
pub record IsOpen (group : List (List ℕ)) : Type 0 where
  pub fits : length (flat group) ≤ max_payload
  pub two : 2 * length group ≤ length (flat group)

pub flat-append : (g h : List (List ℕ)) → flat (g ++ h) ≡ flat g ++ flat h
flat-append [] h = refl
flat-append (b ∷ g) h =
    ap (λ (t : List ℕ). b ++ t) (flat-append g h) ∙ sym (append_assoc b (flat g) (flat h))

pub size-encoded :
    (entry : VariableEntry) → IsSendable entry → length (encoded entry) ≡ get_encoded_size entry
size-encoded entry h =
    subst (λ r. HasSize (get_encoded_size entry) r) h.encodes (encode_entry-HasSize entry)

pub size-ge : (entry : VariableEntry) → 2 ≤ get_encoded_size entry
unfolding get_encoded_size
size-ge (fixed_point index decimals value) = omega arith
size-ge (short_string index value) = omega (arith, length-append value (0 ∷ []))
size-ge (hardware_control control) = omega arith

-- The group grows by an entry for which there is room, or starts with it.
pub grow-IsOpen :
    (group : List (List ℕ)) (bytes : List ℕ)
    → IsOpen group
    → 2 ≤ length bytes
    → length (flat group) + length bytes ≤ max_payload
    → IsOpen (group ++ (bytes ∷ []))
grow-IsOpen group bytes h two fits =
    let flattened = flat-append group (bytes ∷ []) ∙ ap (λ t. flat group ++ t) (append-nil bytes) in
    let size = length-append (flat group) bytes in
    let count = length-append group (bytes ∷ []) in
    let total = ap (λ (t : List ℕ). length t) flattened ∙ size in
    record { fits = omega (arith, total, fits); two = omega (arith, total, count, h.two) }

-- A full group goes out before the rest.
IsSent-before :
    (group : List (List ℕ)) (bytes written : List (List ℕ))
    (after : Result VariableError (Unit {0}) × List (List ℕ))
    → IsGroup group
    → IsSent bytes (written ++ (report_of group ∷ [])) after
    → IsSent (group ++ bytes) written after
IsSent-before group bytes written after g s = record {
  groups = group ∷ s.groups;
  sent =
      s.sent
      ∙ ap (λ t. (ok tt, t)) (append_assoc written (report_of group ∷ []) (map report_of s.groups));
  whole = ap (λ (t : List (List ℕ)). group ++ t) s.whole;
  fit = (g, s.fit);
}

-- An entry that does not fit what is left, and one that does.
pub send-restart :
    (entry : VariableEntry) (entries : List VariableEntry) (group written : List (List ℕ))
    → IsSendable entry
    → (ltb hid_report_len (2 + length (flat group) + get_encoded_size entry)
        && ltb 0 (length group))
      ≡ true
    → send_entries accepts_all (entry ∷ entries) (flat group) (length group) written
      ≡ send_entries accepts_all entries (encoded entry) 1 (written ++ (report_of group ∷ []))
unfolding send_entries flush write update_report
send-restart entry entries group written h full =
    let small : ltb max_payload (get_encoded_size entry) ≡ false = ground (arith, h.fits) in
    rw (small, full, h.encodes) refl

pub send-append :
    (entry : VariableEntry) (entries : List VariableEntry) (group written : List (List ℕ))
    → IsSendable entry
    → (ltb hid_report_len (2 + length (flat group) + get_encoded_size entry)
        && ltb 0 (length group))
      ≡ false
    → send_entries accepts_all (entry ∷ entries) (flat group) (length group) written
      ≡ send_entries accepts_all entries
          (flat group ++ encoded entry)
          ((length group + 1) % 256)
          written
unfolding send_entries
send-append entry entries group written h room =
    let small : ltb max_payload (get_encoded_size entry) ≡ false = ground (arith, h.fits) in
    rw (small, room, h.encodes) refl

and_true : (b c : Bool) → (b && c) ≡ true → (b ≡ true) × (c ≡ true)
and_true true c h = (refl, h)
and_true false c h = absurd (cc)

length-report_of :
    (group : List (List ℕ))
    → length (flat group) ≤ max_payload
    → length (report_of group) ≡ hid_report_len
length-report_of group h = omega (
  arith,
  length-append (flat group) (replicate (max_payload - length (flat group)) 0),
  length-replicate {A = ℕ} (max_payload - length (flat group)) 0,
)

-- A group under way that has entries can be sent.
open-IsGroup : (group : List (List ℕ)) → IsOpen group → ltb 0 (length group) ≡ true → IsGroup group
open-IsGroup group h e =
    let some_entry : 0 < length group = ground arith in
    (some_entry, (omega (arith, h.two, h.fits), length-report_of group h.fits))

module _ (entry : VariableEntry) (h : IsSendable entry) where
  pub one_entry : IsOpen (encoded entry ∷ [])
  one_entry =
      let flattened = ap (λ (t : List ℕ). length t) (append-nil (encoded entry)) in
      record {
        fits = omega (arith, flattened, size-encoded entry h, h.fits);
        two = omega (arith, flattened, size-encoded entry h, size-ge entry);
      }

  pub room-le :
      (group : List (List ℕ))
      → IsOpen group
      → (ltb hid_report_len (2 + length (flat group) + get_encoded_size entry)
          && ltb 0 (length group))
        ≡ false
      → length (flat group) + length (encoded entry) ≤ max_payload
  room-le [] g room = omega (arith, size-encoded entry h, h.fits)
  room-le (b ∷ group) g room = ground (arith, size-encoded entry h)

-- The last group, which may have no entries.
ends-IsSent :
    (group written : List (List ℕ))
    → IsOpen group
    → IsSent (group ++ []) written (send_entries accepts_all [] (flat group) (length group) written)
unfolding send_entries flush write update_report
ends-IsSent [] written h = record {
  groups = [];
  sent = ap (λ t. (ok tt, t)) (sym (append-nil written));
  whole = refl;
  fit = tt;
}
ends-IsSent (b ∷ group) written h =
    let some_entry : ltb 0 (length (b ∷ group)) ≡ true = ground arith in
    rw some_entry (record {
      groups = (b ∷ group) ∷ [];
      sent = refl;
      whole = refl;
      fit = (open-IsGroup (b ∷ group) h some_entry, tt);
    })

send_entries-IsSent :
    (entries : List VariableEntry) (group written : List (List ℕ))
    → IsOpen group
    → All IsSendable entries
    → IsSent
        (group ++ map encoded entries)
        written
        (send_entries accepts_all entries (flat group) (length group) written)
send_entries-IsSent [] group written h sendable = ends-IsSent group written h
send_entries-IsSent (entry ∷ entries) group written h (sendable, rest) =
    let full =
      ltb hid_report_len (2 + length (flat group) + get_encoded_size entry)
      && ltb 0 (length group) in
    elim (Bool-cases full) [
      | inl e ↦
          let after =
            send_entries-IsSent entries (encoded entry ∷ []) (written ++ (report_of group ∷ []))
              (one_entry entry sendable) rest in
          let restarted =
            subst
              (λ (t : List ℕ).
                IsSent (encoded entry ∷ map encoded entries) (written ++ (report_of group ∷ []))
                  (send_entries accepts_all entries t 1 (written ++ (report_of group ∷ []))))
              (append-nil (encoded entry)) after in
          rw (send-restart entry entries group written sendable e) (
            IsSent-before group (encoded entry ∷ map encoded entries) written _
              (open-IsGroup group h (and_true _ (ltb 0 (length group)) e).1) restarted)
      | inr e ↦
          let grown =
            grow-IsOpen group (encoded entry) h
              (omega (arith, size-encoded entry sendable, size-ge entry))
              (room-le entry sendable group h e) in
          let after =
            send_entries-IsSent entries (group ++ (encoded entry ∷ [])) written grown rest in
          let flattened =
            flat-append group (encoded entry ∷ [])
            ∙ ap (λ t. flat group ++ t) (append-nil (encoded entry)) in
          let count : length (group ++ (encoded entry ∷ [])) ≡ (length group + 1) % 256 =
            omega (arith, length-append group (encoded entry ∷ []), grown.two, grown.fits) in
          rw
            (
              send-append entry entries group written sendable e,
              sym flattened,
              sym count,
              sym (append_assoc group (encoded entry ∷ []) (map encoded entries)),
            )
            after
    ]

-- To a device that takes every report, entries that can be encoded and fit a report each are all
-- sent, in order and each in one piece: as reports of 64 bytes, each of which has the id 2, the
-- number of its entries, which is at least one, the bytes of its entries and zeros after them.
pub send_variable_updates-IsSent :
    (entries : List VariableEntry) (written : List (List ℕ))
    → All IsSendable entries
    → IsSent (map encoded entries) written (send_variable_updates (λ _ _. true) entries written)
unfolding send_variable_updates
send_variable_updates-IsSent entries written sendable =
    send_entries-IsSent entries [] written (record { fits = omega arith; two = omega arith })
      sendable
