-- ===== src/Hid/Ui/Variables/View.antt =====
-- src/hid/ui_manager.rs: what the controller shows does not depend on which variables are left out.
use puddle.Base.{
  ℕ, ◌+◌, ◌<◌, All, arith, ◌==◌, ==_iff, ◌≡◌, ◌∙◌, sym, refl, ap, Bool, true, false, Option, some,
  List, [], ◌∷◌, inl, inr, Bool-cases, if◌then◌else◌,
}
use Prim.Native.String.{String}
use puddle.Messages.{MotionCommand, SystemLimits, CoreState}
use puddle.Hid.Messages.{
  VariableEntry, fixed_point, short_string, hardware_control, led_ring_value, reset, sleep_level,
}
use puddle.Hid.Ui.Variables.{
  Scale, screen_variables, draw_or_warnings, get_variable_key, Sent, find_sent, put_sent, is_sent,
  retain,
}
use puddle.Hid.Ui.Variables.Same.{is_sent_lem, find-put}

-- A place of the controller's protocol: a value of the screen, a ring of lights, and whether it may
-- sleep.
pub data Slot : Type 0 where
  value light : ℕ → Slot
  sleeper : Slot

abbrev pub same_slot : Slot → Slot → Bool
same_slot (value i) (value j) = i == j
same_slot (light i) (light j) = i == j
same_slot sleeper sleeper = true
same_slot _ _ = false

-- Numbers and texts share the 32 indices of values; a reset is no state and has no place.
abbrev pub slot_of : VariableEntry → Slot
slot_of (fixed_point index _ _) = value index
slot_of (short_string index _) = value index
slot_of (hardware_control (led_ring_value ring_id _)) = light ring_id
slot_of (hardware_control _) = sleeper

-- An entry that the controller keeps, as its protocol admits it.
abbrev pub IsState : VariableEntry → Type 0
IsState (fixed_point index _ _) = index < 32
IsState (short_string index _) = index < 32
IsState (hardware_control (led_ring_value ring_id _)) = ring_id < 4
IsState (hardware_control reset) = ⊥
IsState (hardware_control (sleep_level _)) = Unit {0}

-- What the controller shows at each place.
abbrev pub Shown : Type 0
Shown = Slot → Option VariableEntry

abbrev pub receive : VariableEntry → Shown → Shown
receive v screen slot = if same_slot (slot_of v) slot then some v else screen slot

-- Every variable, received in order.
unfoldable pub shown : List VariableEntry → Shown → Shown
shown [] screen = screen
shown (v ∷ variables) screen = shown variables (receive v screen)

-- What is kept as sent is what the controller shows.
abbrev pub Agrees : Sent → Shown → Type 0
Agrees sent screen =
    (v : VariableEntry) → IsState v → find_sent (get_variable_key v) sent ≡ screen (slot_of v)

same_slot_lem : (s t : Slot) → same_slot s t ≡ true → s ≡ t
same_slot_lem (value i) (value j) h = ap value ((==_iff i j).0 h)
same_slot_lem (light i) (light j) h = ap light ((==_iff i j).0 h)
same_slot_lem sleeper sleeper h = refl
same_slot_lem _ _ h = absurd (cc)

-- The key of a place.
abbrev key_of : Slot → ℕ
key_of (value i) = i
key_of (light i) = 128 + i
key_of sleeper = 134

abbrev IsPlace : Slot → Type 0
IsPlace (value i) = i < 32
IsPlace (light i) = i < 4
IsPlace sleeper = Unit {0}

key-IsPlace :
    (v : VariableEntry)
    → IsState v
    → (get_variable_key v ≡ key_of (slot_of v)) × IsPlace (slot_of v)
unfolding get_variable_key
key-IsPlace (fixed_point index _ _) h = (refl, h)
key-IsPlace (short_string index _) h = (refl, h)
key-IsPlace (hardware_control (led_ring_value ring_id _)) h = (omega (arith, h), h)
key-IsPlace (hardware_control reset) h = absurd h
key-IsPlace (hardware_control (sleep_level _)) h = (refl, tt)

key_of-same : (s t : Slot) → IsPlace s → IsPlace t → (key_of s == key_of t) ≡ same_slot s t
key_of-same (value i) (value j) h k = refl
key_of-same (value i) (light j) h k = ground arith
key_of-same (value i) sleeper h k = ground arith
key_of-same (light i) (value j) h k = ground arith
key_of-same (light i) (light j) h k = ground arith
key_of-same (light i) sleeper h k = ground arith
key_of-same sleeper (value j) h k = ground arith
key_of-same sleeper (light j) h k = ground arith
key_of-same sleeper sleeper h k = refl

-- Keys are the same just where the places are.
key-same :
    (v w : VariableEntry)
    → IsState v
    → IsState w
    → (get_variable_key v == get_variable_key w) ≡ same_slot (slot_of v) (slot_of w)
key-same v w h k =
    let (e, p) = key-IsPlace v h in
    let (f, q) = key-IsPlace w k in rw (e, f) (key_of-same (slot_of v) (slot_of w) p q)

-- The same at every place.
abbrev Same : Shown → Shown → Type 0
Same s t = (slot : Slot) → s slot ≡ t slot

shown-Same :
    (variables : List VariableEntry) (s t : Shown)
    → Same s t
    → Same (shown variables s) (shown variables t)
unfolding shown
shown-Same [] s t h = h
shown-Same (v ∷ variables) s t h =
    shown-Same variables (receive v s) (receive v t) (λ slot. rw (h slot) refl)

-- What is shown already changes nothing.
receive-there :
    (v : VariableEntry) (screen : Shown)
    → screen (slot_of v) ≡ some v
    → Same screen (receive v screen)
receive-there v screen h slot = elim (Bool-cases (same_slot (slot_of v) slot)) [
  | inl e ↦ rw e (ap screen (sym (same_slot_lem (slot_of v) slot e)) ∙ h)
  | inr e ↦ rw e refl
]

put-Agrees :
    (v : VariableEntry) (sent : Sent) (screen : Shown)
    → IsState v
    → Agrees sent screen
    → Agrees (put_sent (get_variable_key v) v sent) (receive v screen)
put-Agrees v sent screen is_state h w k =
    rw (find-put (get_variable_key v) (get_variable_key w) v sent, key-same v w is_state k, h w k)
      refl

draw-IsState :
    (core : CoreState) (warnings : List String) → IsState (draw_or_warnings core warnings)
draw-IsState core [] = omega arith
draw-IsState core (w ∷ warnings) = omega arith

-- All that the program shows is of this kind.
pub screen_variables-IsState :
    (scale : Scale) (limits : SystemLimits) (core : CoreState) (c : MotionCommand × MotionCommand)
    (holding_start : Bool)
    → All IsState (screen_variables scale limits core c holding_start)
unfolding screen_variables
screen_variables-IsState scale limits core (a, b) holding_start = (
  tt,
  (
    omega arith,
    (
      omega arith,
      (
        omega arith,
        (
          omega arith,
          (
            omega arith,
            (
              omega arith,
              (
                omega arith,
                (
                  omega arith,
                  (
                    omega arith,
                    (
                      omega arith,
                      (
                        omega arith,
                        (
                          draw-IsState core core.warnings,
                          (omega arith, (omega arith, (omega arith, (omega arith, tt)))),
                        ),
                      ),
                    ),
                  ),
                ),
              ),
            ),
          ),
        ),
      ),
    ),
  ),
)

-- Where what is kept as sent is what the controller shows, for states as the protocol admits them,
-- the variables that are left after the filter make the controller show the same at every place as
-- all the variables would; and what is kept as sent is again what it shows.
pub retain-shown :
    (variables : List VariableEntry) (sent : Sent) (screen : Shown)
    → All IsState variables
    → Agrees sent screen
    → Agrees (retain variables sent).1 (shown (retain variables sent).0 screen)
      × ((slot : Slot) → shown (retain variables sent).0 screen slot ≡ shown variables screen slot)
unfolding retain shown
retain-shown [] sent screen states agrees = (agrees, λ slot. refl)
retain-shown (v ∷ variables) sent screen states agrees =
    let key = get_variable_key v in
    elim (Bool-cases (is_sent v (find_sent key sent))) [
      | inl e ↦
          let (kept, same) = retain-shown variables sent screen states.1 agrees in
          let there = sym (agrees v states.0) ∙ is_sent_lem v (find_sent key sent) e in
          rw e (
            kept,
            λ slot.
                same slot
                ∙ shown-Same variables screen (receive v screen) (receive-there v screen there)
                    slot,
          )
      | inr e ↦ rw e (
          retain-shown variables (put_sent key v sent) (receive v screen) states.1
            (put-Agrees v sent screen states.0 agrees))
    ]
