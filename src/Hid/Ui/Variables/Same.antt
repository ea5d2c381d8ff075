-- ===== src/Hid/Ui/Variables/Same.antt =====
-- src/hid/ui_manager.rs: the derived equality of variables, and the map of what was sent last.
use puddle.Base.{
  ℕ, arith, ◌==◌, ==_iff, ◌≡◌, sym, refl, ap, Bool, true, false, ◌&&◌, Option, none, some, [], ◌∷◌,
  inl, inr, Bool-cases, if◌then◌else◌,
}
use puddle.Base.Int.{◌==ℤ◌, ==ℤ_iff}
use puddle.Hid.Messages.{
  CString, VariableEntry, fixed_point, short_string, hardware_control, HardwareControl,
  led_ring_value, reset, sleep_level,
}
use puddle.Hid.Ui.Variables.{
  same_bytes, same_flag, same_control, same_variable, Sent, find_sent, put_sent, is_sent,
}

and_true : (a b : Bool) → (a && b) ≡ true → (a ≡ true) × (b ≡ true)
and_true true b h = (refl, h)
and_true false b h = absurd (cc)

same_bytes_lem : (s t : CString) → same_bytes s t ≡ true → s ≡ t
same_bytes_lem [] [] h = refl
same_bytes_lem [] (y ∷ t) h = absurd (cc)
same_bytes_lem (x ∷ s) [] h = absurd (cc)
same_bytes_lem (x ∷ s) (y ∷ t) h =
    let (e, f) = and_true (x == y) (same_bytes s t) h in rw ((==_iff x y).0 e, same_bytes_lem s t f)

same_flag_lem : (a b : Bool) → same_flag a b ≡ true → a ≡ b
same_flag_lem true b h = sym h
same_flag_lem false true h = absurd (cc)
same_flag_lem false false h = refl

same_control_lem : (a b : HardwareControl) → same_control a b ≡ true → a ≡ b
same_control_lem (led_ring_value r v) (led_ring_value s w) h =
    let (e, f) = and_true (r == s) (v == w) h in rw ((==_iff r s).0 e, (==_iff v w).0 f)
same_control_lem reset reset h = refl
same_control_lem (sleep_level a) (sleep_level b) h = ap sleep_level (same_flag_lem a b h)
same_control_lem _ _ h = absurd (cc)

same_variable_lem : (a b : VariableEntry) → same_variable a b ≡ true → a ≡ b
unfolding same_variable
same_variable_lem (fixed_point i d v) (fixed_point j e w) h =
    let (a, rest) = and_true (i == j) _ h in
    let (b, c) = and_true (d == e) (v ==ℤ w) rest in
    rw ((==_iff i j).0 a, (==_iff d e).0 b, (==ℤ_iff v w).0 c)
same_variable_lem (short_string i s) (short_string j t) h =
    let (a, b) = and_true (i == j) (same_bytes s t) h in rw ((==_iff i j).0 a, same_bytes_lem s t b)
same_variable_lem (hardware_control a) (hardware_control b) h =
    ap hardware_control (same_control_lem a b h)
same_variable_lem _ _ h = absurd (cc)

pub is_sent_lem :
    (v : VariableEntry) (prev : Option VariableEntry) → is_sent v prev ≡ true → prev ≡ some v
unfolding is_sent
is_sent_lem v none h = absurd (cc)
is_sent_lem v (some prev) h = ap some (same_variable_lem prev v h)

pub find-put :
    (key k : ℕ) (v : VariableEntry) (sent : Sent)
    → find_sent k (put_sent key v sent) ≡ (if key == k then some v else find_sent k sent)
unfolding find_sent put_sent
find-put key k v [] = refl
find-put key k v ((j, w) ∷ sent) = elim (Bool-cases (j == key)) [
  | inl e ↦ elim (Bool-cases (key == k)) [
    | inl f ↦ rw (e, f, (==_iff j key).0 e, f)
    | inr f ↦ rw (e, f, (==_iff j key).0 e, f)
  ]
  | inr e ↦ elim (Bool-cases (j == k)) [
    | inl f ↦ let other : (key == k) ≡ false = ground (arith, (==_iff j k).0 f) in rw (e, other, f)
    | inr f ↦ rw (e, f) (find-put key k v sent)
  ]
]
