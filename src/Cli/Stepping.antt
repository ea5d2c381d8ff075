-- ===== src/Cli/Stepping.antt =====
-- src/bin/puddle-cli.rs: what a step of an input leaves.
use puddle.Base.{
  ℕ, zero, suc, ◌%◌, ◌<◌, ◌≡◌, ◌∙◌, refl, arith, Bool, true, false, ◌&&◌, List, [], ◌∷◌, ◌⊎◌, inl,
  inr, Bool-cases, ap, some, ltb, ◌==◌, length, length-set, set, get_or,
}
use puddle.Base.Int.{ℤ, pos, ◌≤ℤ◌, ltb_ℤ, clamp, wrap, ◌+ℤ◌, ◌*ℤ◌}
use puddle.Base.Partial.{Returns}
use puddle.Cli.{App, input_at, send_next, put, with_inputs}
use puddle.Cli.Inputs.{
  some_holder, has_write_access, limit_for, step_for, stepped, push_other, send_update,
  send_updates, update_held, update_input, finish_step,
}
use puddle.Cli.Indices.{IsUsable}

get_or-set_same {ℓ} :
    {A : Type ℓ} (xs : List A) (i : ℕ) (v d : A) → i < length xs → get_or (set xs i v) i d ≡ v
get_or-set_same [] i v d lt = absurd (omega arith)
get_or-set_same (x ∷ xs) zero v d lt = refl
get_or-set_same (x ∷ xs) (suc i) v d lt = get_or-set_same xs i v d (omega arith)

get_or-set_other {ℓ} :
    {A : Type ℓ} (xs : List A) (i j : ℕ) (v d : A)
    → (i == j) ≡ false
    → get_or (set xs i v) j d ≡ get_or xs j d
get_or-set_other [] i j v d e = refl
get_or-set_other (x ∷ xs) zero zero v d e = absurd (cc)
get_or-set_other (x ∷ xs) zero (suc j) v d e = refl
get_or-set_other (x ∷ xs) (suc i) zero v d e = refl
get_or-set_other (x ∷ xs) (suc i) (suc j) v d e = get_or-set_other xs i j v d (ground arith)

-- The start is not after the end.
abbrev pub InOrder : List ℤ → Type 0
InOrder inputs = input_at inputs 0 ≤ℤ input_at inputs 4

-- Start and end are in order, or both are what they were.
abbrev pub KeepsOrder : List ℤ → List ℤ → Type 0
KeepsOrder old inputs =
    InOrder inputs ⊎ ((input_at inputs 0 ≡ input_at old 0) × (input_at inputs 4 ≡ input_at old 4))

and_false : (b c : Bool) → c ≡ false → (b && c) ≡ false
and_false true c h = h
and_false false c h = refl

and_true : (b c : Bool) → (b && c) ≡ true → b ≡ true
and_true true c h = refl
and_true false c h = absurd (cc)

clamp-le : (a limit : ℤ) → pos 0 ≤ℤ limit → clamp a (pos 0) limit ≤ℤ limit
clamp-le a limit h = ground arith

clamp-ge : (a limit : ℤ) → pos 0 ≤ℤ limit → pos 0 ≤ℤ clamp a (pos 0) limit
clamp-ge a limit h = ground arith

push_other-KeepsOrder :
    (i : ℕ) (inputs old : List ℤ)
    → length inputs ≡ 8
    → ((j : ℕ) → (i == j) ≡ false → input_at inputs j ≡ input_at old j)
    → KeepsOrder old (push_other i inputs).0
unfolding push_other
push_other-KeepsOrder i inputs old len same =
    let a = input_at inputs 0 in
    let b = input_at inputs 4 in
    elim (Bool-cases (ltb_ℤ b a)) [
      | inl behind ↦ elim (Bool-cases (i == 0)) [
        | inl e ↦
            rw
              (
                e,
                behind,
                get_or-set_same inputs 4 a (pos 0) (omega arith),
                get_or-set_other inputs 4 0 a (pos 0) refl,
              )
              (inl (omega arith))
        | inr e ↦ elim (Bool-cases (i == 4)) [
          | inl f ↦
              rw
                (
                  e,
                  f,
                  behind,
                  get_or-set_same inputs 0 b (pos 0) (omega arith),
                  get_or-set_other inputs 0 4 b (pos 0) refl,
                )
                (omega arith)
          | inr f ↦ rw (e, f) (inr (same 0 e, same 4 f))
        ]
      ]
      | inr ahead ↦
          rw (and_false (i == 0) (ltb_ℤ b a) ahead, and_false (i == 4) (ltb_ℤ b a) ahead)
            (inl (ground arith))
    ]

-- What was sent leaves the inputs.
send_updates-inputs :
    (indices : List ℕ) (app : App) → (send_updates indices app).inputs ≡ app.inputs
unfolding send_updates send_update send_next
send_updates-inputs [] app = refl
send_updates-inputs (i ∷ indices) app = send_updates-inputs indices (send_update i app)

-- A step with write access leaves the inputs that `push_other` computes.
finish_step-inputs :
    (app : App) (inputs : List ℤ)
    → (finish_step app inputs).inputs ≡ (push_other app.input_index inputs).0
unfolding finish_step
finish_step-inputs app inputs =
    let pushed = push_other app.input_index inputs in
    elim (Bool-cases (some_holder app.state)) [
      | inl e ↦ rw e (send_updates-inputs (app.input_index ∷ pushed.1) (with_inputs app pushed.0))
      | inr e ↦ rw e refl
    ]

-- What the step sets the selected input to.
abbrev stepped_value : ℤ → Bool → App → ℤ
stepped_value delta large app =
    let i = app.input_index in
    stepped (limit_for app.limits (i % 4)) delta large (input_at app.inputs i)

update_input-runs :
    (delta : ℤ) (large : Bool) (app : App)
    → has_write_access app.state app.my_id ≡ true
    → app.input_index < length app.inputs
    → update_input delta large app
      ≡ some (finish_step app (set app.inputs app.input_index (stepped_value delta large app)))
unfolding update_input update_held put
update_input-runs delta large app h lt =
    let in_range : ltb app.input_index (length app.inputs) ≡ true = ground arith in
    rw (h, in_range) refl

-- The input of the index stays what it was set to.
push_other-same : (i : ℕ) (inputs : List ℤ) → input_at (push_other i inputs).0 i ≡ input_at inputs i
unfolding push_other
push_other-same i inputs =
    let a = input_at inputs 0 in
    let b = input_at inputs 4 in
    elim (Bool-cases ((i == 0) && ltb_ℤ b a)) [
      | inl e ↦
          let zero_index : (4 == i) ≡ false = ground (arith, and_true (i == 0) (ltb_ℤ b a) e) in
          rw e (get_or-set_other inputs 4 i a (pos 0) zero_index)
      | inr e ↦ elim (Bool-cases ((i == 4) && ltb_ℤ b a)) [
        | inl f ↦
            let four_index : (0 == i) ≡ false = ground (arith, and_true (i == 4) (ltb_ℤ b a) f) in
            rw (e, f) (get_or-set_other inputs 0 i b (pos 0) four_index)
        | inr f ↦ rw (e, f) refl
      ]
    ]

stepped-le :
    (limit delta v : ℤ) (large : Bool) → pos 0 ≤ℤ limit → stepped limit delta large v ≤ℤ limit
unfolding stepped
stepped-le limit delta v large h = clamp-le (wrap 32 (v +ℤ delta *ℤ step_for large)) limit h

stepped-ge :
    (limit delta v : ℤ) (large : Bool) → pos 0 ≤ℤ limit → pos 0 ≤ℤ stepped limit delta large v
unfolding stepped
stepped-ge limit delta v large h = clamp-ge (wrap 32 (v +ℤ delta *ℤ step_for large)) limit h

-- What a step leaves of the app before it.
pub record IsStepped (app after : App) : Type 0 where
  pub from : pos 0 ≤ℤ input_at after.inputs app.input_index
  pub to : input_at after.inputs app.input_index ≤ℤ limit_for app.limits (app.input_index % 4)
  pub order : KeepsOrder app.inputs after.inputs

-- For a client whose indices are in range and which holds write access, where the limit is not
-- negative, a step in either direction returns, and leaves the selected input from 0 to its limit,
-- whatever it was before; and then the start is not after the end, as the one pushes the other, or
-- both are what they were.
pub update_input-IsStepped :
    (delta : ℤ) (large : Bool) (app : App)
    → IsUsable app
    → has_write_access app.state app.my_id ≡ true
    → pos 0 ≤ℤ limit_for app.limits (app.input_index % 4)
    → Returns (IsStepped app) (update_input delta large app)
update_input-IsStepped delta large app usable writes nonneg =
    let i = app.input_index in
    let limit = limit_for app.limits (i % 4) in
    let v = stepped_value delta large app in
    let inputs = set app.inputs i v in
    let len = length-set app.inputs i v ∙ usable.inputs in
    let lt : i < length app.inputs = omega (arith, usable.index, usable.inputs) in
    let left = finish_step-inputs app inputs in
    let is_v =
      ap (λ t. input_at t i) left
      ∙ push_other-same i inputs
      ∙ get_or-set_same app.inputs i v (pos 0) lt in
    rw (update_input-runs delta large app writes lt) (record {
      from = rw is_v (stepped-ge limit delta (input_at app.inputs i) large nonneg);
      to = rw is_v (stepped-le limit delta (input_at app.inputs i) large nonneg);
      order = rw left (
          push_other-KeepsOrder i inputs app.inputs len
            (λ j e. get_or-set_other app.inputs i j v (pos 0) e));
    })
