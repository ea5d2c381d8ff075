-- ===== src/Linmot/Writer/Writes.antt =====
-- What a writing function puts into the buffer: `Writes m bs` says that `m`, where the buffer has
-- room, replaces the bytes at the cursor by `bs`, moves the cursor behind them and touches no other.
use puddle.Base.{
  ℕ, ◌+◌, ◌≤◌, ◌-◌, ◌≡◌, refl, subst, List, [], ◌∷◌, ◌++◌, arith, append_assoc, length,
  length-append, take-append-drop, drop-append_add, length-take, length-drop, take, drop,
  take-append_exact, drop-append_exact,
}
use native.Mathlib.Nat.{add_assoc, zero-add}
use puddle.Linmot.Writer
use puddle.Base.Exec.{ok, pure, ◌>>◌}
use puddle.Base.Int.{ℤ, unsigned}
use puddle.Base.Bytes.{le16, le32}
use puddle.Linmot.Writer.{Writer, Write, write_bytes, write_u16_le, write_u32_le, write_i32_le}

pub record Writes (m : Write) (bs : List ℕ) : Type 0 where
  pub at :
      (done old rest : List ℕ)
      → length old ≡ length bs
      → m (record { buf = done ++ (old ++ rest); idx = length done })
        ≡ (ok tt, record { buf = done ++ (bs ++ rest); idx = length done + length bs })

length-zero : (xs : List ℕ) → length xs ≡ 0 → xs ≡ []
length-zero [] e = refl
length-zero (x ∷ xs) e = absurd (omega arith)

pub Writes-pure : Writes (pure tt) []
Writes-pure = record { at = λ done old rest e. rw (length-zero old e) (ground arith) }

-- `m` and then `n`, where `n` is known to write at the cursor that `m` leaves.
seq_at :
    {m : Write} (n : Write) (bs cs : List ℕ)
    → Writes m bs
    → (done old rest : List ℕ) → length old ≡ length (bs ++ cs)
    → ((back : List ℕ)
        → length back ≡ length cs
        → n (record { buf = (done ++ bs) ++ (back ++ rest); idx = length (done ++ bs) }) ≡ (
          ok tt,
          record { buf = (done ++ bs) ++ (cs ++ rest); idx = length (done ++ bs) + length cs },
        ))
    → (m >> n) (record { buf = done ++ (old ++ rest); idx = length done }) ≡ (
      ok tt,
      record { buf = done ++ ((bs ++ cs) ++ rest); idx = length done + length (bs ++ cs) },
    )
seq_at {m} n bs cs h done old rest e k =
    subst
      (λ o. (m >> n) (record { buf = done ++ (o ++ rest); idx = length done }) ≡ (
        ok tt,
        record { buf = done ++ ((bs ++ cs) ++ rest); idx = length done + length (bs ++ cs) },
      ))
      (take-append-drop (length bs) old)
      (rw (append_assoc front back rest) (
        rw (h.at done front (back ++ rest) sizes.0) (
          simp (append_assoc, length-append, ← add_assoc)
            (simp (append_assoc, length-append) at (k back sizes.1)))))
  where
    front : List ℕ
    front = take (length bs) old

    back : List ℕ
    back = drop (length bs) old

    sizes : (length front ≡ length bs) × (length back ≡ length cs)
    sizes =
        omega
          (arith, length-take (length bs) old, length-drop (length bs) old, length-append bs cs, e)

pub Writes-seq :
    {m n : Write} {bs cs : List ℕ} → Writes m bs → Writes n cs → Writes (m >> n) (bs ++ cs)
Writes-seq {n = n} {bs = bs} {cs = cs} h k = record {
  at = λ done old rest e.
      seq_at n bs cs h done old rest e (λ back e'. k.at (done ++ bs) back rest e');
}

-- `w.pos() - before`: what follows may depend on how many bytes were written.
pub Writes-pos :
    {m : Write} (k : ℕ → Write) {bs cs : List ℕ}
    → Writes m bs
    → Writes (k (length bs)) cs
    → Writes (λ w. (m >> λ after. k (after.idx - w.idx) after) w) (bs ++ cs)
Writes-pos k {bs = bs} {cs = cs} h l = record {
  at = λ done old rest e.
      let gap : length (done ++ bs) - length done ≡ length bs =
        omega (arith, length-append done bs) in
      seq_at (λ after. k (after.idx - length done) after) bs cs h done old rest e
        (λ back e'. rw gap (l.at (done ++ bs) back rest e'));
}

pub write_bytes-Writes : (bs : List ℕ) → Writes (write_bytes bs) bs
unfolding write_bytes
write_bytes-Writes bs = record {
  at = λ done old rest e.
      rw (take-append_exact, drop-append_add, ← e, drop-append_exact)
        (ground (arith, length-append done (old ++ rest), length-append old rest));
}

pub write_u16-Writes : (v : ℕ) → Writes (write_u16_le v) (le16 v)
unfolding write_u16_le
write_u16-Writes v = write_bytes-Writes (le16 v)

pub write_u32-Writes : (v : ℕ) → Writes (write_u32_le v) (le32 v)
unfolding write_u32_le
write_u32-Writes v = write_bytes-Writes (le32 v)

pub write_i32-Writes : (v : ℤ) → Writes (write_i32_le v) (le32 (unsigned 32 v))
unfolding write_i32_le
write_i32-Writes v = write_bytes-Writes (le32 (unsigned 32 v))

pub ruleset writes_rules = (
  Writes-pure, Writes-seq, write_bytes-Writes, write_u16-Writes, write_u32-Writes, write_i32-Writes,
)

-- From the start of a buffer that is long enough.
pub Writes-new :
    (m : Write) (bs out : List ℕ)
    → Writes m bs
    → length bs ≤ length out
    → m (Writer.new out) ≡ (ok tt, record { buf = bs ++ drop (length bs) out; idx = length bs })
Writes-new m bs out h fits =
    subst
      (λ o.
        m (record { buf = o; idx = 0 })
        ≡ (ok tt, record { buf = bs ++ drop (length bs) out; idx = length bs }))
      (take-append-drop (length bs) out)
      (rw zero-add at (h.at [] (take (length bs) out) (drop (length bs) out) taken))
  where
    taken : length (take (length bs) out) ≡ length bs
    taken = omega (arith, length-take (length bs) out)
