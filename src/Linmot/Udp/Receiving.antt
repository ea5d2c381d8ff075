-- ===== src/Linmot/Udp/Receiving.antt =====
-- `from_wire` on every datagram that holds what its flags announce.
use puddle.Base.{
  ℕ, zero, suc, ◌%◌, ◌<◌, ◌^◌, ◌≡◌, refl, ap, ◌∙◌, Option, none, some, false, ◌&&◌, List, [], ◌++◌,
  arith, is_some,
}
use mathlib.Core.Option
use puddle.Base.Exec.{Result, ok}
use puddle.Base.Int.{ℤ, IsI32, IsI16, unsigned}
use puddle.Base.Bytes.{le16, le32}
use puddle.Linmot.Bitflags.{Bitflags, test_bit}
use puddle.Linmot.Reader.{
  Read, ReadError, Reader, read_u16_le, read_i16_le, read_u32_le, read_i32_le, read_four,
}
use puddle.Linmot.Reader.Reads.{
  Reads, Reads-pure, Reads-bind, Reads-map, read_u16-Reads, read_u32-Reads, read_i16-Reads,
  read_i32-Reads, read_four-Reads,
}
use puddle.Linmot.Udp.{
  RealtimeConfiguration, Response, read_realtime_configuration, read_opt, read_fields,
  fields_present, read_response, from_wire,
}
use puddle.Linmot.Udp.Sending.{configuration_bytes, opt_bytes}

-- Every value fits its field.
abbrev pub OptIn {ℓ} : {A : Type 0} → (A → Type ℓ) → Option A → Type ℓ
OptIn P none = Unit
OptIn P (some a) = P a

abbrev pub IsU16 : ℕ → Type 0
IsU16 v = v < 2 ^ 16

abbrev pub AreU32 : ℕ × ℕ × ℕ × ℕ → Type 0
AreU32 (a, b, c, d) = (a < 2 ^ 32) × (b < 2 ^ 32) × (c < 2 ^ 32) × (d < 2 ^ 32)

abbrev pub IsConfiguration : RealtimeConfiguration → Type 0
IsConfiguration c = IsU16 c.command × IsU16 c.params.0 × IsU16 c.params.1 × IsU16 c.params.2

pub record InRange (r : Response) : Type 0 where
  pub status_flags : OptIn IsU16 r.status_flags
  pub raw_state : OptIn IsU16 r.raw_state
  pub actual_position : OptIn IsI32 r.actual_position
  pub demand_position : OptIn IsI32 r.demand_position
  pub current : OptIn IsI16 r.current
  pub warning_flags : OptIn IsU16 r.warning_flags
  pub raw_error_code : OptIn IsU16 r.raw_error_code
  pub monitoring_channel : OptIn AreU32 r.monitoring_channel
  pub realtime_configuration : OptIn IsConfiguration r.realtime_configuration

-- The parts of `r` are those that the response flags `f` announce; a realtime configuration is there
-- only if the echoed request flags `q` have it too.
pub record Announced (q f : ℕ) (r : Response) : Type 0 where
  pub status_flags : test_bit f 0 ≡ is_some r.status_flags
  pub raw_state : test_bit f 1 ≡ is_some r.raw_state
  pub actual_position : test_bit f 2 ≡ is_some r.actual_position
  pub demand_position : test_bit f 3 ≡ is_some r.demand_position
  pub current : test_bit f 4 ≡ is_some r.current
  pub warning_flags : test_bit f 5 ≡ is_some r.warning_flags
  pub raw_error_code : test_bit f 6 ≡ is_some r.raw_error_code
  pub monitoring_channel : test_bit f 7 ≡ is_some r.monitoring_channel
  pub realtime_configuration : (test_bit q 2 && test_bit f 8) ≡ is_some r.realtime_configuration

abbrev i16_bytes : ℤ → List ℕ
i16_bytes v = le16 (unsigned 16 v)

abbrev i32_bytes : ℤ → List ℕ
i32_bytes v = le32 (unsigned 32 v)

abbrev four_bytes : ℕ × ℕ × ℕ × ℕ → List ℕ
four_bytes (a, b, c, d) = le32 a ++ (le32 b ++ (le32 c ++ (le32 d ++ [])))

-- The parts of a response as the drive sends them.
abbrev pub field_bytes : Response → List ℕ
field_bytes r =
    opt_bytes le16 r.status_flags
    ++ (opt_bytes le16 r.raw_state
        ++ (opt_bytes i32_bytes r.actual_position
            ++ (opt_bytes i32_bytes r.demand_position
                ++ (opt_bytes i16_bytes r.current
                    ++ (opt_bytes le16 r.warning_flags
                        ++ (opt_bytes le16 r.raw_error_code
                            ++ (opt_bytes four_bytes r.monitoring_channel
                                ++ (opt_bytes configuration_bytes r.realtime_configuration
                                    ++ []))))))))

abbrev pub response_bytes : ℕ → ℕ → Response → List ℕ
response_bytes q f r = le32 q ++ (le32 f ++ field_bytes r)

read_configuration-Reads :
    (c : RealtimeConfiguration)
    → IsConfiguration c
    → Reads read_realtime_configuration (configuration_bytes c) c
unfolding read_realtime_configuration
read_configuration-Reads c h = Reads-bind _ (read_u16-Reads _ h.0) (
    Reads-bind _ (read_u16-Reads _ h.1)
      (Reads-bind _ (read_u16-Reads _ h.2) (Reads-bind _ (read_u16-Reads _ h.3) (Reads-pure _))))

four-Reads : (v : ℕ × ℕ × ℕ × ℕ) → AreU32 v → Reads (read_four read_u32_le) (four_bytes v) v
four-Reads (a, b, c, d) h =
    read_four-Reads read_u32_le _ _ _ _ a b c d (read_u32-Reads a h.0) (read_u32-Reads b h.1)
      (read_u32-Reads c h.2) (read_u32-Reads d h.3)

-- Truncation to nine flags keeps the bits that are tested; bit 8 is not one of the lower.
low_bit : (f i : ℕ) → i < 8 → test_bit (f % 2 ^ 9) i ≡ test_bit f i
low_bit f zero h = ground arith
low_bit f (suc zero) h = ground arith
low_bit f (suc (suc zero)) h = ground arith
low_bit f (suc (suc (suc zero))) h = ground arith
low_bit f (suc (suc (suc (suc zero)))) h = ground arith
low_bit f (suc (suc (suc (suc (suc zero))))) h = ground arith
low_bit f (suc (suc (suc (suc (suc (suc zero)))))) h = ground arith
low_bit f (suc (suc (suc (suc (suc (suc (suc zero))))))) h = ground arith
low_bit f (suc (suc (suc (suc (suc (suc (suc (suc i)))))))) h = absurd (omega arith)

other_bit : (i : ℕ) → i < 8 → test_bit (2 ^ 8) i ≡ false
other_bit zero h = refl
other_bit (suc zero) h = refl
other_bit (suc (suc zero)) h = refl
other_bit (suc (suc (suc zero))) h = refl
other_bit (suc (suc (suc (suc zero)))) h = refl
other_bit (suc (suc (suc (suc (suc zero))))) h = refl
other_bit (suc (suc (suc (suc (suc (suc zero)))))) h = refl
other_bit (suc (suc (suc (suc (suc (suc (suc zero))))))) h = refl
other_bit (suc (suc (suc (suc (suc (suc (suc (suc i)))))))) h = absurd (omega arith)

module _ (bitflags : Bitflags) where
  read_opt-Reads :
      {A : Type 0} (p : Read A) (P : A → Type 0) (g : A → List ℕ) (o : Option A) (flags flag : ℕ)
      → ((a : A) → P a → Reads p (g a) a)
      → bitflags.contains flags flag ≡ is_some o
      → OptIn P o
      → Reads (read_opt bitflags p flags flag) (opt_bytes g o) o
  unfolding read_opt
  read_opt-Reads p P g none flags flag h e k = rw e (Reads-pure none)
  read_opt-Reads p P g (some a) flags flag h e k = rw e (Reads-map p some (h a k) refl)

  truncated : (o : Option ℕ) → OptIn IsU16 o → Option.map (bitflags.from_bits_truncate 16) o ≡ o
  truncated none h = refl
  truncated (some v) h = rw bitflags.truncate_lem (same (omega arith))
    where
      same : {w : ℕ} → w ≡ v → some w ≡ some v
      same e = rw e

  -- Which parts are read, bit by bit.
  present_bit :
      (q f i : ℕ) → i < 8 → bitflags.contains (fields_present bitflags q f) (2 ^ i) ≡ test_bit f i
  unfolding fields_present
  present_bit q f i h = rw (bitflags.contains_lem (fields_present bitflags q f) i) (
      ground (
        arith,
        bitflags.truncate_lem 9 f,
        bitflags.remove_lem (bitflags.from_bits_truncate 9 f) 8 i,
        low_bit f i,
        other_bit i,
      ))

  present_configuration :
      (q f : ℕ)
      → bitflags.contains (fields_present bitflags q f) (2 ^ 8) ≡ (test_bit q 2 && test_bit f 8)
  unfolding fields_present
  present_configuration q f = rw (bitflags.contains_lem (fields_present bitflags q f) 8) (
      ground (
        arith,
        bitflags.truncate_lem 3 q,
        bitflags.truncate_lem 9 f,
        bitflags.remove_lem (bitflags.from_bits_truncate 9 f) 8 8,
        bitflags.contains_lem (bitflags.from_bits_truncate 3 q) 2,
      ))

  read_fields-Reads :
      (q f : ℕ) (r : Response)
      → Announced q f r
      → InRange r
      → Reads (read_fields bitflags (fields_present bitflags q f)) (field_bytes r) r
  unfolding read_fields
  read_fields-Reads q f r n h =
      Reads-bind _
        (read_opt-Reads read_u16_le IsU16 le16 r.status_flags _ _ read_u16-Reads
          (present_bit q f 0 (omega arith) ∙ n.status_flags) h.status_flags)
        (Reads-bind _
          (read_opt-Reads read_u16_le IsU16 le16 r.raw_state _ _ read_u16-Reads
            (present_bit q f 1 (omega arith) ∙ n.raw_state) h.raw_state)
          (Reads-bind _
            (read_opt-Reads read_i32_le IsI32 i32_bytes r.actual_position _ _ read_i32-Reads
              (present_bit q f 2 (omega arith) ∙ n.actual_position) h.actual_position)
            (Reads-bind _
              (read_opt-Reads read_i32_le IsI32 i32_bytes r.demand_position _ _ read_i32-Reads
                (present_bit q f 3 (omega arith) ∙ n.demand_position) h.demand_position)
              (Reads-bind _
                (read_opt-Reads read_i16_le IsI16 i16_bytes r.current _ _ read_i16-Reads
                  (present_bit q f 4 (omega arith) ∙ n.current) h.current)
                (Reads-bind _
                  (read_opt-Reads read_u16_le IsU16 le16 r.warning_flags _ _ read_u16-Reads
                    (present_bit q f 5 (omega arith) ∙ n.warning_flags) h.warning_flags)
                  (Reads-bind _
                    (read_opt-Reads read_u16_le IsU16 le16 r.raw_error_code _ _ read_u16-Reads
                      (present_bit q f 6 (omega arith) ∙ n.raw_error_code) h.raw_error_code)
                    (Reads-bind _
                      (read_opt-Reads (read_four read_u32_le) AreU32 four_bytes r.monitoring_channel
                        _ _ four-Reads (present_bit q f 7 (omega arith) ∙ n.monitoring_channel)
                        h.monitoring_channel)
                      (Reads-bind _
                        (read_opt-Reads read_realtime_configuration IsConfiguration
                          configuration_bytes r.realtime_configuration _ _ read_configuration-Reads
                          (present_configuration q f ∙ n.realtime_configuration)
                          h.realtime_configuration)
                        (rw
                          (
                            truncated r.status_flags h.status_flags,
                            truncated r.warning_flags h.warning_flags,
                          )
                          (Reads-pure r))))))))))

  read_response-Reads :
      (q f : ℕ) (r : Response)
      → q < 2 ^ 32
      → f < 2 ^ 32
      → Announced q f r
      → InRange r
      → Reads (read_response bitflags) (response_bytes q f r) r
  unfolding read_response
  read_response-Reads q f r hq hf n h =
      Reads-bind _ (read_u32-Reads q hq)
        (Reads-bind _ (read_u32-Reads f hf) (read_fields-Reads q f r n h))

  -- Whatever the drive sends as the parts that its flags announce, with values in range, `from_wire`
  -- reads back, whatever bytes follow.
  pub from_wire_lem :
      (q f : ℕ) (r : Response) (rest : List ℕ)
      → q < 2 ^ 32
      → f < 2 ^ 32
      → Announced q f r
      → InRange r
      → from_wire bitflags (response_bytes q f r ++ rest) ≡ ok r
  unfolding from_wire
  from_wire_lem q f r rest hq hf n h =
      ap (λ (p : Result ReadError Response × Reader). p.0)
        ((read_response-Reads q f r hq hf n h).at [] rest)
