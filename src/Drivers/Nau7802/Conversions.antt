-- ===== src/Drivers/Nau7802/Conversions.antt =====
-- The number that a conversion stands for.
use esp_components.Base.{
  ℕ, ◌+◌, ◌-◌, ◌*◌, ◌^◌, ◌<◌, true, not, List, [], ◌∷◌, Option, ltb, if◌then◌else◌, bit_or, get_or,
  ◌≡◌, ap, ◌∙◌, arith, Bool-cases, inl, inr,
}
use esp_components.Base.Bits.{bit_or_shifted, bit_or_comm}
use esp_components.Base.Int.{ℤ, pos, negsuc}
use esp_components.Drivers.Pins.{pin_of_lem}
use esp_components.Drivers.Nau7802.{
  Error, Result, ok, load, Reply, acked, Log, Bus, continue, bytes_of, M, has, sign_extend,
  to_int32, await, read_regs, read_raw,
}

-- Two's complement in 24 bits.
abbrev pub signed24 : ℕ → ℤ
signed24 value = if ltb value (2 ^ 23) then pos value else negsuc (2 ^ 24 - 1 - value)

joined :
    (b2 b1 b0 : ℕ)
    → b2 < 256
    → b1 < 256
    → b0 < 256
    → bit_or (bit_or (b2 * 2 ^ 16) (b1 * 2 ^ 8)) b0 ≡ b2 * 65536 + b1 * 256 + b0
joined b2 b1 b0 p q r =
    let upper : bit_or (b2 * 2 ^ 16) (b1 * 2 ^ 8) ≡ (b2 * 256 + b1) * 2 ^ 8 =
      omega (arith, bit_or_shifted 16 b2 (b1 * 2 ^ 8) (omega arith)) in
    ap (λ (x : ℕ). bit_or x b0) upper
    ∙ omega (arith, bit_or_shifted 8 (b2 * 256 + b1) b0 (omega arith))

top_bit : (v : ℕ) → v < 2 ^ 24 → has 0x800000 v ≡ not (ltb v (2 ^ 23))
top_bit v h = pin_of_lem v 23 ∙ ground arith

to_int32-sign_extend : (v : ℕ) → v < 2 ^ 24 → to_int32 (sign_extend v) ≡ signed24 v
unfolding sign_extend
to_int32-sign_extend v h = elim (Bool-cases (ltb v (2 ^ 23))) [
  | inl e ↦ rw (top_bit v h, e) (ground arith)
  | inr e ↦
      let extended : bit_or v 0xFF000000 ≡ 0xFF000000 + v =
        bit_or_comm v 0xFF000000 ∙ omega (arith, bit_or_shifted 24 255 v (omega arith)) in
      rw (top_bit v h, e) (rw extended (ground arith))
]

-- What is left of a conversion once the registers have been read, and once a conversion is ready.
abbrev value_of : List ℕ → M Error ℤ
value_of raw log = (
  ok (
      to_int32 (
        sign_extend
          (bit_or (bit_or (get_or raw 0 0 * 2 ^ 16) (get_or raw 1 0 * 2 ^ 8)) (get_or raw 2 0)))),
  log,
)

abbrev conversion_of : Bus → Unit {0} → M Error ℤ
conversion_of bus done log = continue (read_regs bus true 0x12 3 log) value_of

-- Once a conversion is ready, and if the three registers are read as bytes, the conversion is their big-endian number
-- in two's complement, and nothing else is asked of the device.
read_raw-signed24 :
    (bus : Bus) (drdy : Option ℕ) (log ready : Log) (b2 b1 b0 : ℕ)
    → await bus true drdy log ≡ (ok tt, ready)
    → bus ready (load 0x12 3) ≡ acked (b2 ∷ b1 ∷ b0 ∷ [])
    → (b2 < 256) × (b1 < 256) × (b0 < 256)
    → read_raw bus true drdy log ≡ (
      ok (signed24 (b2 * 65536 + b1 * 256 + b0)),
      (load 0x12 3, acked (b2 ∷ b1 ∷ b0 ∷ [])) ∷ ready,
    )
unfolding read_raw read_regs
read_raw-signed24 bus drdy log ready b2 b1 b0 a r (p, q, s) =
    let bytes : Reply = acked (b2 ∷ b1 ∷ b0 ∷ []) in
    let number : ℕ → Result Error ℤ × Log =
      λ (v : ℕ). (ok (to_int32 (sign_extend v)), (load 0x12 3, bytes) ∷ ready) in
    ap (λ (w : Result Error (Unit {0}) × Log). continue w (conversion_of bus)) a
    ∙ ap (λ (reply : Reply). continue (bytes_of reply, (load 0x12 3, reply) ∷ ready) value_of) r
    ∙ ap number (joined b2 b1 b0 p q s)
    ∙ ap (λ (z : ℤ). (ok z, (load 0x12 3, bytes) ∷ ready))
        (to_int32-sign_extend (b2 * 65536 + b1 * 256 + b0) (omega arith))
