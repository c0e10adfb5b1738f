-- ===== src/Drivers/Bus/Guards.antt =====
-- What sequences of writes leave in the registers of a part, and what had been written before.
use esp_components.Base.{
  ℕ, Bool, true, false, ◌&&◌, ◌||◌, not, List, [], ◌∷◌, some, ◌==◌, if◌then◌else◌, ◌≡◌, refl, arith,
  All, ap, ◌∙◌, ==_refl, ◌⊎◌, inl, inr,
}
use esp_components.Drivers.Bus.{
  ok, failed, Status, store, load, Reply, nack, acked, Log, Bus, write_all, latest, settled,
  status_of, bus_error,
}

module _ (bus : Bus) (part r v : ℕ) (ws : List (ℕ × ℕ)) (log : Log) where
  -- The rest, by the answer to the first write.
  abbrev answered : Reply → Status × Log
  answered reply = elim (status_of reply) [
    | ok _ ↦ write_all bus (some part) ws ((store part r v, reply) ∷ log)
    | failed error ↦ (failed error, (store part r v, reply) ∷ log)
  ]

  write_all_acked :
      (x : ℕ)
      → bus log (store part r v) ≡ acked x
      → write_all bus (some part) ((r, v) ∷ ws) log
        ≡ write_all bus (some part) ws ((store part r v, acked x) ∷ log)
  unfolding write_all
  write_all_acked x e = ap answered e

  write_all_nack :
      (x : ℕ)
      → bus log (store part r v) ≡ nack x
      → write_all bus (some part) ((r, v) ∷ ws) log
        ≡ (failed (bus_error x), (store part r v, nack x) ∷ log)
  unfolding write_all
  write_all_nack x e = ap answered e

-- The bus answers either way.
pub Reply-cases : (reply : Reply) → ((x : ℕ) × (reply ≡ acked x)) ⊎ ((x : ℕ) × (reply ≡ nack x))
Reply-cases (acked x) = inl (x, refl)
Reply-cases (nack x) = inr (x, refl)

-- Writes that all succeed leave in each register the last value that was written to it.
pub write_all_ok :
    (bus : Bus) (part reg : ℕ) (ws : List (ℕ × ℕ)) (log : Log)
    → (write_all bus (some part) ws log).0 ≡ ok tt
    → latest part reg (write_all bus (some part) ws log).1 ≡ settled ws reg (latest part reg log)
unfolding write_all
write_all_ok bus part reg [] log h = refl
write_all_ok bus part reg ((r, v) ∷ ws) log h = elim (Reply-cases (bus log (store part r v))) [
  | inl (x, e) ↦
      let e' = write_all_acked bus part r v ws log x e in
      ap (λ (o : Status × Log). latest part reg o.1) e'
      ∙ write_all_ok bus part reg ws ((store part r v, acked x) ∷ log) (rw e' at h)
      ∙ ap (λ (b : Bool). settled ws reg (if b && r == reg then some v else latest part reg log))
          (==_refl part)
  | inr (x, e) ↦ absurd (ground (arith, rw (write_all_nack bus part r v ws log x e) at h))
]

-- The registers that the writes are to.
abbrev pub writes_to : ℕ → List (ℕ × ℕ) → Bool
writes_to reg [] = false
writes_to reg ((r, v) ∷ rest) = r == reg || writes_to reg rest

-- Writes to other registers leave a register alone, however they end.
pub write_all_other :
    (bus : Bus) (part reg : ℕ) (ws : List (ℕ × ℕ)) (log : Log)
    → writes_to reg ws ≡ false
    → latest part reg (write_all bus (some part) ws log).1 ≡ latest part reg log
unfolding write_all
write_all_other bus part reg [] log h = refl
write_all_other bus part reg ((r, v) ∷ ws) log h = elim (Reply-cases (bus log (store part r v))) [
  | inl (x, e) ↦
      ap (λ (o : Status × Log). latest part reg o.1) (write_all_acked bus part r v ws log x e)
      ∙ write_all_other bus part reg ws ((store part r v, acked x) ∷ log) (ground (arith, h))
      ∙ ground (arith, h)
  | inr (x, e) ↦
      ap (λ (o : Status × Log). latest part reg o.1) (write_all_nack bus part r v ws log x e)
]

-- The registers of the part hold what is expected.
abbrev pub Holds : ℕ → List (ℕ × ℕ) → Log → Type 0
Holds part expected log = All (λ (e : ℕ × ℕ). latest part e.0 log ≡ some e.1) expected

abbrev pub When : Bool → Type 0 → Type 0
When true A = A
When false A = Unit

-- Whenever a register that `guarded` tells was to be written, the expected values had been.
abbrev pub Guarded : ℕ → (ℕ → Bool) → List (ℕ × ℕ) → Log → Type 0
Guarded part guarded expected [] = Unit
Guarded part guarded expected ((store p r v, reply) ∷ log) =
    When (p == part && guarded r) (Holds part expected log) × Guarded part guarded expected log
Guarded part guarded expected ((load p r, reply) ∷ log) = Guarded part guarded expected log

-- A guarded list of writes, in a log where the expected values stand and none of the writes is to their registers.
pub write_all-Guarded_after :
    (bus : Bus) (part : ℕ) (guarded : ℕ → Bool) (expected ws : List (ℕ × ℕ)) (log : Log)
    → All (λ (e : ℕ × ℕ). writes_to e.0 ws ≡ false) expected
    → Holds part expected log
    → Guarded part guarded expected log
    → Guarded part guarded expected (write_all bus (some part) ws log).1
unfolding write_all
write_all-Guarded_after bus part guarded expected [] log a h g = g
write_all-Guarded_after bus part guarded expected ((r, v) ∷ ws) log a h g =
    elim (Reply-cases (bus log (store part r v))) [
      | inl (x, e) ↦ rw (write_all_acked bus part r v ws log x e) (
          write_all-Guarded_after bus part guarded expected ws ((store part r v, acked x) ∷ log)
            (rest expected a) (kept x expected a h) (allowed _, g))
      | inr (x, e) ↦ rw (write_all_nack bus part r v ws log x e) (allowed _, g)
    ]
  where
    allowed : (b : Bool) → When b (Holds part expected log)
    allowed true = h
    allowed false = tt

    rest :
        (es : List (ℕ × ℕ))
        → All (λ (e : ℕ × ℕ). writes_to e.0 ((r, v) ∷ ws) ≡ false) es
        → All (λ (e : ℕ × ℕ). writes_to e.0 ws ≡ false) es
    rest [] q = tt
    rest (e ∷ es) q = (ground (arith, q.0), rest es q.1)

    kept :
        (x : ℕ) (es : List (ℕ × ℕ))
        → All (λ (e : ℕ × ℕ). writes_to e.0 ((r, v) ∷ ws) ≡ false) es
        → Holds part es log
        → Holds part es ((store part r v, acked x) ∷ log)
    kept x [] q k = tt
    kept x (e ∷ es) q k = (ground (arith, q.0, k.0), kept x es q.1 k.1)

-- No guarded register is written.
abbrev pub unguarded : (ℕ → Bool) → List (ℕ × ℕ) → Bool
unguarded guarded [] = true
unguarded guarded ((r, v) ∷ rest) = not (guarded r) && unguarded guarded rest

pub write_all-Guarded :
    (bus : Bus) (part : ℕ) (guarded : ℕ → Bool) (expected ws : List (ℕ × ℕ)) (log : Log)
    → unguarded guarded ws ≡ true
    → Guarded part guarded expected log
    → Guarded part guarded expected (write_all bus (some part) ws log).1
unfolding write_all
write_all-Guarded bus part guarded expected [] log a g = g
write_all-Guarded bus part guarded expected ((r, v) ∷ ws) log a g =
    elim (Reply-cases (bus log (store part r v))) [
      | inl (x, e) ↦ rw (write_all_acked bus part r v ws log x e) (
          write_all-Guarded bus part guarded expected ws ((store part r v, acked x) ∷ log)
            (ground (arith, a)) (not_guarded, g))
      | inr (x, e) ↦ rw (write_all_nack bus part r v ws log x e) (not_guarded, g)
    ]
  where
    free : (part == part && guarded r) ≡ false
    free = ground (arith, a, ==_refl part)

    not_guarded : When (part == part && guarded r) (Holds part expected log)
    not_guarded = rw free tt
