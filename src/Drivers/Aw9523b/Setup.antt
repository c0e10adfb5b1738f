-- ===== src/Drivers/Aw9523b/Setup.antt =====
-- The setup of the AW9523B, `configure`: the order of its writes, and what a success means.
use esp_components.Base.{
  ℕ, Bool, ◌||◌, ◌∷◌, ◌++◌, Option, some, ◌==◌, ◌≡◌, refl, arith, ap, ◌∙◌, Bool-cases, inl, inr,
  ◌⊎◌, subst, sym,
}
use esp_components.Drivers.Bus.{
  ok, failed, Status, load, Reply, acked, nack, Log, Bus, write_all, value_of,
}
use esp_components.Drivers.Bus.Guards.{
  Holds, Guarded, write_all_ok, write_all_other, write_all-Guarded, write_all-Guarded_after,
}
use esp_components.Drivers.Aw9523b.{
  Device, Report, Done, Stage, stage_none, stage_configure, blame, identified, conclude, set_modes,
  set_up, preset, configure, levels, modes, reg_id, expected_id,
}

-- The registers that make pins outputs: REG_P0_CONFIG and REG_P1_CONFIG.
abbrev pub is_direction : ℕ → Bool
is_direction reg = reg == 4 || reg == 5

-- A device on the bus.
abbrev on_bus : ℕ → Device → Device
on_bus part d = record { dev = some part; cfg = d.cfg; out0 = d.out0; out1 = d.out1 }

log-conclude :
    (stage : Stage) (d : Device) (r : Option Report) (o : Status × Log)
    → (conclude stage d r o).log ≡ o.1
log-conclude stage d r (ok _, log) = refl
log-conclude stage d r (failed e, log) = refl

-- The status of the writes before decides.
log-set_modes :
    (bus : Bus) (d : Device) (r : Option Report) (o : Status × Log)
    → ((o.0 ≡ ok tt) × ((set_modes bus d r o).log ≡ (write_all bus d.dev (modes d.cfg) o.1).1))
      ⊎ ((set_modes bus d r o).log ≡ o.1)
log-set_modes bus d r (ok _, log) =
    inl (refl, log-conclude stage_configure d r (write_all bus d.dev (modes d.cfg) log))
log-set_modes bus d r (failed e, log) = inr refl

module _ (bus : Bus) (part : ℕ) (d : Device) where
  abbrev after_levels : Log → Status × Log
  after_levels log = write_all bus (some part) (levels d.cfg) log

  Holds-after_levels :
      (log : Log) → (after_levels log).0 ≡ ok tt → Holds part (levels d.cfg) (after_levels log).1
  Holds-after_levels log h = (
    write_all_ok bus part 2 (levels d.cfg) log h,
    (write_all_ok bus part 3 (levels d.cfg) log h, tt),
  )

  set_modes-Guarded :
      (r : Option Report) (log : Log)
      → Guarded part is_direction (levels d.cfg) log
      → Guarded part is_direction
          (levels d.cfg)
          (set_modes bus (preset (on_bus part d)) r (after_levels log)).log
  set_modes-Guarded r log g =
      let g' = write_all-Guarded bus part is_direction (levels d.cfg) (levels d.cfg) log refl g in
      elim (log-set_modes bus (preset (on_bus part d)) r (after_levels log)) [
        | inl (h, e) ↦ rw e (
            write_all-Guarded_after bus part is_direction (levels d.cfg) (modes d.cfg)
              (after_levels log).1 (refl, (refl, tt)) (Holds-after_levels log h) g')
        | inr e ↦ rw e g'
      ]

  set_up-Guarded :
      (r : Option Report) (reply : Reply) (log : Log)
      → Guarded part is_direction (levels d.cfg) log
      → Guarded part is_direction
          (levels d.cfg)
          (set_up bus (on_bus part d) r (value_of reply, (load part reg_id, reply) ∷ log)).log
  set_up-Guarded r (nack x) log g = g
  set_up-Guarded r (acked id) log g = elim (Bool-cases (id == expected_id)) [
    | inl q ↦ rw q (set_modes-Guarded (identified id r) ((load part reg_id, acked id) ∷ log) g)
    | inr q ↦ rw q g
  ]

-- If in the past the part's direction registers were only ever written while its output registers held the
-- initial levels, this is so after `configure`, whether it succeeds or fails at any point.
pub configure-Guarded :
    (bus : Bus) (part : ℕ) (d : Device) (report : Option Report) (log : Log)
    → d.dev ≡ some part
    → Guarded part is_direction (levels d.cfg) log
    → Guarded part is_direction (levels d.cfg) (configure bus d report log).log
unfolding configure
configure-Guarded bus part d report log e g =
    subst
      (λ (o : Option ℕ).
        Guarded part is_direction (levels d.cfg)
          (configure bus (record { dev = o; cfg = d.cfg; out0 = d.out0; out1 = d.out1 }) report
            log).log)
      (sym e)
      (set_up-Guarded bus part d (blame stage_none report) (bus log (load part reg_id)) log g)

-- What a success of `configure` means.
pub record IsConfigured (bus : Bus) (part : ℕ) (d : Device) (before : Log) (done : Done)
    : Type 0 where
  -- The part answered with its id.
  pub identity : bus before (load part reg_id) ≡ acked expected_id
  -- Its registers were last written with the initial levels, the drive modes and the directions.
  pub registers : Holds part (levels d.cfg ++ modes d.cfg) done.log
  -- The shadow registers are those levels, and nothing else of the device has changed.
  pub device : done.device ≡ preset d

module _ (bus : Bus) (part : ℕ) (d : Device) where
  set_modes_ok :
      (r : Option Report) (o : Status × Log)
      → (set_modes bus (on_bus part (preset d)) r o).status ≡ ok tt
      → (o.0 ≡ ok tt)
        × ((write_all bus (some part) (modes d.cfg) o.1).0 ≡ ok tt)
        × ((set_modes bus (on_bus part (preset d)) r o).log
            ≡ (write_all bus (some part) (modes d.cfg) o.1).1)
        × ((set_modes bus (on_bus part (preset d)) r o).device ≡ on_bus part (preset d))
  set_modes_ok r (failed e, log) h = absurd (ground (arith, h))
  set_modes_ok r (ok _, log) h =
      let (w, l, v) = go (write_all bus (some part) (modes d.cfg) log) h in (refl, w, l, v)
    where
      go :
          (o : Status × Log)
          → (conclude stage_configure (on_bus part (preset d)) r o).status ≡ ok tt
          → (o.0 ≡ ok tt)
            × ((conclude stage_configure (on_bus part (preset d)) r o).log ≡ o.1)
            × ((conclude stage_configure (on_bus part (preset d)) r o).device
                ≡ on_bus part (preset d))
      go (ok _, log) h = (refl, refl, refl)
      go (failed e, log) h = absurd (ground (arith, h))

  Holds-modes :
      (log : Log)
      → (write_all bus (some part) (modes d.cfg) log).0 ≡ ok tt
      → Holds part (levels d.cfg) log
      → Holds part (levels d.cfg ++ modes d.cfg) (write_all bus (some part) (modes d.cfg) log).1
  Holds-modes log h k =
      let set = λ (reg : ℕ). write_all_ok bus part reg (modes d.cfg) log h in
      let kept = λ (reg : ℕ). write_all_other bus part reg (modes d.cfg) log in
      (kept 2 refl ∙ k.0, (kept 3 refl ∙ k.1.0, (set 18, (set 19, (set 17, (set 4, (set 5, tt)))))))

  set_modes-registers :
      (r : Option Report) (log : Log)
      → (set_modes bus (on_bus part (preset d)) r (after_levels bus part d log)).status ≡ ok tt
      → Holds part
          (levels d.cfg ++ modes d.cfg)
          (set_modes bus (on_bus part (preset d)) r (after_levels bus part d log)).log
        × ((set_modes bus (on_bus part (preset d)) r (after_levels bus part d log)).device
            ≡ on_bus part (preset d))
  set_modes-registers r log h =
      let (w, m, l, v) = set_modes_ok r (after_levels bus part d log) h in
      (
        rw l (Holds-modes (after_levels bus part d log).1 m (Holds-after_levels bus part d log w)),
        v,
      )

  set_up-IsConfigured :
      (r : Option Report) (log : Log) (reply : Reply)
      → bus log (load part reg_id) ≡ reply
      → (set_up bus (on_bus part d) r (value_of reply, (load part reg_id, reply) ∷ log)).status
        ≡ ok tt
      → IsConfigured bus part
          (on_bus part d)
          log
          (set_up bus (on_bus part d) r (value_of reply, (load part reg_id, reply) ∷ log))
  set_up-IsConfigured r log (nack x) e h = absurd (ground (arith, h))
  set_up-IsConfigured r log (acked id) e h = elim (Bool-cases (id == expected_id)) [
    | inl q ↦
        let (k, v) =
          set_modes-registers (identified id r) ((load part reg_id, acked id) ∷ log) (rw q at h) in
        rw q (record { identity = e ∙ ap acked (ground (arith, q)); registers = k; device = v })
    | inr q ↦ absurd (ground (arith, rw q at h))
  ]

-- A `configure` that succeeds for a device on the bus has seen the part's id, has left all its registers as the
-- configuration says, and the shadow registers with the initial levels.
pub configure-IsConfigured :
    (bus : Bus) (part : ℕ) (d : Device) (report : Option Report) (log : Log)
    → d.dev ≡ some part
    → (configure bus d report log).status ≡ ok tt
    → IsConfigured bus part d log (configure bus d report log)
unfolding configure
configure-IsConfigured bus part d report log e h =
    let at : Option ℕ → Device =
      λ o. record { dev = o; cfg = d.cfg; out0 = d.out0; out1 = d.out1 } in
    let same : on_bus part d ≡ d = ap at (sym e) in
    subst
      (λ (x : Device).
        (configure bus x report log).status ≡ ok tt
        → IsConfigured bus part x log (configure bus x report log))
      same
      (set_up-IsConfigured bus part d (blame stage_none report) log (bus log (load part reg_id))
        refl)
      h
