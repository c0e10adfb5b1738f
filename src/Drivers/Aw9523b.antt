-- ===== src/Drivers/Aw9523b.antt =====
-- aw9523b/src/aw9523b.c: the driver of the AW9523B port expander. A handle or a pointer that may be NULL is
-- an Option, or a Bool where only that matters; the device handle of the bus is the part's number.
pub mod Setup
pub mod Ports
use mathlib.Core.Option
use esp_components.Base.{
  ℕ, ◌*◌, ◌^◌, Bool, true, false, not, ◌&&◌, ◌||◌, List, [], ◌∷◌, Option, none, some, ltb, ◌==◌,
  if◌then◌else◌,
}
use esp_components.Drivers.Bus.{
  Error, invalid_arg, invalid_state, no_mem, wrong_part, Result, ok, failed, Status, Log, Bus,
  write8, read8, write_all,
}
use esp_components.Drivers.Pins.{with_pin, pin_of}

-- `aw9523b_config_t`
pub record Config : Type 0 where
  pub dev : Option ℕ
  pub port0_inputs : ℕ
  pub port1_inputs : ℕ
  pub port0_initial : ℕ
  pub port1_initial : ℕ
  pub port0_push_pull : Bool

-- `aw9523b_stage_t`
pub data Stage : Type 0 where
  stage_none stage_identify stage_preset stage_configure : Stage

-- `aw9523b_report_t`
pub record Report : Type 0 where
  pub failed_stage : Stage
  pub chip_id : ℕ

-- `struct aw9523b_dev_t`
pub record Device : Type 0 where
  pub dev : Option ℕ
  pub cfg : Config
  pub out0 : ℕ
  pub out1 : ℕ

-- `REG_ID` and `CHIP_ID`
abbrev pub reg_id : ℕ
reg_id = 16

abbrev pub expected_id : ℕ
expected_id = 35

-- `memset(report, 0, sizeof(*report))`
abbrev pub cleared : Option Report → Option Report
cleared = Option.map (λ (r : Report). record { failed_stage = stage_none; chip_id = 0 })

-- `fail`, and the assignments to a report that may be NULL.
abbrev pub blame : Stage → Option Report → Option Report
blame stage = Option.map (λ (r : Report). record { failed_stage = stage; chip_id = r.chip_id })

abbrev pub identified : ℕ → Option Report → Option Report
identified id = Option.map (λ (r : Report). record { failed_stage = r.failed_stage; chip_id = id })

-- What `configure` leaves.
pub record Done : Type 0 where
  pub status : Status
  pub device : Device
  pub report : Option Report
  pub log : Log

-- `if (err != ESP_OK) return fail(report, stage, err);` behind a sequence of writes, and at the end.
abbrev pub conclude : Stage → Device → Option Report → Status × Log → Done
conclude stage d report (ok _, log) = record {
  status = ok tt;
  device = d;
  report = report;
  log = log;
}
conclude stage d report (failed e, log) = record {
  status = failed e;
  device = d;
  report = blame stage report;
  log = log;
}

-- The output levels: REG_P0_OUTPUT, REG_P1_OUTPUT.
abbrev pub levels : Config → List (ℕ × ℕ)
levels c = (2, c.port0_initial) ∷ (3, c.port1_initial) ∷ []

-- REG_LED_MODE_P0, REG_LED_MODE_P1, REG_GCR, REG_P0_CONFIG, REG_P1_CONFIG.
abbrev pub modes : Config → List (ℕ × ℕ)
modes c =
    (18, 255)
    ∷ (19, 255)
    ∷ (17, if c.port0_push_pull then 16 else 0)
    ∷ (4, c.port0_inputs)
    ∷ (5, c.port1_inputs)
    ∷ []

-- `configure` from the drive modes on, after the writes of the levels.
abbrev pub set_modes : Bus → Device → Option Report → Status × Log → Done
set_modes bus d report (failed e, log) = conclude stage_preset d report (failed e, log)
set_modes bus d report (ok _, log) =
    conclude stage_configure d report (write_all bus d.dev (modes d.cfg) log)

-- The shadow registers are set to the initial levels.
abbrev pub preset : Device → Device
preset d = record {
  dev = d.dev;
  cfg = d.cfg;
  out0 = d.cfg.port0_initial;
  out1 = d.cfg.port1_initial;
}

-- `configure` behind the read of the part's id.
abbrev pub set_up : Bus → Device → Option Report → Result ℕ × Log → Done
set_up bus d report (failed e, log) = record {
  status = failed e;
  device = d;
  report = blame stage_identify report;
  log = log;
}
set_up bus d report (ok id, log) =
    if not (id == expected_id)
    then record {
      status = failed wrong_part;
      device = d;
      report = blame stage_identify (identified id report);
      log = log;
    }
    else set_modes bus (preset d) (identified id report) (write_all bus d.dev (levels d.cfg) log)

-- `configure`
unfoldable pub configure : Bus → Device → Option Report → Log → Done
configure bus d report log = elim d.dev [
  | none ↦ record {
    status = failed invalid_state;
    device = d;
    report = blame stage_none report;
    log = log;
  }
  | some part ↦ set_up bus d (blame stage_none report) (read8 bus (some part) reg_id log)
]

-- The handle that is stored: none if the part could not be configured.
abbrev pub created : Done → Status × Option Device × Option Report × Log
created done = elim done.status [
  | ok _ ↦ (ok tt, some done.device, done.report, done.log)
  | failed e ↦ (failed e, none, done.report, done.log)
]

-- `aw9523b_create`, of a configuration and of a place for the handle, either of which may be NULL, with the
-- outcome of `calloc`. The handle is the one that is stored, none where it is NULL or nothing is stored.
unfoldable pub create :
    Bus
    → Option Config
    → Bool
    → Bool
    → Option Report
    → Log
    → Status × Option Device × Option Report × Log
create bus none out allocated report log = (failed invalid_arg, none, report, log)
create bus (some cfg) out allocated report log =
    let d : Device = record {
      dev = cfg.dev;
      cfg = cfg;
      out0 = cfg.port0_initial;
      out1 = cfg.port1_initial;
    } in
    if not out
    then (failed invalid_arg, none, report, log)
    else if not allocated
    then (failed no_mem, none, cleared report, log)
    else elim cfg.dev [
      | none ↦ (ok tt, some d, cleared report, log)
      | some part ↦ created (configure bus d (cleared report) log)
    ]

-- `aw9523b_set_device`
unfoldable pub set_device :
    Bus
    → Option Device
    → Option ℕ
    → Option Report
    → Log
    → Status × Option Device × Option Report × Log
set_device bus none dev report log = (failed invalid_arg, none, report, log)
set_device bus (some d) dev report log =
    let moved : Device = record { dev = dev; cfg = d.cfg; out0 = d.out0; out1 = d.out1 } in
    let done = configure bus moved (cleared report) log in
    elim dev [
      | none ↦ (ok tt, some moved, cleared report, log)
      | some part ↦ (done.status, some done.device, done.report, done.log)
    ]
