-- ===== src/Drivers/Pi4ioe5v6408.antt =====
-- pi4ioe5v6408/src/pi4ioe5v6408.c: the driver of the PI4IOE5V6408 port expander. A handle or a pointer that may be NULL is
-- an Option, or a Bool where only that matters; the device handle of the bus is the part's number.
pub mod Setup
pub mod Ports
mod Tests
use mathlib.Core.Option
use esp_components.Base.{
  bit_and, ◌-◌, ℕ, ◌*◌, ◌^◌, Bool, true, false, not, ◌&&◌, ◌||◌, List, [], ◌∷◌, Option, none, some,
  ltb, ◌==◌, if◌then◌else◌,
}
use esp_components.Drivers.Bus.{
  Error, invalid_arg, invalid_state, no_mem, wrong_part, Result, ok, failed, Status, Log, Bus,
  write8, read8, write_all,
}
use esp_components.Drivers.Pins.{with_pin, pin_of}

-- `pi4ioe5v6408_config_t`
pub record Config : Type 0 where
  pub dev : Option ℕ
  pub outputs : ℕ
  pub initial : ℕ
  pub pull_enable : ℕ
  pub pull_up : ℕ
  pub interrupt_on : ℕ

-- `pi4ioe5v6408_stage_t`
pub data Stage : Type 0 where
  stage_none stage_identify stage_preset stage_configure : Stage

-- `pi4ioe5v6408_report_t`
pub record Report : Type 0 where
  pub failed_stage : Stage
  pub control_register : ℕ

-- `struct pi4ioe5v6408_dev_t`
pub record Device : Type 0 where
  pub dev : Option ℕ
  pub cfg : Config
  pub out : ℕ

-- `REG_CONTROL`, `CONTROL_DEVICE_ID` and its mask
abbrev pub reg_control : ℕ
reg_control = 1

abbrev pub expected_id : ℕ
expected_id = 160

abbrev pub id_mask : ℕ
id_mask = 252

-- `memset(report, 0, sizeof(*report))`
abbrev pub cleared : Option Report → Option Report
cleared = Option.map (λ (r : Report). record { failed_stage = stage_none; control_register = 0 })

-- `fail`, and the assignments to a report that may be NULL.
abbrev pub blame : Stage → Option Report → Option Report
blame stage =
    Option.map
      (λ (r : Report). record { failed_stage = stage; control_register = r.control_register })

abbrev pub identified : ℕ → Option Report → Option Report
identified id =
    Option.map (λ (r : Report). record { failed_stage = r.failed_stage; control_register = id })

-- What `configure` leaves.
pub record Done : Type 0 where
  pub status : Status
  pub device : Device
  pub report : Option Report
  pub log : Log

-- `if (err != ESP_OK) return fail(report, stage, err);` behind a sequence of writes, and at the end.
abbrev pub conclude : Stage → Device → Option Report → Status × Log → Done
conclude stage d report (ok _, log) = record {
  status = ok tt;
  device = d;
  report = report;
  log = log;
}
conclude stage d report (failed e, log) = record {
  status = failed e;
  device = d;
  report = blame stage report;
  log = log;
}

-- The output levels: REG_OUTPUT.
abbrev pub levels : Config → List (ℕ × ℕ)
levels c = (5, c.initial) ∷ []

-- REG_OUTPUT_HI_Z, REG_DIRECTION, REG_PULL_ENABLE, REG_PULL_SELECT, REG_INT_MASK; `(uint8_t)~x` is 255 - x.
abbrev pub modes : Config → List (ℕ × ℕ)
modes c =
    (7, 255 - c.outputs)
    ∷ (3, c.outputs)
    ∷ (11, c.pull_enable)
    ∷ (13, c.pull_up)
    ∷ (17, 255 - c.interrupt_on)
    ∷ []

-- `configure` from the high impedance on, after the writes of the levels.
abbrev pub set_modes : Bus → Device → Option Report → Status × Log → Done
set_modes bus d report (failed e, log) = conclude stage_preset d report (failed e, log)
set_modes bus d report (ok _, log) =
    conclude stage_configure d report (write_all bus d.dev (modes d.cfg) log)

-- The shadow register is set to the initial levels.
abbrev pub preset : Device → Device
preset d = record { dev = d.dev; cfg = d.cfg; out = d.cfg.initial }

-- `configure` behind the read of the control register.
abbrev pub set_up : Bus → Device → Option Report → Result ℕ × Log → Done
set_up bus d report (failed e, log) = record {
  status = failed e;
  device = d;
  report = blame stage_identify report;
  log = log;
}
set_up bus d report (ok id, log) =
    if not (bit_and id id_mask == expected_id)
    then record {
      status = failed wrong_part;
      device = d;
      report = blame stage_identify (identified id report);
      log = log;
    }
    else set_modes bus (preset d) (identified id report) (write_all bus d.dev (levels d.cfg) log)

-- `configure`
unfoldable pub configure : Bus → Device → Option Report → Log → Done
configure bus d report log = elim d.dev [
  | none ↦ record {
    status = failed invalid_state;
    device = d;
    report = blame stage_none report;
    log = log;
  }
  | some part ↦ set_up bus d (blame stage_none report) (read8 bus (some part) reg_control log)
]

-- The handle that is stored: none if the part could not be configured.
abbrev pub created : Done → Status × Option Device × Option Report × Log
created done = elim done.status [
  | ok _ ↦ (ok tt, some done.device, done.report, done.log)
  | failed e ↦ (failed e, none, done.report, done.log)
]

-- `pi4ioe5v6408_create`, of a configuration and of a place for the handle, either of which may be NULL, with the
-- outcome of `calloc`. The handle is the one that is stored, none where it is NULL or nothing is stored.
unfoldable pub create :
    Bus
    → Option Config
    → Bool
    → Bool
    → Option Report
    → Log
    → Status × Option Device × Option Report × Log
create bus none out allocated report log = (failed invalid_arg, none, report, log)
create bus (some cfg) out allocated report log =
    let d : Device = record { dev = cfg.dev; cfg = cfg; out = cfg.initial } in
    if not out
    then (failed invalid_arg, none, report, log)
    else if not allocated
    then (failed no_mem, none, cleared report, log)
    else elim cfg.dev [
      | none ↦ (ok tt, some d, cleared report, log)
      | some part ↦ created (configure bus d (cleared report) log)
    ]

-- `pi4ioe5v6408_set_device`
unfoldable pub set_device :
    Bus
    → Option Device
    → Option ℕ
    → Option Report
    → Log
    → Status × Option Device × Option Report × Log
set_device bus none dev report log = (failed invalid_arg, none, report, log)
set_device bus (some d) dev report log =
    let moved : Device = record { dev = dev; cfg = d.cfg; out = d.out } in
    let done = configure bus moved (cleared report) log in
    elim dev [
      | none ↦ (ok tt, some moved, cleared report, log)
      | some part ↦ (done.status, some done.device, done.report, done.log)
    ]
