-- ===== src/Drivers/Bus.antt =====
-- The I2C bus of driver/i2c_master.h, as the port expanders' drivers use it: `write8` and `read8` of
-- aw9523b/src/aw9523b.c and of pi4ioe5v6408/src/pi4ioe5v6408.c, which are the same in both.
-- The bus is a parameter: it answers a request from all that was requested before.
pub mod Guards
use esp_components.Base.{
  ℕ, Bool, true, false, ◌&&◌, List, [], ◌∷◌, Option, none, some, ◌==◌, if◌then◌else◌, ◌≡◌, refl,
  arith, All,
}

-- The values of `esp_err_t` other than ESP_OK; those of the bus are numbers.
pub data Error : Type 0 where
  invalid_arg invalid_state no_mem wrong_part : Error
  bus_error : ℕ → Error

pub data Result {ℓ} (A : Type ℓ) : Type ℓ where
  ok : A → Result A
  failed : Error → Result A

abbrev pub Status : Type 0
Status = Result Unit

-- A write of a register of a part, or a read.
pub data Request : Type 0 where
  store : ℕ → ℕ → ℕ → Request
  load : ℕ → ℕ → Request

-- No success, with its code, or success with the byte that was read.
pub data Reply : Type 0 where
  nack : ℕ → Reply
  acked : ℕ → Reply

-- What was requested and answered, the last first.
abbrev pub Log : Type 0
Log = List (Request × Reply)

-- `i2c_master_transmit` and `i2c_master_transmit_receive`
abbrev pub Bus : Type 0
Bus = Log → Request → Reply

abbrev pub status_of : Reply → Status
status_of (nack code) = failed (bus_error code)
status_of (acked value) = ok tt

abbrev pub value_of : Reply → Result ℕ
value_of (nack code) = failed (bus_error code)
value_of (acked value) = ok value

-- `write8`
abbrev pub write8 : Bus → Option ℕ → ℕ → ℕ → Log → Status × Log
write8 bus none reg value log = (failed invalid_state, log)
write8 bus (some part) reg value log =
    let reply = bus log (store part reg value) in
    (status_of reply, (store part reg value, reply) ∷ log)

-- `read8`
abbrev pub read8 : Bus → Option ℕ → ℕ → Log → Result ℕ × Log
read8 bus none reg log = (failed invalid_state, log)
read8 bus (some part) reg log =
    let reply = bus log (load part reg) in (value_of reply, (load part reg, reply) ∷ log)

-- `err = write8(…); if (err == ESP_OK) err = write8(…); …`
unfoldable pub write_all : Bus → Option ℕ → List (ℕ × ℕ) → Log → Status × Log
write_all bus dev [] log = (ok tt, log)
write_all bus dev ((reg, value) ∷ rest) log =
    let (status, written) = write8 bus dev reg value log in
    elim status [ ok _ ↦ write_all bus dev rest written | failed e ↦ (failed e, written) ]

-- What a register of a part was last written with, successfully.
abbrev pub latest : ℕ → ℕ → Log → Option ℕ
latest part reg [] = none
latest part reg ((store p r v, acked _) ∷ log) =
    if p == part && r == reg then some v else latest part reg log
latest part reg ((store p r v, nack _) ∷ log) = latest part reg log
latest part reg ((load p r, reply) ∷ log) = latest part reg log

-- What writes leave in a register that held `o`.
abbrev pub settled : List (ℕ × ℕ) → ℕ → Option ℕ → Option ℕ
settled [] reg o = o
settled ((r, v) ∷ rest) reg o = settled rest reg (if r == reg then some v else o)
