-- ===== src/Drivers/Nau7802/Setters.antt =====
-- nau7802/src/nau7802.c: the settings of the analog path, by their values in the registers.
use esp_components.Base.{
  ℕ, ◌*◌, ◌/◌, ◌^◌, ◌%◌, Bool, not, List, [], ◌∷◌, Option, none, some, if◌then◌else◌, bit_and,
  get_elem?,
}
use esp_components.Drivers.Nau7802.{
  Error, invalid_arg, invalid_state, Result, ok, failed, Log, Bus, Handle, has, reg_ctrl1,
  reg_ctrl2, read_reg,
}
use esp_components.Drivers.Nau7802.Lifecycle.{ChangeReport, Done, unchanged, set_field}

abbrev pub gain_values : List (Option ℕ)
gain_values = some 1 ∷ some 2 ∷ some 4 ∷ some 8 ∷ some 16 ∷ some 32 ∷ some 64 ∷ some 128 ∷ []

-- -1 in the source is none.
abbrev pub rate_values : List (Option ℕ)
rate_values = some 10 ∷ some 20 ∷ some 40 ∷ some 80 ∷ none ∷ none ∷ none ∷ some 320 ∷ []

abbrev pub entry : Option (Option ℕ) → Option ℕ
entry none = none
entry (some value) = value

-- `nau7802_gain_value`, `nau7802_rate_sps`
abbrev pub gain_value : ℕ → Option ℕ
gain_value gain = entry (get_elem? gain_values gain)

abbrev pub rate_sps : ℕ → Option ℕ
rate_sps rate = entry (get_elem? rate_values rate)

-- What a caller may set.
pub data Setting : Type 0 where
  gain rate : ℕ → Setting
  channel_b ldomode pga_cap : Bool → Setting

module _ {R : Type 0} (zero_float : R) (bus : Bus) where
  -- `nau7802_set_gain`
  unfoldable pub change_gain : ℕ → Handle R → Log → Done R ChangeReport
  change_gain value h log = elim (gain_value value) [
    | none ↦ unchanged zero_float bus invalid_arg h log
    | some times ↦ set_field zero_float bus h reg_ctrl1 0x07 (value % 256) log
  ]

  -- `nau7802_set_rate`
  unfoldable pub change_rate : ℕ → Handle R → Log → Done R ChangeReport
  change_rate value h log = elim (rate_sps value) [
    | none ↦ unchanged zero_float bus invalid_arg h log
    | some sps ↦ set_field zero_float bus h reg_ctrl2 0x70 (value * 2 ^ 4 % 256) log
  ]

  -- `nau7802_set_gain`, `nau7802_set_rate`, `nau7802_set_channel`, `nau7802_set_ldomode`, `nau7802_set_pga_cap`
  unfoldable pub change : Setting → Handle R → Log → Done R ChangeReport
  unfolding change_gain change_rate
  change (gain value) h log = change_gain value h log
  change (rate value) h log = change_rate value h log
  change (channel_b on) h log = set_field zero_float bus h reg_ctrl2 128 (if on then 128 else 0) log
  change (ldomode on) h log = set_field zero_float bus h 0x1B 64 (if on then 64 else 0) log
  change (pga_cap on) h log = set_field zero_float bus h 0x1C 128 (if on then 128 else 0) log

  -- `get_reg_checked`
  abbrev pub get_reg_checked : Handle R → ℕ → Log → Result Error ℕ × Log
  get_reg_checked h reg log =
      if not h.ready then (failed invalid_state, log) else read_reg bus h.dev reg log

  abbrev pub map_result : {A : Type 0} → (ℕ → A) → Result Error ℕ × Log → Result Error A × Log
  map_result f (ok value, log) = (ok (f value), log)
  map_result f (failed e, log) = (failed e, log)

  -- `nau7802_get_gain`, `nau7802_get_rate`, `nau7802_get_channel`, `nau7802_get_ldomode`, `nau7802_get_pga_cap`
  unfoldable pub get_gain : Handle R → Log → Result Error ℕ × Log
  get_gain h log = map_result (λ (v : ℕ). bit_and v 0x07) (get_reg_checked h reg_ctrl1 log)

  unfoldable pub get_rate : Handle R → Log → Result Error ℕ × Log
  get_rate h log = map_result (λ (v : ℕ). bit_and v 0x70 / 2 ^ 4) (get_reg_checked h reg_ctrl2 log)

  unfoldable pub get_channel : Handle R → Log → Result Error Bool × Log
  get_channel h log = map_result (has 128) (get_reg_checked h reg_ctrl2 log)

  unfoldable pub get_ldomode : Handle R → Log → Result Error Bool × Log
  get_ldomode h log = map_result (has 64) (get_reg_checked h 0x1B log)

  unfoldable pub get_pga_cap : Handle R → Log → Result Error Bool × Log
  get_pga_cap h log = map_result (has 128) (get_reg_checked h 0x1C log)
