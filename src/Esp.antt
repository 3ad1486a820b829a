-- ===== src/Esp.antt =====
-- The values of `esp_err_t` that the source names or passes on. `none` is ESP_OK.
use keg_scale_espdisplay.Prelude.{ℕ, ◌≡◌, refl, Bool, true, false, Option, none, some, arith}

pub data Err : Type 0 where
  fail no_mem invalid_arg invalid_state invalid_size : Err
  not_found timeout invalid_response invalid_crc not_supported : Err
  nvs_not_found invalid_version : Err
  other : ℕ → Err

abbrev pub is_ok : Option Err → Bool
is_ok none = true
is_ok (some e) = false

-- `if (err == ESP_OK) err = ...`: what follows counts where nothing failed before it.
infixr 5 ◌then_if_ok◌
abbrev pub ◌then_if_ok◌ : Option Err → Option Err → Option Err
none then_if_ok e = e
some e then_if_ok e' = some e

-- What follows runs where nothing failed before it.
infixl 4 ◌and_then◌
abbrev pub ◌and_then◌ {ℓ} : {A : Type ℓ} → A × Option Err → (A → A × Option Err) → A × Option Err
(a, none) and_then f = f a
(a, some e) and_then f = (a, some e)

module _ {ℓ κ} {A : Type ℓ} (P : A → Type κ) where
  -- What every step keeps, the sequence keeps, wherever it ends.
  pub and_then-keeps :
      (x : A × Option Err) (f : A → A × Option Err)
      → P x.0
      → ((a : A) → P a → P (f a).0)
      → P (x and_then f).0
  and_then-keeps (a, none) f h k = k a h
  and_then-keeps (a, some e) f h k = h

-- A sequence without an error ran to its end.
pub and_then-ran {ℓ} :
    {A : Type ℓ} (x : A × Option Err) (f : A → A × Option Err) (b : A)
    → (x and_then f) ≡ (b, none)
    → (a : A) × (x ≡ (a, none)) × (f a ≡ (b, none))
and_then-ran (a, none) f b h = (a, refl, h)
and_then-ran (a, some e) f b h = absurd (ground (arith, h))
