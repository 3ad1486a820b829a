-- ===== src/Epaper/TouchWake/Stages.antt =====
-- touch_wake.c, `touch_wake_calibrate`: what every stage keeps, and where they all succeed.
use keg_scale_espdisplay.Prelude.{ℕ}
use keg_scale_espdisplay.Esp.{◌and_then◌, and_then-keeps}
use keg_scale_espdisplay.Epaper.TouchWake.{Driver}
use keg_scale_espdisplay.Epaper.TouchWake.Calibrate.{
  Run, measure_baseline, touch_and_hold, measure_touch, release, verify_tap, stages,
}

module _ (d : Driver) where
  -- What every stage keeps holds where they end.
  pub stages-keeps :
      (P : Run → Type 0)
      → ((r : Run) → P r → P (measure_baseline d r).0)
      → ((r : Run) → P r → P (touch_and_hold d r).0)
      → ((r : Run) → P r → P (measure_touch d r).0)
      → ((r : Run) → P r → P (release d r).0)
      → ((tap : ℕ) (r : Run) → P r → P (verify_tap d tap r).0)
      → (r : Run) → P r
      → P (stages d r).0
  unfolding stages
  stages-keeps P baseline hold touched released tapped r h =
      let r₁ = measure_baseline d r in
      let r₂ = r₁ and_then (λ r. touch_and_hold d r) in
      let r₃ = r₂ and_then (λ r. measure_touch d r) in
      let r₄ = r₃ and_then (λ r. release d r) in
      let r₅ = r₄ and_then (λ r. verify_tap d 0 r) in
      let r₆ = r₅ and_then (λ r. verify_tap d 1 r) in
      let h₂ = and_then-keeps P r₁ (λ r. touch_and_hold d r) (baseline r h) hold in
      let h₃ = and_then-keeps P r₂ (λ r. measure_touch d r) h₂ touched in
      let h₄ = and_then-keeps P r₃ (λ r. release d r) h₃ released in
      let h₅ = and_then-keeps P r₄ (λ r. verify_tap d 0 r) h₄ (tapped 0) in
      let h₆ = and_then-keeps P r₅ (λ r. verify_tap d 1 r) h₅ (tapped 1) in
      and_then-keeps P r₆ (λ r. verify_tap d 2 r) h₆ (tapped 2)
