-- ===== src/Epaper/TouchWake/Arming.antt =====
-- touch_wake.c, `touch_wake_prepare`: the wake source that it arms.
use native.Mathlib.Nat.{mul-le-mul_left}
use keg_scale_espdisplay.Prelude.{
  ℕ, ◌-◌, ◌≤◌, ◌<◌, ◌≡◌, refl, ◌∙◌, true, false, Option, none, some, arith,
}
use keg_scale_espdisplay.Esp.{Err, ◌and_then◌, and_then-ran}
use keg_scale_espdisplay.Epaper.TouchWake.{
  value, Driver, World, Touch, touch_context_create, enable_with, start_with, disable_with,
  touch_context_enable, wake_threshold, read_benchmark, valid_percent, configure, arm,
  touch_wake_prepare,
}

start_with-ran :
    (answer : Option Err) (t u : Touch)
    → start_with answer t ≡ (u, none)
    → (u.context.scanning ≡ true)
      × (u.context.enabled ≡ t.context.enabled)
      × (u.context.threshold ≡ t.context.threshold)
unfolding start_with
start_with-ran answer t u h = ground (arith, h)

enable_with-ran :
    (answer : Option Err) (t u : Touch)
    → enable_with answer t ≡ (u, none)
    → (u.context.enabled ≡ true) × (u.context.threshold ≡ t.context.threshold)
unfolding enable_with
enable_with-ran answer t u h = ground (arith, h)

configure-ran :
    (d : Driver) (percent benchmark : ℕ) (t u : Touch)
    → configure d percent benchmark t ≡ (u, none)
    → u.context.threshold ≡ wake_threshold benchmark percent
unfolding configure
configure-ran d percent benchmark t u h = ground (arith, h)

read_benchmark-ran :
    (d : Driver) (t u : Touch) (b : ℕ)
    → read_benchmark d t ≡ ((u, b), none)
    → (d.benchmark ≡ value b) × (0 < b)
unfolding read_benchmark
read_benchmark-ran d t u b h = ground (arith, h)

-- What the armed sensor compares with.
abbrev pub Armed : Driver → ℕ → Touch → Type 0
Armed d percent t =
    (b : ℕ) × (d.benchmark ≡ value b)
    × (0 < b)
    × (t.context.threshold ≡ wake_threshold b percent)
    × (t.context.enabled ≡ true)
    × (t.context.scanning ≡ true)

arm-Armed :
    (d : Driver) (percent : ℕ) (t v : Touch) (x : (Touch × ℕ) × Option Err)
    → read_benchmark d t ≡ x
    → arm d percent x ≡ (v, none)
    → Armed d percent v
arm-Armed d percent t v ((u, b), some e) r h = absurd (ground (arith, h))
arm-Armed d percent t v ((u, b), none) r h =
    let configured = configure d percent b u in
    let enabled = configured and_then (λ t₁. enable_with d.enable_again t₁) in
    let (t₂, e₂, started) = and_then-ran enabled (λ t₂. start_with d.start t₂) v h in
    let (t₁, e₁, on) = and_then-ran configured (λ t₁. enable_with d.enable_again t₁) t₂ e₂ in
    let (scanning, kept, threshold) = start_with-ran d.start t₂ v started in
    let (is_on, threshold₁) = enable_with-ran d.enable_again t₁ t₂ on in
    let (read, positive) = read_benchmark-ran d t u b r in
    (
      b,
      read,
      positive,
      threshold ∙ threshold₁ ∙ configure-ran d percent b u t₁ e₁,
      kept ∙ is_on,
      scanning,
    )

-- An arming that reports ESP_OK has read a benchmark above 0, scans, and wakes at the benchmark
-- less the caller's percentage, or that of the configuration where the caller's is out of range.
pub touch_wake_prepare-Armed :
    (d : Driver) (default percent : ℕ) (w : World) (t : Touch)
    → touch_wake_prepare d default percent w ≡ (t, none)
    → Armed d (valid_percent default percent) t
unfolding touch_wake_prepare
touch_wake_prepare-Armed d default percent w t h =
    let created = touch_context_create d w in
    let enabled = created and_then (λ t₁. touch_context_enable d false t₁) in
    let paused = enabled and_then (λ t₂. disable_with d.disable t₂) in
    let p = valid_percent default percent in
    let (t₃, e₃, armed) = and_then-ran paused (λ t₃. arm d p (read_benchmark d t₃)) t h in
    arm-Armed d p t₃ t (read_benchmark d t₃) refl armed

-- The level that wakes lies below the benchmark.
pub wake_threshold-lt : (b percent : ℕ) → 0 < b → 1 ≤ percent → wake_threshold b percent < b
unfolding wake_threshold
wake_threshold-lt b percent h k =
    let most : 100 - percent ≤ 99 = omega (arith, k) in omega (arith, h, mul-le-mul_left b most)
