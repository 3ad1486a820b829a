-- ===== src/Epaper/TouchWake.antt =====
-- components/touch_wake/touch_wake.c: the touch context and the arming of the wake source. What the
-- touch driver, the clock and the progress callback return is an argument.
use keg_scale_espdisplay.Prelude.{
  ℕ, ◌+◌, ◌-◌, ◌*◌, ◌/◌, Bool, true, false, not, ◌||◌, Option, none, some, ltb, ◌==◌, if◌then◌else◌,
}
use keg_scale_espdisplay.Esp.{Err, invalid_state, is_ok, ◌then_if_ok◌, ◌and_then◌}
pub mod Sampling
pub mod Calibrate
pub mod Stages
pub mod Mean
pub mod Waiting
pub mod Keeping
pub mod Handles
pub mod Outcome
pub mod Touches
pub mod Contract
pub mod Readings
pub mod Success
pub mod Arming
pub mod Examples

abbrev pub touch_wake_gpio : ℕ
touch_wake_gpio = 12

abbrev pub threshold_min_percent : ℕ
threshold_min_percent = 1

abbrev pub threshold_max_percent : ℕ
threshold_max_percent = 50

-- A reading of the channel, or the driver's error.
pub data Reading : Type 0 where
  value : ℕ → Reading
  unread : Err → Reading

-- What the library answers: each call once, or by the number of the call.
pub record Driver : Type 0 where
  pub new_controller : Option Err
  pub new_channel : Option Err
  pub channel_info : Option Err
  pub gpio : ℕ
  pub filter : Option Err
  pub enable : Option Err
  pub scans : ℕ → Option Err
  pub start : Option Err
  pub disable : Option Err
  pub benchmark : Reading
  pub reconfig : Option Err
  pub sleep_config : Option Err
  pub enable_again : Option Err
  -- A conversion and the value that is read after it.
  pub readings : ℕ → Reading
  -- The tick count, whenever it is looked at.
  pub ticks : ℕ → ℕ
  pub hz : ℕ
  pub progress : ℕ → Option Err
  -- The calls that close the handles at the end, whose results the code does not look at.
  pub stop : Option Err
  pub disable_at_end : Option Err
  pub del_channel : Option Err
  pub del_controller : Option Err

-- How often the driver was asked, and the handles that are open: what was created less what was
-- deleted with ESP_OK, and likewise for `enable` and the scanning.
pub record World : Type 0 where
  pub read : ℕ
  pub looked : ℕ
  pub reported : ℕ
  pub controllers : ℕ
  pub channels : ℕ
  pub enables : ℕ
  pub scannings : ℕ

pub record Context : Type 0 where
  pub sensor : Bool
  pub channel : Bool
  pub enabled : Bool
  pub scanning : Bool
  pub threshold : ℕ

abbrev pub no_context : Context
no_context = record {
  sensor = false;
  channel = false;
  enabled = false;
  scanning = false;
  threshold = 0;
}

pub record Touch : Type 0 where
  pub context : Context
  pub world : World

-- What is open after a closing call that gives `answer`: a call that fails leaves the handle open.
abbrev pub close_with : Option Err → ℕ → ℕ
close_with answer count = if is_ok answer then count - 1 else count

-- The deletion of the handles and the cleared context of the error paths.
unfoldable pub drop_context : Driver → Bool → Touch → Touch
drop_context d channel t =
    let w = t.world in
    record {
      context = no_context;
      world = record w {
        channels = if channel then close_with d.del_channel w.channels else w.channels;
        controllers = close_with d.del_controller w.controllers;
      };
    }

unfoldable pub touch_context_create : Driver → World → Touch × Option Err
unfolding drop_context
touch_context_create d w = elim d.new_controller [
  | some e ↦ (record { context = no_context; world = w }, some e)
  | none ↦
      let t₁ : Touch = record {
        context = record no_context { sensor = true; threshold = 1000 };
        world = record w { controllers = w.controllers + 1 };
      } in
      elim d.new_channel [
        | some e ↦ (
          record {
            context = record no_context { threshold = 1000 };
            world = (drop_context d false t₁).world;
          },
          some e,
        )
        | none ↦
            let t₂ : Touch = record {
              context = record no_context { sensor = true; channel = true; threshold = 1000 };
              world = record w { controllers = w.controllers + 1; channels = w.channels + 1 };
            } in
            if not (is_ok d.channel_info) || not (d.gpio == touch_wake_gpio)
            then (
              drop_context d true t₂,
              if is_ok d.channel_info then some invalid_state else d.channel_info,
            )
            else if not (is_ok d.filter)
            then (drop_context d true t₂, d.filter)
            else (t₂, none)
      ]
]

-- `touch_context_destroy`, with the calls that the context asks for. The context is cleared
-- whatever they answer.
unfoldable pub touch_context_destroy : Driver → Touch → Touch
touch_context_destroy d t =
    let c = t.context in
    let w = t.world in
    record {
      context = no_context;
      world = record w {
        scannings = if c.scanning then close_with d.stop w.scannings else w.scannings;
        enables = if c.enabled then close_with d.disable_at_end w.enables else w.enables;
        channels = if c.channel then close_with d.del_channel w.channels else w.channels;
        controllers = if c.sensor then close_with d.del_controller w.controllers else w.controllers;
      };
    }

-- `touch_sensor_enable` and the flag that is set where it succeeds.
unfoldable pub enable_with : Option Err → Touch → Touch × Option Err
enable_with answer t =
    let c = t.context in
    let w = t.world in
    if is_ok answer
    then (
      record {
        context = record c { enabled = true };
        world = record w { enables = w.enables + 1 };
      },
      none,
    )
    else (t, answer)

unfoldable pub start_with : Option Err → Touch → Touch × Option Err
start_with answer t =
    let c = t.context in
    let w = t.world in
    if is_ok answer
    then (
      record {
        context = record c { scanning = true };
        world = record w { scannings = w.scannings + 1 };
      },
      none,
    )
    else (t, answer)

unfoldable pub disable_with : Option Err → Touch → Touch × Option Err
disable_with answer t =
    let c = t.context in
    let w = t.world in
    if is_ok answer
    then (
      record {
        context = record c { enabled = false };
        world = record w { enables = w.enables - 1 };
      },
      none,
    )
    else (t, answer)

-- The scans before the filter is settled; the first error ends them.
abbrev pub initial_scans : Driver → Option Err
initial_scans d = d.scans 0 then_if_ok d.scans 1 then_if_ok d.scans 2

unfoldable pub touch_context_enable : Driver → Bool → Touch → Touch × Option Err
unfolding enable_with start_with
touch_context_enable d continuous t =
    enable_with d.enable t
    and_then (λ t₁. (t₁, initial_scans d))
    and_then (λ t₂. if continuous then start_with d.start t₂ else (t₂, none))

-- `threshold`, of the benchmark and the percentage.
unfoldable pub wake_threshold : ℕ → ℕ → ℕ
wake_threshold untouched percent = untouched * (100 - percent) / 100

unfoldable pub read_benchmark : Driver → Touch → (Touch × ℕ) × Option Err
read_benchmark d t = elim d.benchmark [
  | unread e ↦ ((t, 0), some e)
  | value b ↦ if b == 0 then ((t, b), some invalid_state) else ((t, b), none)
]

unfoldable pub valid_percent : ℕ → ℕ → ℕ
valid_percent default percent =
    if ltb percent threshold_min_percent || ltb threshold_max_percent percent
    then default
    else percent

-- The configured threshold, in the context of the driver's handles.
unfoldable pub configure : Driver → ℕ → ℕ → Touch → Touch × Option Err
unfolding wake_threshold
configure d percent benchmark t =
    let c = t.context in
    (
      record t { context = record c { threshold = wake_threshold benchmark percent } },
      d.reconfig then_if_ok d.sleep_config,
    )

-- What follows the reading of the benchmark.
abbrev pub arm : Driver → ℕ → (Touch × ℕ) × Option Err → Touch × Option Err
arm d percent ((t, benchmark), some e) = (t, some e)
arm d percent ((t, benchmark), none) =
    configure d percent benchmark t
    and_then (λ t₁. enable_with d.enable_again t₁)
    and_then (λ t₂. start_with d.start t₂)

-- The percentage of the configuration and that of the caller.
unfoldable pub touch_wake_prepare : Driver → ℕ → ℕ → World → Touch × Option Err
unfolding touch_context_create touch_context_enable disable_with read_benchmark valid_percent
    configure
touch_wake_prepare d default percent w =
    touch_context_create d w
    and_then (λ t₁. touch_context_enable d false t₁)
    and_then (λ t₂. disable_with d.disable t₂)
    and_then (λ t₃. arm d (valid_percent default percent) (read_benchmark d t₃))
