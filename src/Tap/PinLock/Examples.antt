-- ===== src/Tap/PinLock/Examples.antt =====
-- A lock with the PIN 1234, over a hash that is the identity.
use keg_scale_espdisplay.Prelude.{
  ℕ, ◌+◌, ◌≤◌, ◌≡◌, refl, inl, true, false, Option, some, List, [], ◌∷◌, arith,
}
use keg_scale_espdisplay.Tap.PinLock.{
  ok, wait, zero_record, PinLock, valid, unreadable, blob, unlocked_empty, init, matches, check,
  unlock, change,
}
use keg_scale_espdisplay.Tap.PinLock.Checks.{IsRight, check-IsRight}
use keg_scale_espdisplay.Tap.PinLock.Access.{
  unlocks, step, run, Opens, step-closed, init-damaged, unlock-change,
}
use keg_scale_espdisplay.Tap.PinLock.Guessing.{tries, tries-le}

abbrev plain : List ℕ → Option (List ℕ)
plain xs = some xs

abbrev pin_1234 : List ℕ
pin_1234 = b'1' ∷ b'2' ∷ b'3' ∷ b'4' ∷ []

abbrev pin_0000 : List ℕ
pin_0000 = b'0' ∷ b'0' ∷ b'0' ∷ b'0' ∷ []

abbrev fresh_lock : PinLock
fresh_lock = record unlocked_empty { failed_at = 0 }

abbrev with_pin : PinLock
with_pin = record unlocked_empty {
  saved = record zero_record { salt = []; digest = pin_1234 };
  enabled = true;
  closed = true;
}

change_installs : change plain [] pin_1234 [] true 10 fresh_lock ≡ (with_pin, ok)
unfolding change valid
change_installs = refl

five_guesses_wait :
    (check plain pin_0000 50
      (check plain pin_0000 40
        (check plain pin_0000 30
          (check plain pin_0000 20 (check plain pin_0000 10 with_pin).0).0).0).0).1
    ≡ wait
unfolding check matches
five_guesses_wait = refl

check-IsRight_example : (with_pin.storage_ok ≡ true) × IsRight plain with_pin pin_1234
unfolding check matches
check-IsRight_example = check-IsRight plain pin_1234 10 with_pin refl

step-closed_example : (with_pin.storage_ok ≡ true) × Opens plain with_pin (unlocks pin_1234)
unfolding step unlock matches
step-closed_example = step-closed plain with_pin (unlocks pin_1234) 10 refl refl

init-damaged_example :
    ((run plain (init unreadable 0) ((unlocks pin_1234, 5) ∷ [])).closed ≡ true)
    × ((run plain (init (blob 51 zero_record) 0) ((unlocks pin_1234, 5) ∷ [])).closed ≡ true)
init-damaged_example =
    init-damaged plain ((unlocks pin_1234, 5) ∷ []) 51 zero_record 0 (inl (omega arith))

unlock-change_example :
    let s' = (change plain [] pin_1234 [] true 10 fresh_lock).0 in
    (s'.closed ≡ true)
    × ((unlock plain pin_1234 99 s').1 ≡ ok)
    × ((unlock plain pin_1234 99 s').0.closed ≡ false)
unfolding change valid
unlock-change_example = unlock-change plain [] pin_1234 [] true 10 99 fresh_lock refl

tries-le_example :
    tries plain ((pin_0000, 10) ∷ (pin_0000, 20) ∷ []) with_pin + with_pin.failures ≤ 5
unfolding matches
tries-le_example =
    tries-le plain ((pin_0000, 10) ∷ (pin_0000, 20) ∷ []) with_pin 0 refl (omega arith)
      (omega arith) (refl, omega arith, omega arith, (refl, omega arith, omega arith, tt))
