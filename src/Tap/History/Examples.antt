-- ===== src/Tap/History/Examples.antt =====
-- One pour from its first reading to its save.
use keg_scale_espdisplay.Prelude.{
  ℕ, ◌+◌, ◌-◌, ◌*◌, ◌%◌, ◌≡◌, refl, inl, Bool, true, false, none, some, List, [], ◌∷◌, map, arith,
  length, take, replicate,
}
use keg_scale_espdisplay.Tap.Control.{fill_target}
use keg_scale_espdisplay.Tap.Control.Examples.{calibrated, reading}
use keg_scale_espdisplay.Tap.History.{
  PourSummary, History, new_history, Observation, history_observe, history_list,
}
use keg_scale_espdisplay.Tap.History.Storage.{
  Partition, crc, crc_start, Outcome, check_blocks, sealed, save,
}
use keg_scale_espdisplay.Tap.History.Points.{WellFormed, history_observe-WellFormed}
use keg_scale_espdisplay.Tap.History.Recording.{Handed, history_observe-end}
use keg_scale_espdisplay.Tap.History.Retention.{history_list-newest}
use keg_scale_espdisplay.Tap.History.Blocks.{drop, Holds, check_blocks-crc}

abbrev observed : ℕ → ℕ → Bool → Observation
observed n mm pouring = record {
  s = reading n mm;
  c = calibrated;
  now = 100 * n + 10;
  servo = 1600;
  pouring = pouring;
  hold = false;
  button = false;
  reason = fill_target;
  available = true;
  version = 49 ∷ 46 ∷ 50 ∷ [];
}

abbrev stored : List ℕ
stored = replicate 700 7

-- A partition of 700 bytes that are all 7, with no valid header.
abbrev blank : Partition
blank = record {
  header_size = 200;
  point_size = 24;
  header_bytes = λ d. d.magic_word ∷ d.count ∷ d.summary.id ∷ [];
  points_bytes = λ ps. map (λ x. x.mm % 256) ps;
  read_header = λ offset. none;
  read_bytes = λ offset n. some (take n (drop offset stored));
  read_point = λ offset. none;
}

abbrev all_ok : Outcome
all_ok = record { erase_ok = true; points_ok = true; header_ok = true; magic_ok = true }

abbrev during : History
during = history_observe (observed 3 280 true) (history_observe (observed 1 300 true) new_history)

abbrev ended : History
ended = history_observe (observed 8 90 false) during

-- 200 ms after the first point no other is stored, and the end stores one.
ended-points : (length during.points ≡ 1) × (length ended.points ≡ 2) × (ended.saving ≡ true)
unfolding history_observe
ended-points = (refl, refl, refl)

-- IEEE 802.3: the reflected polynomial, without the last inversion, on "123456789".
crc-check :
    crc (49 ∷ 50 ∷ 51 ∷ 52 ∷ 53 ∷ 54 ∷ 55 ∷ 56 ∷ 57 ∷ []) crc_start ≡ 4294967295 - 3421780262
unfolding keg_scale_espdisplay.Tap.History.Storage.crc_bit
crc-check = refl

new_history-WellFormed : WellFormed new_history
new_history-WellFormed = record { one = inl refl; filled = λ h. ground arith }

during-WellFormed : WellFormed during
during-WellFormed =
    history_observe-WellFormed (observed 3 280 true)
      (history_observe (observed 1 300 true) new_history)
      (history_observe-WellFormed (observed 1 300 true) new_history new_history-WellFormed)

history_observe-end_example :
    Handed
      (observed 1 300 true)
      (observed 8 90 false)
      (history_observe (observed 8 90 false) during)
history_observe-end_example =
    history_observe-end new_history (observed 1 300 true) (observed 3 280 true ∷ [])
      (observed 8 90 false) refl refl refl refl (refl, tt) refl refl

history_list-newest_example :
    (ts : List PourSummary) × (history_list (save blank all_ok ended).0
      ≡ (sealed blank ended).summary ∷ ts)
unfolding history_observe
history_list-newest_example =
    history_list-newest blank all_ok ended (refl, refl, refl, refl) (omega arith) (omega arith)
      (omega arith, (omega arith, (omega arith, (omega arith, (omega arith, (omega arith, tt))))))

stored-Holds : Holds blank 0 stored
stored-Holds i n h = let e : 0 + i ≡ i = omega arith in rw e refl

check_blocks-crc_example :
    check_blocks blank 700 0 (length stored) crc_start ≡ some (crc stored crc_start)
check_blocks-crc_example = check_blocks-crc blank 700 0 stored crc_start (omega arith) stored-Holds
