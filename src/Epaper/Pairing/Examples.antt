-- ===== src/Epaper/Pairing/Examples.antt =====
-- Pairings with a flash that works, and with one whose commit fails.
use keg_scale_espdisplay.Prelude.{◌+◌, ◌*◌, ◌<◌, ◌≡◌, refl, ◌⊎◌, true, none, some, [], ◌∷◌, arith}
use keg_scale_espdisplay.Esp.{no_mem, nvs_not_found}
use keg_scale_espdisplay.Epaper.Pairing.{
  Peer, unpaired, empty_store, Nvs, pairing_load, pairing_save,
}
use keg_scale_espdisplay.Epaper.Pairing.Stored.{
  Stores, pairing_save-Stores, pairing_load-pairing_save, cycles_of, cycles, cycles-count,
}

abbrev working : Nvs
working = record {
  opened = none;
  get_valid = none;
  get_scale_id = none;
  get_address = none;
  get_address_type = none;
  get_cycles = none;
  set_scale_id = none;
  set_address = none;
  set_address_type = none;
  set_valid = none;
  erase_passkey = some nvs_not_found;
  erase_all = none;
  set_cycles = none;
  commit = none;
}

abbrev some_scale : Peer
some_scale = record { scale_id = 75 ∷ []; address = 1 ∷ 2 ∷ 3 ∷ 4 ∷ 5 ∷ 6 ∷ []; address_type = 1 }

pairing_load-empty : pairing_load working empty_store ≡ (unpaired, none)
unfolding pairing_load
pairing_load-empty = refl

pairing_load-incomplete :
    pairing_load working (record empty_store { valid = some 1; scale_id = some (75 ∷ []) })
    ≡ (unpaired, some nvs_not_found)
unfolding pairing_load
pairing_load-incomplete = refl

pairing_save-full_flash :
    pairing_save (record working { set_address_type = some no_mem }) some_scale empty_store ≡ (
      record empty_store { scale_id = some some_scale.scale_id; address = some some_scale.address },
      some no_mem,
    )
unfolding pairing_save
pairing_save-full_flash = refl

third_cycle : (cycles working 3 empty_store).1 ≡ 1
unfolding keg_scale_espdisplay.Epaper.Pairing.pairing_note_power_cycle
third_cycle = refl

pairing_save-Stores_example :
    ((pairing_save working some_scale empty_store).1 ≡ none
      → Stores (pairing_save working some_scale empty_store).0 some_scale
        × ((pairing_save working some_scale empty_store).0.valid ≡ some 1))
    × ((Stores (pairing_save working some_scale empty_store).0 some_scale
          × ((pairing_save working some_scale empty_store).0.valid ≡ some 1))
        ⊎ ((pairing_save working some_scale empty_store).0.valid ≡ empty_store.valid))
pairing_save-Stores_example = pairing_save-Stores working some_scale empty_store

pairing_load-pairing_save_example :
    pairing_load working (pairing_save working some_scale empty_store).0
    ≡ (record { paired = true; peer = some_scale }, none)
unfolding pairing_save
pairing_load-pairing_save_example =
    pairing_load-pairing_save working working some_scale empty_store (refl, refl, refl, refl, refl)
      refl refl

cycles-count_example :
    let (t, asked) = cycles working 7 empty_store in
    (cycles_of t.power_cycles + 3 * asked ≡ 0 + 7) × (cycles_of t.power_cycles < 3)
cycles-count_example = cycles-count working 7 empty_store (refl, refl, refl, refl) (omega arith)
