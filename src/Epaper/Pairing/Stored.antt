-- ===== src/Epaper/Pairing/Stored.antt =====
-- pairing.c: what a pairing that was saved gives when it is loaded, and the count of power cycles.
use keg_scale_espdisplay.Prelude.{
  ℕ, zero, suc, ◌+◌, ◌*◌, ◌<◌, ◌≡◌, ◌⊎◌, true, Option, none, some, arith, bit, length,
}
use keg_scale_espdisplay.Epaper.Pairing.{
  Peer, unpaired, Store, Nvs, pairing_load, write_peer, pairing_save, pairing_clear,
  pairing_note_power_cycle,
}

-- The store holds the whole peer.
abbrev pub Stores : Store → Peer → Type 0
Stores s p =
    (s.scale_id ≡ some p.scale_id)
    × (s.address ≡ some p.address)
    × (s.address_type ≡ some p.address_type)

-- Every reading works.
abbrev pub Reads : Nvs → Type 0
Reads n =
    (n.opened ≡ none)
    × (n.get_valid ≡ none)
    × (n.get_scale_id ≡ none)
    × (n.get_address ≡ none)
    × (n.get_address_type ≡ none)

write_peer-Stores :
    (n : Nvs) (p : Peer) (s : Store)
    → ((write_peer n p s).1 ≡ none
        → Stores (write_peer n p s).0 p × ((write_peer n p s).0.valid ≡ some 1))
      × ((Stores (write_peer n p s).0 p × ((write_peer n p s).0.valid ≡ some 1))
          ⊎ ((write_peer n p s).0.valid ≡ s.valid))
unfolding write_peer
write_peer-Stores n p s = ground arith

load-Stores :
    (n : Nvs) (p : Peer) (s : Store)
    → Reads n
    → length p.address ≡ 6
    → Stores s p
    → s.valid ≡ some 1
    → pairing_load n s ≡ (record { paired = true; peer = p }, none)
unfolding pairing_load
load-Stores n p s r l h v = ground (arith, r, h)

-- A pairing that reports ESP_OK is the whole peer; a save that fails at any call leaves the mark of
-- a valid pairing as it was, or has set it after the whole peer.
pub pairing_save-Stores :
    (n : Nvs) (p : Peer) (s : Store)
    → ((pairing_save n p s).1 ≡ none
        → Stores (pairing_save n p s).0 p × ((pairing_save n p s).0.valid ≡ some 1))
      × ((Stores (pairing_save n p s).0 p × ((pairing_save n p s).0.valid ≡ some 1))
          ⊎ ((pairing_save n p s).0.valid ≡ s.valid))
unfolding pairing_save
pairing_save-Stores n p s = ground (arith, write_peer-Stores n p s)

-- What was saved with ESP_OK is loaded again, where the readings work and the address has its six
-- bytes.
pub pairing_load-pairing_save :
    (n m : Nvs) (p : Peer) (s : Store)
    → Reads m
    → length p.address ≡ 6
    → (pairing_save n p s).1 ≡ none
    → pairing_load m (pairing_save n p s).0 ≡ (record { paired = true; peer = p }, none)
pairing_load-pairing_save n m p s r l h =
    let (stores, valid) = (pairing_save-Stores n p s).0 h in
    load-Stores m p (pairing_save n p s).0 r l stores valid

-- After a removal with ESP_OK, unless the namespace never was, nothing is paired.
pub pairing_load-pairing_clear :
    (n m : Nvs) (s : Store)
    → n.opened ≡ none
    → (pairing_clear n s).1 ≡ none
    → m.opened ≡ none
    → pairing_load m (pairing_clear n s).0 ≡ (unpaired, none)
unfolding pairing_load pairing_clear
pairing_load-pairing_clear n m s o h k = ground (arith, o, h, k)

-- The count that is in the store.
abbrev pub cycles_of : Option ℕ → ℕ
cycles_of none = 0
cycles_of (some c) = c

-- The answers of a power cycle that is noted.
abbrev pub Notes : Nvs → Type 0
Notes n = (n.opened ≡ none) × (n.get_cycles ≡ none) × (n.set_cycles ≡ none) × (n.commit ≡ none)

-- `n` power cycles in a row: the store, and how many of them asked for the recovery.
abbrev pub cycles : Nvs → ℕ → Store → Store × ℕ
cycles n zero s = (s, 0)
cycles n (suc k) s =
    let (t, (count, recovery), e) = pairing_note_power_cycle n s in
    let (u, asked) = cycles n k t in (u, asked + bit recovery)

note-answer :
    (n : Nvs) (s : Store)
    → Notes n
    → cycles_of s.power_cycles < 3
    → let c = cycles_of s.power_cycles in
      let (t, (count, recovery), e) = pairing_note_power_cycle n s in
      (e ≡ none)
      × (count ≡ c + 1)
      × (cycles_of t.power_cycles + 3 * bit recovery ≡ c + 1)
      × (cycles_of t.power_cycles < 3)
unfolding pairing_note_power_cycle
note-answer n s h l = ground (arith, h, l)

-- Where NVS works and the count is below 3 at first, each third power cycle in a row asks for the
-- recovery: after `k` of them the count and three times the requests are those from before and `k`,
-- and the count is below 3.
pub cycles-count :
    (n : Nvs) (k : ℕ) (s : Store)
    → Notes n
    → cycles_of s.power_cycles < 3
    → let (t, asked) = cycles n k s in
      (cycles_of t.power_cycles + 3 * asked ≡ cycles_of s.power_cycles + k)
      × (cycles_of t.power_cycles < 3)
cycles-count n zero s h l = (omega arith, l)
cycles-count n (suc k) s h l =
    let (ok, count, next, small) = note-answer n s h l in
    let (sum, below) = cycles-count n k (pairing_note_power_cycle n s).0 h small in
    (omega (arith, sum, next), below)
