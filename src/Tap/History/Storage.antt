-- ===== src/Tap/History/Storage.antt =====
-- pour_history.cpp: the checksum, `load_slots`, `writer_task` and `history_point`. The memory
-- layout of the records and the partition driver are parameters.
use keg_scale_espdisplay.Prelude.{
  ℕ, zero, suc, ◌+◌, ◌-◌, ◌*◌, ◌/◌, ◌%◌, min, max, bit_xor, Bool, true, false, not, ◌&&◌, ◌||◌,
  Option, none, some, List, [], ◌∷◌, ltb, leb, ◌==◌, if◌then◌else◌, set, add32,
}
use keg_scale_espdisplay.Tap.History.{
  slot_count, slot_size, max_points, magic, format, PourPoint, Header, no_header, History,
}

-- What the functions ask of the compiler's layout and of the partition: a read gives nothing where
-- its result is not ESP_OK.
pub record Partition : Type 0 where
  pub header_size : ℕ
  pub point_size : ℕ
  pub header_bytes : Header → List ℕ
  pub points_bytes : List PourPoint → List ℕ
  pub read_header : ℕ → Option Header
  pub read_bytes : ℕ → ℕ → Option (List ℕ)
  pub read_point : ℕ → Option PourPoint

unfoldable pub crc_bit : ℕ → ℕ
crc_bit value = bit_xor (value / 2) (if value % 2 == 1 then 3988292384 else 0)

abbrev pub crc_bits : ℕ → ℕ → ℕ
crc_bits zero value = value
crc_bits (suc n) value = crc_bits n (crc_bit value)

abbrev pub crc : List ℕ → ℕ → ℕ
crc [] value = value
crc (b ∷ bytes) value = crc bytes (crc_bits 8 (bit_xor value b))

abbrev pub crc_start : ℕ
crc_start = 4294967295

-- The operations of the partition, with their offset and length.
pub data Write : Type 0 where
  erase : ℕ → ℕ → Write
  write_points : ℕ → ℕ → Write
  write_header : ℕ → ℕ → Write
  write_magic : ℕ → ℕ → Write

-- Which of the four operations of a save return ESP_OK.
pub record Outcome : Type 0 where
  pub erase_ok : Bool
  pub points_ok : Bool
  pub header_ok : Bool
  pub magic_ok : Bool

-- The loop over the slots that are left, from slot `i` on, with the slot so far and its number.
abbrev pub oldest_from : ℕ → ℕ → ℕ → List Header → ℕ
oldest_from i slot id [] = slot
oldest_from i slot id (h ∷ hs) =
    let newer = oldest_from (suc i) slot id hs in
    if ltb h.summary.id id then oldest_from (suc i) i h.summary.id hs else newer

abbrev pub oldest : List Header → ℕ
oldest [] = 0
oldest (h ∷ hs) = oldest_from 1 0 h.summary.id hs

module _ (p : Partition) where
  unfoldable pub valid_header : Header → Bool
  valid_header h =
      h.magic_word == magic
      && h.format_version == format
      && ltb 0 h.count
      && leb h.count max_points
      && h.summary.samples == h.count
      && ltb 0 h.summary.id
      && crc (p.header_bytes (record h { header_crc = 0 })) crc_start == h.header_crc

  -- The loop over the blocks of a slot; each block has at least one byte, so `bytes` rounds do.
  unfoldable pub check_blocks : ℕ → ℕ → ℕ → ℕ → Option ℕ
  check_blocks fuel offset zero check = some check
  check_blocks zero offset (suc bytes) check = none
  check_blocks (suc fuel) offset (suc bytes) check =
      let n = min (suc bytes) 512 in
      elim (p.read_bytes offset n) [
        | none ↦ none
        | some block ↦ check_blocks fuel (offset + n) (suc bytes - n) (crc block check)
      ]

  abbrev pub keep_if : Bool → ℕ → Header → History → History
  keep_if false slot d h = h
  keep_if true slot d h = record h {
    headers = set h.headers slot d;
    next_id = max h.next_id (add32 d.summary.id 1);
  }

  unfoldable pub load_slot : ℕ → History → History
  unfolding valid_header check_blocks add32
  load_slot slot h = elim (p.read_header (slot * slot_size)) [
    | none ↦ h
    | some d ↦
        let bytes = d.count * p.point_size in
        elim (check_blocks bytes (slot * slot_size + p.header_size) bytes crc_start) [
          | none ↦ h
          | some check ↦ keep_if (valid_header d && check == d.data_crc) slot d h
        ]
  ]

  abbrev pub load_from : ℕ → ℕ → History → History
  load_from slot zero h = h
  load_from slot (suc n) h = load_from (suc slot) n (load_slot slot h)

  abbrev pub load_slots : History → History
  load_slots h = load_from 0 slot_count h

  -- `pending` as it is written.
  unfoldable pub sealed : History → Header
  unfolding crc_bit
  sealed h =
      let d = record h.pending {
        magic_word = magic;
        format_version = format;
        data_crc = crc (p.points_bytes h.points) crc_start;
        header_crc = 0;
        summary = record h.pending.summary { id = h.next_id; samples = h.pending.count };
      } in
      record d { header_crc = crc (p.header_bytes d) crc_start }

  -- The operations of a save up to the first that fails.
  unfoldable pub save_writes : Outcome → ℕ → ℕ → List Write
  save_writes r slot count =
      let offset = slot * slot_size in
      erase offset slot_size
      ∷ (if not r.erase_ok
          then []
          else write_points (offset + p.header_size) (count * p.point_size)
            ∷ (if not r.points_ok
                then []
                else write_header (offset + 4) (p.header_size - 4)
                  ∷ (if not r.header_ok then [] else write_magic offset 4 ∷ [])))

  -- One round of `writer_task`, after its notification.
  unfoldable pub save : Outcome → History → History × List Write
  unfolding sealed save_writes add32
  save r h =
      let slot = oldest h.headers in
      let d = sealed h in
      let erased = if r.erase_ok then set h.headers slot no_header else h.headers in
      (
        record h {
          pending = d;
          next_id = add32 h.next_id 1;
          headers =
              if r.erase_ok && r.points_ok && r.header_ok && r.magic_ok
              then set erased slot d
              else erased;
          saving = false;
        },
        save_writes r slot h.pending.count,
      )

  -- The loop of `history_point`, from slot `slot` on.
  abbrev pub point_from : ℕ → ℕ → ℕ → List Header → Option PourPoint
  point_from id index slot [] = none
  point_from id index slot (d ∷ ds) =
      let rest = point_from id index (suc slot) ds in
      if not (d.summary.id == id) || leb d.count index
      then rest
      else p.read_point (slot * slot_size + p.header_size + index * p.point_size)

  abbrev pub history_point : ℕ → ℕ → History → Option PourPoint
  history_point id index h = point_from id index 0 h.headers
