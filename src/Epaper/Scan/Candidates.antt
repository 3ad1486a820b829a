-- ===== src/Epaper/Scan/Candidates.antt =====
-- ble_client.c: the candidates of a scan fit in the caller's array, and no address stands twice.
use keg_scale_espdisplay.Prelude.{
  ℕ, ◌+◌, ◌≤◌, bit_and, ◌≡◌, refl, sym, ◌∙◌, subst, inl, inr, Bool, true, false, not, ◌&&◌, ◌||◌,
  Option, none, some, List, [], ◌∷◌, arith, ltb, ◌==◌, bit, Bool-cases, length, All, same_text,
}
use keg_scale_espdisplay.Epaper.Scan.{
  Address, Candidate, Advertisement, same_address, service_matches, is_scale_name, new_candidate,
  with_candidate, note_ip, note_flags, note_mfg_data, note_name, note, on_advertisement,
}

-- No two candidates have the same address.
abbrev pub Distinct : List Candidate → Type 0
Distinct [] = Unit
Distinct (c ∷ items) =
    All (λ (k : Candidate). same_address k.address c.address ≡ false) items × Distinct items

same_text-swap : (cs ds : List ℕ) → same_text cs ds ≡ same_text ds cs
same_text-swap [] [] = refl
same_text-swap [] (d ∷ ds) = refl
same_text-swap (c ∷ cs) [] = refl
same_text-swap (c ∷ cs) (d ∷ ds) = ground (arith, same_text-swap cs ds)

same_address-swap : (a b : Address) → same_address a b ≡ same_address b a
same_address-swap a b = ground (arith, same_text-swap a.bytes b.bytes)

note_ip-address : (bytes : List ℕ) (k : Candidate) → (note_ip bytes k).address ≡ k.address
note_ip-address bytes k = ground arith

note_flags-address :
    (flags : ℕ) (bytes : List ℕ) (k : Candidate) → (note_flags flags bytes k).address ≡ k.address
unfolding note_flags
note_flags-address flags bytes k =
    let noted = record k { pairing_mode = not (bit_and flags 1 == 0) } in
    ground (arith, note_ip-address bytes noted)

note_mfg_data-address :
    (data_ : Option (List ℕ)) (k : Candidate) → (note_mfg_data data_ k).address ≡ k.address
note_mfg_data-address (some (m ∷ n ∷ v ∷ flags ∷ bytes)) k =
    ground (arith, note_flags-address flags bytes k)
note_mfg_data-address (some (m ∷ n ∷ v ∷ [])) k = refl
note_mfg_data-address (some (m ∷ n ∷ [])) k = refl
note_mfg_data-address (some (m ∷ [])) k = refl
note_mfg_data-address (some []) k = refl
note_mfg_data-address none k = refl

note_name-address :
    (named : Bool) (name : Option (List ℕ)) (k : Candidate)
    → (note_name named name k).address ≡ k.address
note_name-address named name k = ground arith

note-address : (e : Advertisement) (k : Candidate) → (note e k).address ≡ k.address
unfolding note
note-address e k =
    let seen : Candidate = record k {
      rssi = e.rssi;
      service_seen = service_matches e.uuids || k.service_seen;
    } in
    note_name-address (is_scale_name e.name) e.name (note_mfg_data e.mfg_data seen)
    ∙ note_mfg_data-address e.mfg_data seen

module _ (a : Address) (change : Candidate → Candidate)
    (keeps : (k : Candidate) → (change k).address ≡ k.address) where
  with_candidate-All :
      (P : Address → Type 0) (room : Bool) (items : List Candidate)
      → P a
      → All (λ (k : Candidate). P k.address) items
      → All (λ (k : Candidate). P k.address) (with_candidate room a change items)
  with_candidate-All P true [] p h = (subst P (sym (keeps (new_candidate a))) p, tt)
  with_candidate-All P false [] p h = tt
  with_candidate-All P room (c ∷ items) p h = elim (Bool-cases (same_address c.address a)) [
    | inl e ↦ rw e (subst P (sym (keeps c)) h.0, h.1)
    | inr e ↦ rw e (h.0, with_candidate-All P room items p h.1)
  ]

  with_candidate-Distinct :
      (room : Bool) (items : List Candidate)
      → Distinct items
      → Distinct (with_candidate room a change items)
  with_candidate-Distinct true [] h = (tt, tt)
  with_candidate-Distinct false [] h = tt
  with_candidate-Distinct room (c ∷ items) h = elim (Bool-cases (same_address c.address a)) [
    | inl e ↦ rw e (
      subst (λ b. All (λ (k : Candidate). same_address k.address b ≡ false) items) (sym (keeps c))
          h.0,
      h.1,
    )
    | inr e ↦ rw e (
      with_candidate-All (λ b. same_address b c.address ≡ false) room items
          (same_address-swap a c.address ∙ e) h.0,
      with_candidate-Distinct room items h.1,
    )
  ]

  length-with_candidate :
      (room : Bool) (items : List Candidate)
      → length (with_candidate room a change items) ≤ length items + bit room
  length-with_candidate true [] = omega arith
  length-with_candidate false [] = omega arith
  length-with_candidate room (c ∷ items) = ground (arith, length-with_candidate room items)

-- The advertisements in their order.
abbrev pub scan : ℕ → List Advertisement → List Candidate → List Candidate
scan capacity [] items = items
scan capacity (e ∷ es) items = scan capacity es (on_advertisement capacity e items)

on_advertisement-Distinct :
    (capacity : ℕ) (e : Advertisement) (items : List Candidate)
    → Distinct items
    → Distinct (on_advertisement capacity e items)
unfolding on_advertisement
on_advertisement-Distinct capacity e items h =
    let noted =
      with_candidate-Distinct e.address (note e) (note-address e) (ltb (length items) capacity)
        items h in
    elim (Bool-cases (not (service_matches e.uuids) && not (is_scale_name e.name))) [
      | inl b ↦ rw b h
      | inr b ↦ rw b noted
    ]

length-on_advertisement :
    (capacity : ℕ) (e : Advertisement) (items : List Candidate)
    → length items ≤ capacity
    → length (on_advertisement capacity e items) ≤ capacity
unfolding on_advertisement
length-on_advertisement capacity e items h =
    let noted =
      length-with_candidate e.address (note e) (note-address e) (ltb (length items) capacity)
        items in
    elim (Bool-cases (not (service_matches e.uuids) && not (is_scale_name e.name))) [
      | inl b ↦ rw b h
      | inr b ↦ rw b (ground (arith, noted, h))
    ]

-- Whatever is advertised, the candidates of a scan that begins with such ones are at most as many
-- as the caller's array has room for, and no two of them have the same address.
pub scan-Distinct :
    (capacity : ℕ) (es : List Advertisement) (items : List Candidate)
    → Distinct items
    → length items ≤ capacity
    → Distinct (scan capacity es items) × (length (scan capacity es items) ≤ capacity)
scan-Distinct capacity [] items h l = (h, l)
scan-Distinct capacity (e ∷ es) items h l =
    scan-Distinct capacity es (on_advertisement capacity e items)
      (on_advertisement-Distinct capacity e items h) (length-on_advertisement capacity e items l)
