-- ===== src/Tap/PinLock/Access.antt =====
-- pin_lock.cpp: who can open the tap, how often a PIN can be guessed, and what a new PIN does.
use keg_scale_espdisplay.Prelude.{
  ℕ, ◌≡◌, refl, ◌≢◌, ◌⊎◌, Bool, true, false, Option, none, some, List, [], ◌∷◌, ◌++◌, arith, take,
}
use keg_scale_espdisplay.Tap.PinLock.{
  ok, Record, digest, zero_record, PinLock, valid, digest_input, unreadable, blob, record_size,
  init, lock, retry_seconds, matches, attempt, check, unlock, install, change, remove,
}
use keg_scale_espdisplay.Tap.PinLock.Checks.{IsRight, IsRight-matches, check-IsRight}

pub data Call : Type 0 where
  locks : Call
  checks unlocks : List ℕ → Call
  changes : List ℕ → List ℕ → List ℕ → Bool → Call
  removes : List ℕ → Bool → Call
  asks : Call

module _ (sha : List ℕ → Option (List ℕ)) where
  -- A call of the interface at a time.
  unfoldable pub step : PinLock → Call × ℕ → PinLock
  step s (locks, now) = (lock s).0
  step s (checks pin, now) = (check sha pin now s).0
  step s (unlocks pin, now) = (unlock sha pin now s).0
  step s (changes current pin salt stored, now) = (change sha current pin salt stored now s).0
  step s (removes current erased, now) = (remove sha current erased now s).0
  step s (asks, now) = (retry_seconds now s).0

  unfoldable pub run : PinLock → List (Call × ℕ) → PinLock
  run s [] = s
  run s (c ∷ cs) = run (step s c) cs

  -- The PIN that a call brings to open the tap.
  abbrev pub Opens : PinLock → Call → Type 0
  Opens s (unlocks pin) = IsRight sha s pin
  Opens s (removes pin erased) = IsRight sha s pin × (erased ≡ true)
  Opens s _ = ⊥

  check-closed : (pin : List ℕ) (now : ℕ) (s : PinLock) → (check sha pin now s).0.closed ≡ s.closed
  unfolding check
  check-closed pin now s = ground arith

  unlock-closed :
      (pin : List ℕ) (now : ℕ) (s : PinLock)
      → s.closed ≡ true
      → (unlock sha pin now s).0.closed ≡ false
      → (check sha pin now s).1 ≡ ok
  unfolding unlock check
  unlock-closed pin now s c o = ground arith

  remove-closed :
      (pin : List ℕ) (erased : Bool) (now : ℕ) (s : PinLock)
      → s.closed ≡ true
      → (remove sha pin erased now s).0.closed ≡ false
      → ((check sha pin now s).1 ≡ ok) × (erased ≡ true)
  unfolding remove check
  remove-closed pin erased now s c o = ground arith

  install-closed :
      (next : Record) (stored : Bool) (d : Option (List ℕ)) (s : PinLock)
      → s.closed ≡ true
      → (install sha next stored d s).0.closed ≡ true
  install-closed next stored none s c = c
  install-closed next stored (some d) s c = ground arith

  change-closed :
      (current pin salt : List ℕ) (stored : Bool) (now : ℕ) (s : PinLock)
      → s.closed ≡ true
      → (change sha current pin salt stored now s).0.closed ≡ true
  unfolding change check digest
  change-closed current pin salt stored now s c =
      let next = record zero_record { salt = salt } in
      let k = check-closed current now s in
      ground (
        arith,
        install-closed next stored (digest sha next pin) s c,
        install-closed next stored (digest sha next pin) (check sha current now s).0,
      )

  -- A locked tap is unlocked by nothing but `unlock`, or a `remove` whose erasure succeeds, with
  -- the right four-digit PIN and a sound storage.
  pub step-closed :
      (s : PinLock) (c : Call) (now : ℕ)
      → s.closed ≡ true
      → (step s (c, now)).closed ≡ false
      → (s.storage_ok ≡ true) × Opens s c
  unfolding step lock retry_seconds
  step-closed s locks now c o = ground arith
  step-closed s (checks pin) now c o = absurd (ground (arith, check-closed pin now s))
  step-closed s (unlocks pin) now c o = check-IsRight sha pin now s (unlock-closed pin now s c o)
  step-closed s (changes current pin salt stored) now c o =
      absurd (ground (arith, change-closed current pin salt stored now s c))
  step-closed s (removes pin erased) now c o =
      let (h, e) = remove-closed pin erased now s c o in
      let (a, r) = check-IsRight sha pin now s h in (a, (r, e))
  step-closed s asks now c o = ground arith

  step-damaged :
      (s : PinLock) (c : Call × ℕ)
      → (s.storage_ok ≡ false) × (s.closed ≡ true)
      → ((step s c).storage_ok ≡ false) × ((step s c).closed ≡ true)
  unfolding step lock retry_seconds check unlock change remove
  step-damaged s (locks, now) h = ground arith
  step-damaged s (checks pin, now) h = ground arith
  step-damaged s (unlocks pin, now) h = ground arith
  step-damaged s (changes current pin salt stored, now) h = ground arith
  step-damaged s (removes pin erased, now) h = ground arith
  step-damaged s (asks, now) h = ground arith

  run-damaged :
      (cs : List (Call × ℕ)) (s : PinLock)
      → (s.storage_ok ≡ false) × (s.closed ≡ true)
      → ((run s cs).storage_ok ≡ false) × ((run s cs).closed ≡ true)
  unfolding run
  run-damaged [] s h = h
  run-damaged (c ∷ cs) s h = run-damaged cs (step s c) (step-damaged s c h)

  -- A record that is there at start-up and is unreadable, of another size or of another version
  -- leaves the tap locked, whatever calls are made.
  pub init-damaged :
      (cs : List (Call × ℕ)) (size : ℕ) (r : Record) (at : ℕ)
      → (size ≢ record_size) ⊎ (r.version ≢ 1)
      → ((run (init unreadable at) cs).closed ≡ true)
        × ((run (init (blob size r) at) cs).closed ≡ true)
  unfolding init
  init-damaged cs size r at h = (
    (run-damaged cs (init unreadable at) (refl, refl)).1,
    (run-damaged cs (init (blob size r) at) (ground arith)).1,
  )

  check_of_matches :
      (pin : List ℕ) (now : ℕ) (s : PinLock)
      → s.storage_ok ≡ true
      → s.cooling ≡ false
      → matches sha s pin ≡ true
      → (check sha pin now s).1 ≡ ok
  unfolding check
  check_of_matches pin now s a c m = ground arith

  -- The lock is closed, sound and not cooling, and the PIN is the right one.
  abbrev Installed : PinLock → List ℕ → Type 0
  Installed s pin =
      (s.closed ≡ true) × (s.storage_ok ≡ true) × (s.cooling ≡ false) × IsRight sha s pin

  install-Installed :
      (next : Record) (stored : Bool) (o : Option (List ℕ)) (pin : List ℕ) (s : PinLock)
      → s.storage_ok ≡ true
      → valid pin ≡ true
      → sha (next.salt ++ take 4 pin) ≡ o
      → (install sha next stored o s).1 ≡ ok
      → Installed (install sha next stored o s).0 pin
  install-Installed next stored none pin s a v e h = cc
  install-Installed next true (some d) pin s a v e h = (refl, a, refl, (refl, v, e))
  install-Installed next false (some d) pin s a v e h = cc

  check-storage_ok :
      (pin : List ℕ) (now : ℕ) (s : PinLock) → (check sha pin now s).0.storage_ok ≡ s.storage_ok
  unfolding check retry_seconds attempt
  check-storage_ok pin now s = ground arith

  change-Installed :
      (current pin salt : List ℕ) (stored : Bool) (now : ℕ) (s : PinLock)
      → (change sha current pin salt stored now s).1 ≡ ok
      → Installed (change sha current pin salt stored now s).0 pin
  unfolding change digest digest_input
  change-Installed current pin salt stored now s h =
      let next = record zero_record { salt = salt } in
      let o = sha (salt ++ take 4 pin) in
      let s' = (check sha current now s).0 in
      ground (
        arith,
        check-storage_ok current now s,
        install-Installed next stored o pin s,
        install-Installed next stored o pin s',
      )

  -- After a successful change the tap is locked and the new PIN, given at any time, unlocks it.
  pub unlock-change :
      (current pin salt : List ℕ) (stored : Bool) (now later : ℕ) (s : PinLock)
      → (change sha current pin salt stored now s).1 ≡ ok
      → let s' = (change sha current pin salt stored now s).0 in
        (s'.closed ≡ true)
        × ((unlock sha pin later s').1 ≡ ok)
        × ((unlock sha pin later s').0.closed ≡ false)
  unfolding unlock
  unlock-change current pin salt stored now later s h =
      let (c, a, k, r) = change-Installed current pin salt stored now s h in
      let s' = (change sha current pin salt stored now s).0 in
      let o = check_of_matches pin later s' a k (IsRight-matches sha s' pin r) in
      (c, o, ground (arith, o))
