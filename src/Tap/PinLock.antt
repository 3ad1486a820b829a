-- ===== src/Tap/PinLock.antt =====
-- touchpour/components/tap_control/pin_lock.cpp: the PIN that locks the physical tap.
-- A text is the list of its character codes without the final 0. The SHA-256 of the PSA library is
-- the parameter `sha` (`none`: the library reports a failure, or not 32 bytes), the random salt and
-- the outcome of a write to the flash store are arguments, and so is each reading of the clock.
use keg_scale_espdisplay.Prelude.{
  ℕ, zero, suc, ◌+◌, ◌-◌, ◌/◌, Bool, true, false, not, ◌&&◌, Option, none, some, List, [], ◌∷◌,
  ◌++◌, leb, ◌==◌, if◌then◌else◌, take, replicate, sub32,
}
pub mod Checks
pub mod Access
pub mod Guessing
pub mod Examples

pub data Result : Type 0 where
  ok wrong_pin wait invalid_pin storage_error : Result

pub record Record : Type 0 where
  pub version : ℕ
  pub salt : List ℕ
  pub digest : List ℕ

abbrev pub zero_record : Record
zero_record = record { version = 1; salt = replicate 16 0; digest = replicate 32 0 }

pub record PinLock : Type 0 where
  pub saved : Record
  pub enabled : Bool
  pub closed : Bool
  pub storage_ok : Bool
  pub cooling : Bool
  pub failures : ℕ
  pub failed_at : ℕ

abbrev pub cooldown_ms : ℕ
cooldown_ms = 30000

-- `p[i]` of a text, whose end reads as 0.
abbrev pub char_at : List ℕ → ℕ → ℕ
char_at [] i = 0
char_at (x ∷ xs) zero = x
char_at (x ∷ xs) (suc i) = char_at xs i

abbrev pub is_digit : ℕ → Bool
is_digit c = leb b'0' c && leb c b'9'

unfoldable pub valid : List ℕ → Bool
valid pin =
    is_digit (char_at pin 0)
    && is_digit (char_at pin 1)
    && is_digit (char_at pin 2)
    && is_digit (char_at pin 3)
    && char_at pin 4 == 0

-- The 20 bytes that are hashed: the salt, and the first four characters of the PIN.
unfoldable pub digest_input : Record → List ℕ → List ℕ
digest_input r pin = r.salt ++ take 4 pin

-- What reading the stored record at start-up gives.
pub data Stored : Type 0 where
  not_found : Stored
  unreadable : Stored
  blob : ℕ → Record → Stored

abbrev pub record_size : ℕ
record_size = 52

abbrev pub unlocked_empty : PinLock
unlocked_empty = record {
  saved = zero_record;
  enabled = false;
  closed = false;
  storage_ok = true;
  cooling = false;
  failures = 0;
  failed_at = 0;
}

abbrev pub damaged : Record → PinLock
damaged r = record unlocked_empty { saved = r; storage_ok = false; enabled = true; closed = true }

-- `init`, from any earlier state; `failed_at` is the only variable that it leaves.
unfoldable pub init : Stored → ℕ → PinLock
init not_found at = record unlocked_empty { failed_at = at }
init unreadable at = record (damaged zero_record) { failed_at = at }
init (blob size r) at =
    if size == record_size && r.version == 1
    then record unlocked_empty { saved = r; enabled = true; closed = true; failed_at = at }
    else record (damaged r) { failed_at = at }

unfoldable pub lock : PinLock → PinLock × Bool
lock s = if not s.enabled then (s, false) else (record s { closed = true }, true)

unfoldable pub retry_seconds : ℕ → PinLock → PinLock × ℕ
unfolding sub32
retry_seconds now s =
    if not s.cooling
    then (s, 0)
    else if leb cooldown_ms (sub32 now s.failed_at)
    then (record s { cooling = false; failures = 0 }, 0)
    else (s, (cooldown_ms - sub32 now s.failed_at + 999) / 1000)

-- Every byte agrees: the loop over all 32 bytes finds no difference.
abbrev pub bytes_equal : List ℕ → List ℕ → Bool
bytes_equal [] [] = true
bytes_equal [] (y ∷ ys) = false
bytes_equal (x ∷ xs) [] = false
bytes_equal (x ∷ xs) (y ∷ ys) = x == y && bytes_equal xs ys

module _ (sha : List ℕ → Option (List ℕ)) where
  unfoldable pub digest : Record → List ℕ → Option (List ℕ)
  unfolding digest_input
  digest r pin = sha (digest_input r pin)

  abbrev pub agrees : Option (List ℕ) → List ℕ → Bool
  agrees none d = false
  agrees (some a) d = bytes_equal a d

  unfoldable pub matches : PinLock → List ℕ → Bool
  unfolding digest valid
  matches s pin = s.enabled && valid pin && agrees (digest s.saved pin) s.saved.digest

  -- `check` once the storage is sound and no cooldown runs.
  unfoldable pub attempt : List ℕ → ℕ → PinLock → PinLock × Result
  attempt pin now s =
      if matches s pin
      then (record s { failures = 0; cooling = false }, ok)
      else if leb 5 (s.failures + 1)
      then (record s { failures = s.failures + 1; failed_at = now; cooling = true }, wait)
      else (record s { failures = s.failures + 1 }, wrong_pin)

  -- One time `now` stands for the two reads of the clock, before the PIN is checked and after.
  unfoldable pub check : List ℕ → ℕ → PinLock → PinLock × Result
  unfolding retry_seconds attempt
  check pin now s =
      if not s.storage_ok
      then (s, storage_error)
      else let (s', seconds) = retry_seconds now s in
        if not (seconds == 0) then (s', wait) else attempt pin now s'

  abbrev pub is_ok : Result → Bool
  is_ok ok = true
  is_ok _ = false

  unfoldable pub unlock : List ℕ → ℕ → PinLock → PinLock × Result
  unfolding check
  unlock pin now s =
      let (s', r) = check pin now s in (if is_ok r then record s' { closed = false } else s', r)

  abbrev pub install : Record → Bool → Option (List ℕ) → PinLock → PinLock × Result
  install next stored none s = (s, storage_error)
  install next stored (some d) s = if not stored then (s, storage_error) else (
    record s {
      saved = record next { digest = d };
      failures = 0;
      cooling = false;
      enabled = true;
      closed = true;
    },
    ok,
  )

  -- `salt` is the fresh random salt, `stored` the outcome of `persist`.
  unfoldable pub change : List ℕ → List ℕ → List ℕ → Bool → ℕ → PinLock → PinLock × Result
  unfolding check digest
  change current pin salt stored now s =
      let next = record zero_record { salt = salt } in
      if not s.storage_ok
      then (s, storage_error)
      else if not (valid pin)
      then (s, invalid_pin)
      else if not s.enabled
      then install next stored (digest next pin) s
      else let (s', r) = check current now s in
        if is_ok r then install next stored (digest next pin) s' else (s', r)

  unfoldable pub remove : List ℕ → Bool → ℕ → PinLock → PinLock × Result
  unfolding check
  remove current erased now s =
      let (s', r) = check current now s in
      if not (is_ok r)
      then (s', r)
      else if not erased
      then (s', storage_error)
      else (record s' { saved = zero_record; enabled = false; closed = false }, ok)
