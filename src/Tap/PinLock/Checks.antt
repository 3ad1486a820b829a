-- ===== src/Tap/PinLock/Checks.antt =====
-- pin_lock.cpp: what a check compares, and how often it may.
use keg_scale_espdisplay.Prelude.{
  ℕ, ◌≡◌, refl, ap, true, Option, none, some, List, [], ◌∷◌, ◌++◌, arith, take,
}
use keg_scale_espdisplay.Tap.PinLock.{
  ok, digest, PinLock, valid, digest_input, bytes_equal, agrees, matches, check,
}

pub bytes_equal-eq : (xs ys : List ℕ) → bytes_equal xs ys ≡ true → xs ≡ ys
bytes_equal-eq [] [] h = refl
bytes_equal-eq [] (y ∷ ys) h = cc
bytes_equal-eq (x ∷ xs) [] h = cc
bytes_equal-eq (x ∷ xs) (y ∷ ys) h = ground (arith, bytes_equal-eq xs ys)

pub bytes_equal_self : (xs : List ℕ) → bytes_equal xs xs ≡ true
bytes_equal_self [] = refl
bytes_equal_self (x ∷ xs) = ground (arith, bytes_equal_self xs)

module _ (sha : List ℕ → Option (List ℕ)) where
  agrees-eq : (o : Option (List ℕ)) (d : List ℕ) → agrees sha o d ≡ true → o ≡ some d
  agrees-eq none d h = cc
  agrees-eq (some a) d h = ap some (bytes_equal-eq a d h)

  -- The PIN is four digits, and the hash of the salt and the PIN is the stored one.
  abbrev pub IsRight : PinLock → List ℕ → Type 0
  IsRight s pin =
      (s.enabled ≡ true)
      × (valid pin ≡ true)
      × (sha (s.saved.salt ++ take 4 pin) ≡ some s.saved.digest)

  pub matches-IsRight : (s : PinLock) (pin : List ℕ) → matches sha s pin ≡ true → IsRight s pin
  unfolding matches digest digest_input
  matches-IsRight s pin h =
      let e = agrees-eq (digest sha s.saved pin) s.saved.digest in ground (arith, e)

  pub IsRight-matches : (s : PinLock) (pin : List ℕ) → IsRight s pin → matches sha s pin ≡ true
  unfolding matches digest digest_input
  IsRight-matches s pin (e, v, h) = rw (e, v, h) (bytes_equal_self s.saved.digest)

  check-matches :
      (pin : List ℕ) (now : ℕ) (s : PinLock)
      → (check sha pin now s).1 ≡ ok
      → (s.storage_ok ≡ true) × (matches sha s pin ≡ true)
  unfolding check matches
  check-matches pin now s h = ground arith

  -- A check says "Ok" only if the storage is sound and the PIN is the right one.
  pub check-IsRight :
      (pin : List ℕ) (now : ℕ) (s : PinLock)
      → (check sha pin now s).1 ≡ ok
      → (s.storage_ok ≡ true) × IsRight s pin
  check-IsRight pin now s h = let (a, b) = check-matches pin now s h in (a, matches-IsRight s pin b)
