-- ===== src/Touchscreen/Discovery/Sizes.antt =====
-- setup_discovery.cpp: the texts fit in their arrays.
use keg_scale_espdisplay.Prelude.{
  ℕ, zero, suc, ◌+◌, ◌*◌, ◌≤◌, ◌<◌, ◌≡◌, refl, ◌⊎◌, inl, inr, Bool, true, false, List, [], ◌∷◌,
  arith, ltb, if◌then◌else◌, length, take, length-append, is_empty,
}
use keg_scale_espdisplay.Touchscreen.Discovery.{
  newline, add_line, network_options_from, no_networks, network_options, manual, manual_reserve,
  host_of, scale_options_from, build_scale_options,
}

length-take_le {ℓ} : {A : Type ℓ} (n : ℕ) (xs : List A) → length (take n xs) ≤ n
length-take_le zero xs = omega arith
length-take_le (suc n) [] = omega arith
length-take_le (suc n) (x ∷ xs) = omega (arith, length-take_le n xs)

length-add_line :
    (options line : List ℕ) → length (add_line options line) ≤ length options + 1 + length line
unfolding add_line
length-add_line options line = ground (arith, length-append options (newline ∷ line))

-- The part of `add_line` for a text that is not empty.
length-add_line_used :
    (options line : List ℕ)
    → length (add_line options line)
      ≡ length options + (length line + (if ltb 0 (length options) then 1 else 0))
unfolding add_line
length-add_line_used [] line = omega arith
length-add_line_used (c ∷ options) line = ground (arith, length-append options (newline ∷ line))

length-network_options_from :
    (options : List ℕ) (ssids : List (List ℕ))
    → length (network_options_from options ssids) ≤ length options + 33 * length ssids
length-network_options_from options [] = omega arith
length-network_options_from options (ssid ∷ ssids) =
    let skipped = length-network_options_from options ssids in
    let added = length-network_options_from (add_line options (take 32 ssid)) ssids in
    let one = length-add_line options (take 32 ssid) in
    let short = length-take_le 32 ssid in ground (arith, skipped, added, one, short)

either-fits :
    (test : Bool) (xs ys : List ℕ) (n : ℕ)
    → length xs < n
    → length ys < n
    → length (if test then xs else ys) < n
either-fits true xs ys n h k = h
either-fits false xs ys n h k = k

-- The list of networks and its terminator fit in the array of 700 characters.
network_options-fit : (ssids : List (List ℕ)) → length (network_options ssids) < 700
unfolding network_options
network_options-fit ssids =
    let options = network_options_from [] (take 20 ssids) in
    let most = length-network_options_from [] (take 20 ssids) in
    let twenty = length-take_le 20 ssids in
    either-fits (is_empty options) no_networks options 700 (omega arith)
      (omega (arith, most, twenty))

-- The text of the hosts leaves room for the manual entry.
scale_options_from-fit :
    (size : ℕ) (options : List ℕ) (count : ℕ) (found : List (List ℕ))
    → (options ≡ []) ⊎ (length options + manual_reserve < size)
    → let r = (scale_options_from size options count found).0 in
      (r ≡ []) ⊎ (length r + manual_reserve < size)
scale_options_from-fit size options count [] h = h
scale_options_from-fit size options count (hostname ∷ found) h =
    let host = host_of hostname in
    let kept = scale_options_from-fit size options count found h in
    let added = λ (l : length (add_line options host) + manual_reserve < size).
      scale_options_from-fit size (add_line options host) (count + 1) found (inr l) in
    ground (arith, kept, added, length-add_line_used options host, h)

-- The list of scales with the manual entry and the terminator fits in the caller's array, whatever
-- is found, where the array has room for the manual entry alone.
pub build_scale_options-fit :
    (size : ℕ) (found : List (List ℕ))
    → length manual < size
    → length (build_scale_options size found).0 < size
unfolding build_scale_options
build_scale_options-fit size found h =
    let options = (scale_options_from size [] 0 found).0 in
    let fits = scale_options_from-fit size [] 0 found (inl refl) in
    ground (arith, fits, length-add_line_used options manual, h)
