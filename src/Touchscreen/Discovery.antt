-- ===== src/Touchscreen/Discovery.antt =====
-- touchscreen/main/setup_discovery.cpp: the lists of networks and of scales that the setup offers,
-- and the flag of a running scan. What the scans find is an argument.
use keg_scale_espdisplay.Prelude.{
  ℕ, ◌+◌, Bool, true, false, not, ◌&&◌, ◌||◌, List, [], ◌∷◌, ◌++◌, ltb, leb, ◌==◌, if◌then◌else◌,
  length, take, same_text, is_empty,
}
pub mod Sizes
pub mod Examples

-- '\n'
abbrev pub newline : ℕ
newline = 10

-- `strchr` with a newline.
abbrev pub has_newline : List ℕ → Bool
has_newline [] = false
has_newline (c ∷ text) = let rest = has_newline text in c == newline || rest

-- `strcat` of a line, after a newline where there is a line before it.
unfoldable pub add_line : List ℕ → List ℕ → List ℕ
add_line options line = if is_empty options then line else options ++ newline ∷ line

-- The loop over the access points.
abbrev pub network_options_from : List ℕ → List (List ℕ) → List ℕ
network_options_from options [] = options
network_options_from options (ssid ∷ ssids) =
    if is_empty ssid || has_newline ssid
    then network_options_from options ssids
    else network_options_from (add_line options (take 32 ssid)) ssids

-- "No networks found"
abbrev pub no_networks : List ℕ
no_networks =
    78 ∷ 111 ∷ 32 ∷ 110 ∷ 101 ∷ 116 ∷ 119 ∷ 111 ∷ 114 ∷ 107 ∷ 115 ∷ 32 ∷ 102 ∷ 111 ∷ 117 ∷ 110 ∷ 100
    ∷ []

-- The text for the screen, of at most 20 access points.
unfoldable pub network_options : List (List ℕ) → List ℕ
unfolding add_line
network_options ssids =
    let options = network_options_from [] (take 20 ssids) in
    if is_empty options then no_networks else options

-- "Manual IP / hostname..."
abbrev pub manual : List ℕ
manual =
    77 ∷ 97 ∷ 110 ∷ 117 ∷ 97 ∷ 108 ∷ 32 ∷ 73 ∷ 80 ∷ 32 ∷ 47 ∷ 32 ∷ 104 ∷ 111 ∷ 115 ∷ 116 ∷ 110 ∷ 97
    ∷ 109 ∷ 101 ∷ 46 ∷ 46 ∷ 46 ∷ []

abbrev pub manual_reserve : ℕ
manual_reserve = length manual + 2

-- ".local"
abbrev pub local_suffix : List ℕ
local_suffix = 46 ∷ 108 ∷ 111 ∷ 99 ∷ 97 ∷ 108 ∷ []

-- `host`, an array of 140 characters.
unfoldable pub host_of : List ℕ → List ℕ
host_of hostname = take 139 (hostname ++ local_suffix)

-- Whether a line of the text is the host: `line` are the characters of the line so far. An empty
-- rest after a newline is no line.
abbrev pub is_listed_from : List ℕ → List ℕ → List ℕ → Bool
is_listed_from host line [] = same_text line host
is_listed_from host line (c ∷ text) =
    let next = is_listed_from host [] text in
    let more = is_listed_from host (line ++ c ∷ []) text in
    if c == newline then same_text line host || (not (is_empty text) && next) else more

abbrev pub is_listed : List ℕ → List ℕ → Bool
is_listed host [] = false
is_listed host (c ∷ text) = is_listed_from host [] (c ∷ text)

-- The loop over the results: the text and the number of hosts. A hostname is empty where it is
-- NULL.
abbrev pub scale_options_from : ℕ → List ℕ → ℕ → List (List ℕ) → List ℕ × ℕ
scale_options_from size options count [] = (options, count)
scale_options_from size options count (hostname ∷ found) =
    let host = host_of hostname in
    let kept = scale_options_from size options count found in
    let used = length options in
    let append_len = length host + (if ltb 0 used then 1 else 0) in
    let added = scale_options_from size (add_line options host) (count + 1) found in
    if is_empty hostname || is_listed host options
    then kept
    else if leb size (used + append_len + manual_reserve)
    then (options, count)
    else added

-- `setup_discovery_build_scale_options`: the text and the number of hosts.
unfoldable pub build_scale_options : ℕ → List (List ℕ) → List ℕ × ℕ
unfolding add_line host_of
build_scale_options size found =
    let (options, count) = scale_options_from size [] 0 found in
    if size == 0 then ([], 0) else (add_line options manual, count)

-- `start_scan`, on the flag of the running scan, with the answers of the allocation and of the
-- task: the flag and the result.
unfoldable pub start_scan : Bool → Bool → Bool → Bool × Bool
start_scan running allocated created =
    if running
    then (true, false)
    else if not allocated
    then (false, false)
    else if not created
    then (false, false)
    else (true, true)
