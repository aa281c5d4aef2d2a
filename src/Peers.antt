-- ===== src/Peers.antt =====
-- lifecycled/lifecycle_pair.c: the air units that a ground unit has been paired with. The sidecar file
-- ar8030.peers is a list of bytes, `none` where there is none; what the configuration holds at
-- baseband.basic.dev.ap_mac, whether a file can be replaced, and what the chip answers are inputs,
-- and so is BB_CONFIG_MAX_SLOT_CANDIDATE of the SDK, `max`.
pub mod Hex
pub mod Lists
pub mod Stored
pub mod Known
pub mod Forget
mod Tests
use ar8030_transport.Base.{
  ℕ, zero, suc, Bool, true, false, not, ◌&&◌, ◌||◌, Option, none, some, List, [], ◌∷◌, ◌++◌, ltb,
  leb, ◌-◌, ◌==◌, if◌then◌else◌, length, take,
}
use ar8030_transport.Base.Int.{ℤ, pos, negsuc}
use ar8030_transport.Peers.Hex.{Mac, mac_parse, mac_hex}

-- `memcmp(a, b, sizeof(*a)) == 0`
unfoldable pub same_mac : Mac → Mac → Bool
same_mac [] [] = true
same_mac [] (y ∷ ys) = false
same_mac (x ∷ xs) [] = false
same_mac (x ∷ xs) (y ∷ ys) = x == y && same_mac xs ys

unfoldable pub mac_in : Mac → List Mac → Bool
unfolding same_mac
mac_in mac [] = false
mac_in mac (t ∷ tab) = same_mac mac t || mac_in mac tab

-- `lc_pair_read_ap_mac`, of the text that the configuration holds.
unfoldable pub read_ap_mac : Option (List ℕ) → Option Mac
read_ap_mac none = none
read_ap_mac (some text) = mac_parse text

-- fgets with room for `n` characters: the line, and what is left of the file.
unfoldable pub fgets : ℕ → List ℕ → List ℕ × List ℕ
fgets zero bs = ([], bs)
fgets (suc n) [] = ([], [])
fgets (suc n) (b ∷ bs) =
    let (line, rest) = fgets n bs in if b == 10 then (10 ∷ [], bs) else (b ∷ line, rest)

-- Where `line[strcspn(line, "\r\n \t")] = '\0'` ends a line.
abbrev pub ends_line : ℕ → Bool
ends_line c = c == 0 || (c == 13 || (c == 10 || (c == 32 || c == 9)))

unfoldable pub cut_line : List ℕ → List ℕ
cut_line [] = []
cut_line (c ∷ line) = let rest = cut_line line in if ends_line c then [] else c ∷ rest

-- A line's MAC, unless there is none or it is there already.
unfoldable pub add_line : List Mac → Option Mac → List Mac
add_line out none = out
add_line out (some mac) = if mac_in mac out then out else out ++ (mac ∷ [])

-- The loop of `lc_peers_load`; each line takes a byte of the file at least.
unfoldable pub load_from : ℕ → ℕ → List Mac → List ℕ → List Mac
load_from zero max out bs = out
load_from (suc fuel) max out [] = out
load_from (suc fuel) max out (b ∷ bs) =
    let (line, rest) = fgets 31 (b ∷ bs) in
    let loaded = load_from fuel max (add_line out (mac_parse (cut_line line))) rest in
    if ltb (length out) max then loaded else out

unfoldable pub peers_load : ℕ → Option (List ℕ) → List Mac
peers_load max none = []
peers_load max (some bs) = load_from (length bs) max [] bs

-- What `peers_save` writes.
unfoldable pub peers_text : List Mac → List ℕ
peers_text [] = []
peers_text (mac ∷ tab) = mac_hex mac ++ (10 ∷ peers_text tab)

-- The loop of `peers_effective`.
unfoldable pub union : ℕ → List Mac → List Mac → List Mac
union max out [] = out
union max out (mac ∷ known) =
    let rest = union max (if mac_in mac out then out else out ++ (mac ∷ [])) known in
    if ltb (length out) max then rest else out

abbrev pub first_of : ℕ → Option Mac → List Mac
first_of max none = []
first_of max (some ap) = if ltb 0 max then ap ∷ [] else []

unfoldable pub peers_effective : ℕ → Option (List ℕ) → Option (List ℕ) → List Mac
unfolding union read_ap_mac
peers_effective max config file =
    union max (first_of max (read_ap_mac config)) (peers_load max file)

-- What an operation leaves: its result, the sidecar file, and the candidates given to the chip.
pub record Outcome : Type 0 where
  pub ret : ℤ
  pub file : Option (List ℕ)
  pub pushed : Option (List Mac)

-- `lc_peers_push`, with what the chip answers.
unfoldable pub peers_push : ℕ → Option (List ℕ) → ℤ → Option (List ℕ) → Outcome
unfolding peers_effective
peers_push max config answer file =
    let candidates = peers_effective max config file in
    if length candidates == 0
    then record { ret = pos 0; file = file; pushed = none }
    else record { ret = answer; file = file; pushed = some candidates }

-- `ap` before the known ones; the oldest falls off a full list.
unfoldable pub remember : ℕ → Mac → List Mac → List Mac
remember max ap known =
    ap ∷ take (if length known == max then length known - 1 else length known) known

-- `lc_peers_note_ap_mac`, where `saved` says whether the file can be replaced.
note_known : ℕ → Bool → Option (List ℕ) → ℤ → Option (List ℕ) → Mac → Outcome
unfolding remember
note_known max saved config answer file ap =
    let known = peers_load max file in
    if mac_in ap known
    then record { ret = pos 0; file = file; pushed = none }
    else if not saved
    then record { ret = negsuc 0; file = file; pushed = none }
    else peers_push max config answer (some (peers_text (remember max ap known)))

unfoldable pub note_ap : ℕ → Bool → Option (List ℕ) → ℤ → Option (List ℕ) → Option Mac → Outcome
unfolding note_known
note_ap max saved config answer file none = record { ret = negsuc 0; file = file; pushed = none }
note_ap max saved config answer file (some ap) = note_known max saved config answer file ap

unfoldable pub note_ap_mac : ℕ → Bool → Option (List ℕ) → ℤ → Option (List ℕ) → Outcome
unfolding note_ap
note_ap_mac max saved config answer file = note_ap max saved config answer file (read_ap_mac config)

-- Whether `lc_peers_forget` drops an entry: the target, or all but ap_mac.
unfoldable pub is_dropped : Option Mac → Option Mac → Mac → Bool
is_dropped ap (some target) mac = same_mac mac target
is_dropped (some ap) none mac = not (same_mac mac ap)
is_dropped none none mac = true

unfoldable pub kept : Option Mac → Option Mac → List Mac → List Mac
unfolding is_dropped
kept ap target [] = []
kept ap target (mac ∷ known) =
    let rest = kept ap target known in if is_dropped ap target mac then rest else mac ∷ rest

-- -2, where the target is the current ap_mac.
unfoldable pub is_current : Option Mac → Option Mac → Bool
is_current (some ap) (some target) = same_mac target ap
is_current ap target = false

abbrev pub unsaved : Option (List ℕ) → ℤ → Outcome
unsaved file ret = record { ret = ret; file = file; pushed = none }

abbrev pub nothing_found : Option Mac → ℤ
nothing_found none = pos 0
nothing_found (some target) = negsuc 2

-- With the target parsed.
unfoldable pub forget_target : ℕ → Bool → Option Mac → Option (List ℕ) → Option Mac → Outcome
unfolding kept is_current
forget_target max saved ap file target =
    let known = peers_load max file in
    let left = kept ap target known in
    if is_current ap target
    then unsaved file (negsuc 1)
    else if length left == length known
    then unsaved file (nothing_found target)
    else if saved
    then record {
      ret = pos (length known - length left);
      file = some (peers_text left);
      pushed = none;
    }
    else unsaved file (negsuc 3)

-- With the text parsed; -1 where it is no MAC.
unfoldable pub forget_parsed : ℕ → Bool → Option Mac → Option (List ℕ) → Option Mac → Outcome
unfolding forget_target
forget_parsed max saved ap file none = unsaved file (negsuc 0)
forget_parsed max saved ap file (some target) = forget_target max saved ap file (some target)

-- `lc_peers_forget`; no text is all but the current one.
unfoldable pub peers_forget :
    ℕ → Bool → Option (List ℕ) → Option (List ℕ) → Option (List ℕ) → Outcome
unfolding forget_parsed
peers_forget max saved config file none = forget_target max saved (read_ap_mac config) file none
peers_forget max saved config file (some text) =
    forget_parsed max saved (read_ap_mac config) file (mac_parse text)
