-- ===== src/Lifecycle/Channel.antt =====
-- lifecycled/lifecycle.c: keeping the link on the wanted channel, with the two helpers of
-- lifecycle_tuning.c it compares by.
pub mod Retune
use ar8030_transport.Base.{
  ℕ, ◌+◌, ◌-◌, Bool, true, false, Option, none, some, List, [], ◌∷◌, ltb, leb, ◌==◌, not, ◌&&◌,
  ◌||◌, ◌++◌, if◌then◌else◌, length, get_or,
}
use ar8030_transport.Lifecycle.{
  Role, role_ap, role_dev, is_ap, Config, Chan, chan_auto, chan_none, chan_index, Act, save_channel,
  apply_mode, apply_linked,
}

abbrev pub chan_check_delay_s : ℕ
chan_check_delay_s = 3

abbrev pub chan_pushes : ℕ
chan_pushes = 4

-- What lc_channel_read answers.
pub record ChanInfo : Type 0 where
  pub auto_mode : Bool
  pub work_chan : ℕ
  pub chan_num : ℕ

-- The fields of `struct lifecycle_ctx` about the channel. `seen` is chan_auto and work_chan,
-- `none` for -1; `check_at` is `none` when not armed; the table holds chan_table_n entries.
pub record Channel : Type 0 where
  pub wanted : Chan
  pub seen : Option (Bool × ℕ)
  pub settled : Bool
  pub check_at : Option ℕ
  pub pushes_left : ℕ
  pub table_khz : List ℕ

-- `lc_channel_matches`
unfoldable pub matches : Chan → ChanInfo → Bool
matches chan_auto info = info.auto_mode
matches chan_none info = false
matches (chan_index c) info = not info.auto_mode && info.work_chan == c

abbrev pub save_if : Bool → Chan → List Act
save_if true c = save_channel c ∷ []
save_if false c = []

abbrev pub observed : ChanInfo → Chan
observed info = if info.auto_mode then chan_auto else chan_index info.work_chan

abbrev pub is_unset : Chan → Bool
is_unset chan_none = true
is_unset _ = false

-- `lc_channel_track`
unfoldable pub track : Config → Option ChanInfo → Channel → Channel × List Act
unfolding matches
track cfg none ch = (ch, [])
track cfg (some info) ch =
    let ch' = record ch { seen = some (info.auto_mode, info.work_chan) } in
    if is_unset ch.wanted
    then (ch', [])
    else if matches ch.wanted info
    then (record ch' { settled = true }, [])
    else if not ch.settled
    then (ch', [])
    else (record ch' { wanted = observed info }, save_if cfg.has_cfg_path (observed info))

-- `lc_channel_on_connect`, at the time `now`
unfoldable pub on_connect : ℕ → Channel → Channel
on_connect now ch = record ch {
  settled = false;
  pushes_left = chan_pushes;
  check_at = some (now + chan_check_delay_s);
}

abbrev pub distance : ℕ → ℕ → ℕ
distance f w = if ltb w f then f - w else w - f

-- One round of the loop of `lc_channel_neighbour`: `best` and `best_d` after entry `i`.
unfoldable pub nearer : ℕ → ℕ → ℕ → ℕ → Option (ℕ × ℕ) → Option (ℕ × ℕ)
nearer chan w i f none = if i == chan then none else some (i, distance f w)
nearer chan w i f (some (b, d)) =
    if i == chan
    then some (b, d)
    else if ltb (distance f w) d
    then some (i, distance f w)
    else some (b, d)

-- The loop, from entry `i` on.
unfoldable pub neighbour_from : ℕ → ℕ → Option (ℕ × ℕ) → ℕ → List ℕ → Option (ℕ × ℕ)
unfolding nearer
neighbour_from chan w best i [] = best
neighbour_from chan w best i (f ∷ fs) = neighbour_from chan w (nearer chan w i f best) (i + 1) fs

abbrev pub index_of : Option (ℕ × ℕ) → Option ℕ
index_of none = none
index_of (some (i, _)) = some i

-- `lc_channel_neighbour`, for a channel of the table
unfoldable pub neighbour : List ℕ → ℕ → Option ℕ
unfolding neighbour_from
neighbour table chan = index_of (neighbour_from chan (get_or table chan 0) none 0 table)

-- Whether a frequency read from the link is the wanted one, or unknown.
abbrev pub fits : ℕ → ℕ → Bool
fits want f = f == 0 || f == want

-- `want`, 0 for a channel outside the table.
abbrev pub want_khz : Channel → ℕ
want_khz ch = elim ch.wanted [ chan_index c ↦ get_or ch.table_khz c 0 | _ ↦ 0 ]

-- `link_ok`, for the downlink's and the uplink's frequency
abbrev pub link_fits : ℕ → ℕ × ℕ → Bool
link_fits want (down, up) = want == 0 || (fits want down && fits want up)

abbrev pub out_of_table : Chan → ℕ → Bool
out_of_table (chan_index c) num = ltb 0 num && leb num c
out_of_table _ num = false

-- The channel to push: the wanted one, or the nearest other one when the chip believes it is there.
unfoldable pub push_target : Bool → Channel → Option Chan
unfolding neighbour
push_target false ch = some ch.wanted
push_target true ch = elim ch.wanted [
  | chan_index c ↦ elim (neighbour ch.table_khz c) [ some n ↦ some (chan_index n) | none ↦ none ]
  | _ ↦ none
]

-- The push, after the checks of `lc_channel_check_link`.
unfoldable pub push_link : Option ℕ → ℕ → Option Chan → Channel → Channel × List Act
push_link slot now none ch = (ch, [])
push_link slot now (some target) ch =
    (record ch { check_at = some (now + chan_check_delay_s) }, apply_linked slot target ∷ [])

-- The tests of `lc_channel_check_link` that find nothing to do.
abbrev pub is_settled : Config → ChanInfo → ℕ × ℕ → Channel → Bool
is_settled cfg info khz ch =
    not (is_ap cfg.role)
    || is_unset ch.wanted
    || out_of_table ch.wanted info.chan_num
    || (matches ch.wanted info && link_fits (want_khz ch) khz)

-- `lc_channel_check_link` on the connected slot, for what lc_channel_read and
-- lc_channel_read_link_khz answer; `now` is when it ends.
unfoldable pub check_link :
    Config → Option ℕ → Option ChanInfo → ℕ × ℕ → ℕ → Channel → Channel × List Act
unfolding matches push_target push_link
check_link cfg slot none khz now ch = (record ch { check_at = none }, [])
check_link cfg slot (some info) khz now ch =
    if is_settled cfg info khz ch
    then (record ch { check_at = none }, [])
    else if ch.pushes_left == 0
    then (record ch { check_at = none }, [])
    else push_link slot now (push_target (matches ch.wanted info) ch)
        (record ch { check_at = none; pushes_left = ch.pushes_left - 1; settled = false })

-- An index outside the chip's own table.
abbrev pub refuses : Chan → Option ChanInfo → Bool
refuses (chan_index n) (some info) = leb info.chan_num n
refuses _ _ = false

-- The AP keeps the channel, and saves it; both ends apply it.
abbrev pub kept : Role → Chan → Channel → Channel
kept role_ap c ch = record ch { wanted = c; settled = false }
kept role_dev c ch = ch

abbrev pub saved : Role → Bool → Chan → List Act
saved role_ap has_cfg_path c = save_if has_cfg_path c
saved role_dev has_cfg_path c = []

-- `lc_drain_channel_request`, for a request that was in the mailbox; `up` is whether the state is
-- LC_STATE_CONNECTED.
unfoldable pub change :
    Config → Bool → Option ℕ → Option ChanInfo → Chan → Channel → Channel × List Act
change cfg up slot read c ch = if refuses c read then (ch, []) else (
  kept cfg.role c ch,
  saved cfg.role cfg.has_cfg_path c ++ (if up then apply_linked slot c else apply_mode c) ∷ [],
)
