-- ===== src/Lifecycle/Radio/Told.antt =====
-- What the results of the SDK sequences say.
use ar8030_transport.Base.{ℕ, ◌≡◌, Bool, true, false, Option, List, [], ◌∷◌, ◌&&◌, arith}
use ar8030_transport.Lifecycle.{Chan, chan_auto, chan_none, chan_index}
use ar8030_transport.Lifecycle.Radio.{Ioctl, set_remote, channel_apply_local, channel_apply_linked}

-- Every call of the list returns 0.
abbrev pub all_work : (Ioctl → Bool) → List Ioctl → Bool
all_work works [] = true
all_work works (io ∷ ios) = works io && all_work works ios

-- The peer is among those told.
abbrev pub tells_peer : List Ioctl → Bool
tells_peer [] = false
tells_peer (set_remote slot c ∷ ios) = true
tells_peer (io ∷ ios) = tells_peer ios

-- Whatever calls fail, a channel change on a link returns 0 exactly when every call that it made
-- did, and the peer is told exactly when the change worked locally.
pub channel_apply_linked_lem :
    (works : Ioctl → Bool) (slot : Option ℕ) (c : Chan)
    → let (r, ios) = channel_apply_linked works slot c in
      (r ≡ all_work works ios) × (tells_peer ios ≡ (channel_apply_local works c).0)
unfolding channel_apply_linked channel_apply_local
channel_apply_linked_lem works slot c = go c
  where
    go :
        (c : Chan)
        → let (r, ios) = channel_apply_linked works slot c in
          (r ≡ all_work works ios) × (tells_peer ios ≡ (channel_apply_local works c).0)
    go chan_auto = ground arith
    go chan_none = ground arith
    go (chan_index n) = ground arith
