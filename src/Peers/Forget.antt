-- ===== src/Peers/Forget.antt =====
-- What a removal does to the list of known air units.
use ar8030_transport.Base.{
  ℕ, ◌-◌, ◌<◌, ◌≡◌, ◌≢◌, ◌⊎◌, refl, sym, ap, ◌∙◌, inl, inr, Bool, true, false, not, ◌&&◌, List, [],
  ◌∷◌, arith, ◌==◌, length, All, Option-cases, Bool-cases, Option, none, some,
}
use mathlib.Core.Option.{none-ne-some, some-injective}
use ar8030_transport.Base.Int.{pos, negsuc}
use ar8030_transport.Peers.Hex.{Mac, IsMac, mac_parse}
use ar8030_transport.Peers.{
  same_mac, mac_in, read_ap_mac, peers_load, peers_text, Outcome, is_dropped, kept, is_current,
  nothing_found, forget_target, forget_parsed, peers_forget,
}
use ar8030_transport.Peers.Lists.{
  same_mac_refl, same_mac_sym, same_mac_eq, Fresh-kept, length-kept, All-kept,
}
use ar8030_transport.Peers.Stored.{IsPeers, peers_load-peers_text, peers_load-IsPeers}

mac_in-kept :
    (p q : Option Mac) (m : Mac) (known : List Mac)
    → mac_in m (kept p q known) ≡ (mac_in m known && not (is_dropped p q m))
unfolding kept mac_in
mac_in-kept p q m [] = refl
mac_in-kept p q m (k ∷ known) = elim (Bool-cases (same_mac m k)) [
  | inl here ↦
      let e = same_mac_eq m k here in
      elim (Bool-cases (is_dropped p q k)) [
        | inl gone ↦ ground (arith, mac_in-kept p q m known, ap (is_dropped p q) e)
        | inr stays ↦ ground (arith, mac_in-kept p q m known, ap (is_dropped p q) e)
      ]
  | inr other ↦ ground (arith, mac_in-kept p q m known)
]

stays :
    (p q : Option Mac) (a : Mac) (known : List Mac)
    → is_dropped p q a ≡ false
    → mac_in a (kept p q known) ≡ mac_in a known
stays p q a known h = ground (arith, mac_in-kept p q a known)

-- The list after a removal.
pub record Removed (max : ℕ) (ap_mac target : Option Mac) (known : List Mac) (r : Outcome)
    : Type 0 where
  pub counted : r.ret ≡ pos (length known - length (peers_load max r.file))
  pub fewer : length (peers_load max r.file) < length known
  pub exact :
      (m : Mac)
      → mac_in m (peers_load max r.file) ≡ (mac_in m known && not (is_dropped ap_mac target m))
  pub current_stays :
      (a : Mac) → ap_mac ≡ some a → mac_in a (peers_load max r.file) ≡ mac_in a known

-- ap_mac is not dropped where it is not the target.
current_kept :
    (p q : Option Mac) (a : Mac) → p ≡ some a → is_current p q ≡ false → is_dropped p q a ≡ false
unfolding is_current is_dropped
current_kept none q a e h = absurd (none-ne-some _ e)
current_kept (some b) none a e h =
    let same : b ≡ a = some-injective _ _ e in rw same (rw (same_mac_refl a) refl)
current_kept (some b) (some t) a e h =
    let same : b ≡ a = some-injective _ _ e in rw (same_mac_sym a t) (rw same at h)

removed :
    (max : ℕ) (p q : Option Mac) (file : Option (List ℕ))
    → is_current p q ≡ false
    → length (kept p q (peers_load max file)) ≢ length (peers_load max file)
    → Removed max p q (peers_load max file) (record {
      ret = pos (length (peers_load max file) - length (kept p q (peers_load max file)));
      file = some (peers_text (kept p q (peers_load max file)));
      pushed = none;
    })
removed max p q file free found =
    let known = peers_load max file in
    let left = kept p q known in
    let v = peers_load-IsPeers max file in
    let valid : IsPeers max left = record {
      distinct = Fresh-kept p q [] known v.distinct;
      short = omega (arith, length-kept p q known, v.short);
      macs = All-kept IsMac p q known v.macs;
    } in
    let loaded : left ≡ peers_load max (some (peers_text left)) =
      sym (peers_load-peers_text max left valid) in
    record {
      counted = ap (λ l. pos (length known - length l)) loaded;
      fewer = omega (arith, ap length loaded, length-kept p q known, found);
      exact = λ m. ap (mac_in m) (sym loaded) ∙ mac_in-kept p q m known;
      current_stays =
          λ a e. ap (mac_in a) (sym loaded) ∙ stays p q a known (current_kept p q a e free);
    }

-- Why nothing was removed: the target is the current air unit, there is nothing to drop, or the file
-- cannot be replaced.
pub data Stayed (saved : Bool) (ap_mac target : Option Mac) (known : List Mac) (r : Outcome)
    : Type 0 where
  current : is_current ap_mac target ≡ true → r.ret ≡ negsuc 1 → Stayed saved ap_mac target known r
  nothing :
      All (λ m. is_dropped ap_mac target m ≡ false) known
      → r.ret ≡ nothing_found target
      → Stayed saved ap_mac target known r
  not_saved : saved ≡ false → r.ret ≡ negsuc 3 → Stayed saved ap_mac target known r

-- The file is as it was, with the reason, or entries were removed.
abbrev pub Forgotten : ℕ → Bool → Option Mac → Option (List ℕ) → Option Mac → Outcome → Type 0
Forgotten max saved ap_mac file target r =
    ((r.file ≡ file) × Stayed saved ap_mac target (peers_load max file) r)
    ⊎ Removed max ap_mac target (peers_load max file) r

none_dropped :
    (p q : Option Mac) (known : List Mac)
    → length (kept p q known) ≡ length known
    → All (λ m. is_dropped p q m ≡ false) known
unfolding kept
none_dropped p q [] e = tt
none_dropped p q (m ∷ known) e = elim (Bool-cases (is_dropped p q m)) [
  | inl drop ↦ absurd (omega (arith, rw drop at e, length-kept p q known))
  | inr stay ↦ (stay, none_dropped p q known (omega (arith, rw stay at e)))
]

forget_target-Forgotten :
    (max : ℕ) (saved : Bool) (ap_mac : Option Mac) (file : Option (List ℕ)) (target : Option Mac)
    → Forgotten max saved ap_mac file target (forget_target max saved ap_mac file target)
unfolding forget_target
forget_target-Forgotten max saved ap_mac file target =
    let known = peers_load max file in
    let left = kept ap_mac target known in
    elim (Bool-cases (is_current ap_mac target)) [
      | inl same ↦ rw same (inl (refl, current same refl))
      | inr free ↦ elim (Bool-cases (length left == length known)) [
        | inl none_found ↦
            rw (free, none_found)
              (inl (refl, nothing (none_dropped ap_mac target known (ground arith)) refl))
        | inr found ↦ elim (Bool-cases saved) [
          | inr failed ↦ rw (free, found, failed) (inl (refl, not_saved refl refl))
          | inl done ↦
              rw (free, found, done) (inr (removed max ap_mac target file free (ground arith)))
        ]
      ]
    ]

-- An argument that is no MAC gives -1 and changes nothing. With a MAC, or with no argument for all but
-- the current air unit: either the file stays as it is, since the target is the current air unit (-2),
-- there is nothing to drop (-3, or 0 with no argument), or the file cannot be replaced (-4); or
-- entries were removed: the result is how many fewer are loaded from then on, an entry is loaded
-- exactly if it was before and is not one to be dropped, and the current air unit is kept.
pub peers_forget-Forgotten :
    (max : ℕ) (saved : Bool) (config file hex : Option (List ℕ))
    → let r = peers_forget max saved config file hex in
      (((text : List ℕ) × (hex ≡ some text) × (mac_parse text ≡ none))
        × (r.ret ≡ negsuc 0)
        × (r.file ≡ file))
      ⊎ Forgotten max saved (read_ap_mac config) file (read_ap_mac hex) r
unfolding peers_forget read_ap_mac forget_parsed
peers_forget-Forgotten max saved config file none =
    inr (forget_target-Forgotten max saved (read_ap_mac config) file none)
peers_forget-Forgotten max saved config file (some text) = elim (Option-cases (mac_parse text)) [
  | inl bad ↦ rw bad (inl ((text, refl, bad), refl, refl))
  | inr (target, e) ↦
      rw e (inr (forget_target-Forgotten max saved (read_ap_mac config) file (some target)))
]
