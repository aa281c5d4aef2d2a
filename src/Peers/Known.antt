-- ===== src/Peers/Known.antt =====
-- What the operations on the known air units do to the list.
use ar8030_transport.Base.{
  ℕ, ◌-◌, ◌≤◌, ◌<◌, ◌≡◌, refl, sym, ap, ap₂, ◌∙◌, inl, inr, Bool, true, false, List, [], ◌∷◌, arith,
  ltb, ◌==◌, length, length-take, take, take-all, All-take, Bool-cases, Option, none, some,
}
use mathlib.Core.Option.{none-ne-some}
use ar8030_transport.Base.Int.{ℤ, pos, negsuc}
use ar8030_transport.Peers.Hex.{Mac, IsMac, mac_parse-IsMac}
use ar8030_transport.Peers.{
  mac_in, read_ap_mac, peers_load, peers_text, union, first_of, peers_effective, Outcome,
  peers_push, remember, note_known, note_ap, note_ap_mac,
}
use ar8030_transport.Peers.Lists.{same_mac_refl, Fresh, Fresh-cons, Fresh-take, union-append}
use ar8030_transport.Peers.Stored.{IsPeers, peers_load-peers_text, peers_load-IsPeers}

remember-take :
    (max : ℕ) (a : Mac) (known : List Mac)
    → length known ≤ max
    → remember max a known ≡ a ∷ take (max - 1) known
unfolding remember
remember-take max a known h = elim (Bool-cases (length known == max)) [
  | inl full ↦ rw full (ap (λ n. a ∷ take (n - 1) known) (ground arith))
  | inr room ↦ rw room (
      ap (λ l. a ∷ l)
        (take-all (length known) known (omega arith)
          ∙ sym (take-all (max - 1) known (ground arith))))
]

remember-IsPeers :
    (max : ℕ) (a : Mac) (known : List Mac)
    → 0 < max
    → IsMac a
    → mac_in a known ≡ false
    → IsPeers max known
    → IsPeers max (a ∷ take (max - 1) known)
unfolding mac_in
remember-IsPeers max a known pos_max mac new v = record {
  distinct = (refl, Fresh-take (max - 1) (a ∷ []) known (Fresh-cons a [] known v.distinct new));
  short = omega (arith, length-take (max - 1) known);
  macs = (mac, All-take IsMac (max - 1) known v.macs);
}

read_ap_mac-IsMac : (config : Option (List ℕ)) {a : Mac} → read_ap_mac config ≡ some a → IsMac a
unfolding read_ap_mac
read_ap_mac-IsMac none e = absurd (none-ne-some _ e)
read_ap_mac-IsMac (some text) e = mac_parse-IsMac text e

alone : (a : Mac) (known : List Mac) → length known ≡ 0 → a ∷ [] ≡ a ∷ known
alone a [] h = refl
alone a (k ∷ known) h = absurd (omega arith)

union_self :
    (max : ℕ) (a : Mac) (known : List Mac)
    → Fresh (a ∷ []) known
    → length (a ∷ known) ≤ max
    → union max (a ∷ []) (a ∷ known) ≡ a ∷ known
unfolding union mac_in
union_self max a known f h = elim (Bool-cases (ltb 1 max)) [
  | inl room ↦ rw (room, same_mac_refl a) (union-append max (a ∷ []) known f (omega arith))
  | inr full ↦ rw full (alone a known (ground arith))
]

-- The candidates are the stored list, where that starts with ap_mac.
effective_same :
    (max : ℕ) (config : Option (List ℕ)) (a : Mac) (known : List Mac)
    → read_ap_mac config ≡ some a
    → 0 < max
    → IsPeers max (a ∷ known)
    → peers_effective max config (some (peers_text (a ∷ known))) ≡ a ∷ known
unfolding peers_effective
effective_same max config a known e pos_max v =
    let room : ltb 0 max ≡ true = ground arith in
    let first : first_of max (some a) ≡ a ∷ [] = rw room refl in
    ap₂ (union max) (ap (first_of max) e ∙ first) (peers_load-peers_text max (a ∷ known) v)
    ∙ union_self max a known v.distinct.1 v.short

push_lem :
    (max : ℕ) (config : Option (List ℕ)) (answer : ℤ) (file : Option (List ℕ)) (a : Mac)
    (rest : List Mac)
    → peers_effective max config file ≡ a ∷ rest
    → peers_push max config answer file
      ≡ record { ret = answer; file = file; pushed = some (a ∷ rest) }
unfolding peers_push
push_lem max config answer file a rest e = rw e (ground arith)

-- What becomes of an air unit `a` that the configuration names, with the known ones.
pub data Noted (max : ℕ) (answer : ℤ) (file : Option (List ℕ)) (a : Mac) (known : List Mac)
    : Bool → Outcome → Type 0 where
  known_already :
      {saved : Bool} {r : Outcome}
      → mac_in a known ≡ true
      → r ≡ record { ret = pos 0; file = file; pushed = none }
      → Noted max answer file a known saved r
  not_saved :
      {saved : Bool} {r : Outcome}
      → mac_in a known ≡ false
      → saved ≡ false
      → r ≡ record { ret = negsuc 0; file = file; pushed = none }
      → Noted max answer file a known saved r
  remembered :
      {saved : Bool} {r : Outcome}
      → mac_in a known ≡ false
      → saved ≡ true
      → r.ret ≡ answer
      → peers_load max r.file ≡ a ∷ take (max - 1) known
      → r.pushed ≡ some (a ∷ take (max - 1) known)
      → Noted max answer file a known saved r

-- If the configuration names the air unit `a`, and the chip takes one candidate at least: a known one
-- changes nothing; a list that cannot be stored gives -1 and changes nothing; and else the list that
-- is loaded from then on is `a` and the others in their order, the oldest left out of a full one, the
-- same list is pushed to the chip, and the result is the chip's.
pub note_ap_mac-Noted :
    (max : ℕ) (saved : Bool) (config : Option (List ℕ)) (answer : ℤ) (file : Option (List ℕ))
    (a : Mac)
    → 0 < max
    → read_ap_mac config ≡ some a
    → Noted max answer file a (peers_load max file) saved (note_ap_mac max saved config answer file)
unfolding note_ap_mac note_ap
note_ap_mac-Noted max saved config answer file a pos_max e =
    let known = peers_load max file in
    let new_list = a ∷ take (max - 1) known in
    rw e (elim (Bool-cases (mac_in a known)) [
      | inl old ↦ known_already old (rw old refl)
      | inr new ↦ elim (Bool-cases saved) [
        | inr failed ↦ not_saved new failed (rw (new, failed) refl)
        | inl done ↦
            let v = peers_load-IsPeers max file in
            let list = remember-take max a known v.short in
            let valid = remember-IsPeers max a known pos_max (read_ap_mac-IsMac config e) new v in
            let text = some (peers_text (remember max a known)) in
            let loaded : peers_load max text ≡ new_list =
              ap (λ l. peers_load max (some (peers_text l))) list
              ∙ peers_load-peers_text max new_list valid in
            let candidates : peers_effective max config text ≡ new_list =
              ap (λ l. peers_effective max config (some (peers_text l))) list
              ∙ effective_same max config a (take (max - 1) known) e pos_max valid in
            let p = push_lem max config answer text a (take (max - 1) known) candidates in
            let whole : note_known max saved config answer file a
                ≡ peers_push max config answer text =
              rw (new, done, note_known) refl in
            remembered new done (ap (λ r. r.ret) (whole ∙ p))
              (ap (λ r. peers_load max r.file) (whole ∙ p) ∙ loaded)
              (ap (λ r. r.pushed) (whole ∙ p))
      ]
    ])
