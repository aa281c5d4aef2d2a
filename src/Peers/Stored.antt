-- ===== src/Peers/Stored.antt =====
-- What is loaded from the sidecar file, and that a stored list is loaded again.
use ar8030_transport.Base.{
  ℕ, zero, suc, ◌+◌, ◌/◌, ◌%◌, ◌≤◌, ◌<◌, ◌≡◌, refl, sym, ap, ◌∙◌, true, false, List, [], ◌∷◌, ◌++◌,
  arith, ltb, ◌==◌, length, length-append, append-nil, append_assoc, ltb→lt, Bool-cases, inl, inr,
  Option, none, some, All, All-append,
}
use ar8030_transport.Peers.Hex.{
  Mac, IsMac, mac_parse, mac_hex, hex_digit, length-mac_hex, mac_parse-mac_hex, mac_parse-IsMac,
}
use ar8030_transport.Peers.{
  mac_in, fgets, ends_line, cut_line, add_line, load_from, peers_load, peers_text,
}
use ar8030_transport.Peers.Lists.{Fresh, Distinct, Distinct-snoc}

-- A list that the file may hold.
pub record IsPeers (max : ℕ) (tab : List Mac) : Type 0 where
  pub distinct : Distinct tab
  pub short : length tab ≤ max
  pub macs : All IsMac tab

abbrev Plain : List ℕ → Type 0
Plain = All (λ c. ends_line c ≡ false)

hex_digit-plain : (d : ℕ) → d < 16 → ends_line (hex_digit d) ≡ false
unfolding hex_digit
hex_digit-plain d h = ground arith

mac_hex-Plain : (m : Mac) → All (λ b. b < 256) m → Plain (mac_hex m)
unfolding mac_hex
mac_hex-Plain [] a = tt
mac_hex-Plain (b ∷ m) a = (
  hex_digit-plain (b / 16) (omega (arith, a.0)),
  (hex_digit-plain (b % 16) (omega arith), mac_hex-Plain m a.1),
)

not_newline : (c : ℕ) → ends_line c ≡ false → (c == 10) ≡ false
not_newline c h = ground arith

fgets-line :
    (n : ℕ) (line rest : List ℕ)
    → Plain line
    → length line < n
    → fgets n (line ++ (10 ∷ rest)) ≡ (line ++ (10 ∷ []), rest)
unfolding fgets
fgets-line zero line rest p h = absurd (omega arith)
fgets-line (suc n) [] rest p h = refl
fgets-line (suc n) (c ∷ line) rest p h =
    let other : (c == 10) ≡ false = not_newline c p.0 in
    rw (other, fgets-line n line rest p.1 (omega arith)) refl

cut_line-line : (line : List ℕ) → Plain line → cut_line (line ++ (10 ∷ [])) ≡ line
unfolding cut_line
cut_line-line [] p = refl
cut_line-line (c ∷ line) p = rw (p.0) (ap (λ l. c ∷ l) (cut_line-line line p.1))

load-line :
    (fuel max : ℕ) (out : List Mac) (c : ℕ) (line rest : List ℕ)
    → Plain (c ∷ line)
    → length (c ∷ line) < 31
    → length out < max
    → load_from (suc fuel) max out (c ∷ (line ++ (10 ∷ rest)))
      ≡ load_from fuel max (add_line out (mac_parse (c ∷ line))) rest
unfolding load_from
load-line fuel max out c line rest p short room =
    let open_ : ltb (length out) max ≡ true = ground arith in
    rw (open_, fgets-line 31 (c ∷ line) rest p short, cut_line-line (c ∷ line) p) refl

load-peers_text :
    (fuel max : ℕ) (out tab : List Mac)
    → length (peers_text tab) ≤ fuel
    → All IsMac tab
    → Fresh out tab
    → length out + length tab ≤ max
    → load_from fuel max out (peers_text tab) ≡ out ++ tab
unfolding load_from peers_text mac_hex add_line
load-peers_text zero max out [] f a d h = sym (append-nil out)
load-peers_text (suc fuel) max out [] f a d h = sym (append-nil out)
load-peers_text zero max out (m ∷ tab) f a d h =
    absurd (omega (arith, length-append (mac_hex m) (10 ∷ peers_text tab)))
load-peers_text (suc fuel) max out ([] ∷ tab) f a d h = absurd (omega (arith, a.0.0))
load-peers_text (suc fuel) max out ((b ∷ m) ∷ tab) f a d h =
    let mac = b ∷ m in
    let c = hex_digit (b / 16) in
    let line = hex_digit (b % 16) ∷ mac_hex m in
    let size = length-append (mac_hex mac) (10 ∷ peers_text tab) in
    let step =
      load-line fuel max out c line (peers_text tab) (mac_hex-Plain mac a.0.1)
        (omega (arith, length-mac_hex mac, a.0.0)) (omega arith) in
    let added : add_line out (mac_parse (mac_hex mac)) ≡ out ++ (mac ∷ []) =
      rw (mac_parse-mac_hex mac a.0) (rw (d.0) refl) in
    let rest =
      load-peers_text fuel max (out ++ (mac ∷ [])) tab (omega (arith, size)) a.1 d.1
        (omega (arith, length-append out (mac ∷ []))) in
    step
    ∙ ap (λ o. load_from fuel max o (peers_text tab)) added
    ∙ rest
    ∙ append_assoc out (mac ∷ []) tab

-- A list within the limits is loaded as it was stored.
pub peers_load-peers_text :
    (max : ℕ) (tab : List Mac) → IsPeers max tab → peers_load max (some (peers_text tab)) ≡ tab
unfolding peers_load
peers_load-peers_text max tab v =
    load-peers_text (length (peers_text tab)) max [] tab (omega arith) v.macs v.distinct
      (omega (arith, v.short))

add_line-IsPeers :
    (max : ℕ) (out : List Mac) (o : Option Mac)
    → IsPeers max out
    → length out < max
    → ((m : Mac) → o ≡ some m → IsMac m)
    → IsPeers max (add_line out o)
unfolding add_line
add_line-IsPeers max out none v room macs = v
add_line-IsPeers max out (some m) v room macs = elim (Bool-cases (mac_in m out)) [
  | inl old ↦ rw old v
  | inr new ↦ rw new (record {
    distinct = Distinct-snoc out m v.distinct new;
    short = omega (arith, length-append out (m ∷ []));
    macs = All-append IsMac out (m ∷ []) v.macs (macs m refl, tt);
  })
]

load_from-IsPeers :
    (fuel max : ℕ) (out : List Mac) (bs : List ℕ)
    → IsPeers max out
    → IsPeers max (load_from fuel max out bs)
unfolding load_from
load_from-IsPeers zero max out bs v = v
load_from-IsPeers (suc fuel) max out [] v = v
load_from-IsPeers (suc fuel) max out (b ∷ bs) v =
    let line = fgets 31 (b ∷ bs) in
    let parsed = mac_parse (cut_line line.0) in
    elim (Bool-cases (ltb (length out) max)) [
      | inr full ↦ rw full v
      | inl room ↦ rw room (
          load_from-IsPeers fuel max (add_line out parsed) line.1 (
            add_line-IsPeers max out parsed v (ltb→lt _ _ room)
              (λ m e. mac_parse-IsMac (cut_line line.0) e)))
    ]

-- Whatever the file holds, what is loaded is within the limits.
pub peers_load-IsPeers : (max : ℕ) (file : Option (List ℕ)) → IsPeers max (peers_load max file)
unfolding peers_load
peers_load-IsPeers max none = record { distinct = tt; short = omega arith; macs = tt }
peers_load-IsPeers max (some bs) =
    load_from-IsPeers (length bs) max [] bs
      (record { distinct = tt; short = omega arith; macs = tt })
