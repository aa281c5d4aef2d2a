-- ===== src/RtpH265/Pieces.antt =====
-- What is sent of one NAL unit: itself, or fragments that fit.
use mathlib.Core.Path.{subst}
use ar8030_transport.Base.{
  ℕ, zero, suc, ◌+◌, ◌-◌, ◌≤◌, ◌<◌, ◌≡◌, refl, sym, ap, ◌∙◌, List, [], ◌∷◌, ◌++◌, Bool, true, false,
  arith, ltb, leb, if◌then◌else◌, length, drop, Bool-cases, inl, inr, length-take, All,
}
use ar8030_transport.RtpH265.{
  Piece, World, frag_len, fu_piece, max_frag_of, send_packet, send_frags, send_nal, send_each,
}

-- The fragments from `off` on.
unfoldable pub fu_pieces : List ℕ → Bool → ℕ → ℕ → ℕ → List Piece
fu_pieces p is_last max_frag zero off = []
fu_pieces p is_last max_frag (suc n) off =
    let len = frag_len max_frag (length (drop 2 p)) off in
    let rest = fu_pieces p is_last max_frag n (off + len) in
    if ltb off (length (drop 2 p)) then fu_piece p is_last max_frag off ∷ rest else []

unfoldable pub pieces : ℕ → List ℕ → Bool → List Piece
pieces max_payload p is_last =
    if ltb (length p) 2
    then []
    else if leb (length p) max_payload
    then record { prefix = p; body = []; marker = is_last } ∷ []
    else fu_pieces p is_last (max_frag_of max_payload) (length p) 0

pub pieces_lone :
    (max_payload : ℕ) (p : List ℕ) (is_last : Bool)
    → 2 ≤ length p
    → length p ≤ max_payload
    → pieces max_payload p is_last ≡ record { prefix = p; body = []; marker = is_last } ∷ []
unfolding pieces
pieces_lone max_payload p is_last h k =
    let valid : ltb (length p) 2 ≡ false = ground arith in
    let fits : leb (length p) max_payload ≡ true = ground arith in rw (valid, fits) refl

pub pieces_split :
    (max_payload : ℕ) (p : List ℕ) (is_last : Bool)
    → 2 ≤ length p
    → max_payload < length p
    → pieces max_payload p is_last ≡ fu_pieces p is_last (max_frag_of max_payload) (length p) 0
unfolding pieces
pieces_split max_payload p is_last h k =
    let valid : ltb (length p) 2 ≡ false = ground arith in
    let long : leb (length p) max_payload ≡ false = ground arith in rw (valid, long) refl

abbrev pub Fits : ℕ → Piece → Type 0
Fits max_payload x = length x.prefix + length x.body ≤ max_payload

fu_pieces-Fits :
    (p : List ℕ) (is_last : Bool) (max_frag n off : ℕ)
    → All (Fits (3 + max_frag)) (fu_pieces p is_last max_frag n off)
unfolding fu_pieces fu_piece frag_len
fu_pieces-Fits p is_last max_frag zero off = tt
fu_pieces-Fits p is_last max_frag (suc n) off =
    let len : ℕ = frag_len max_frag (length (drop 2 p)) off in
    elim (Bool-cases (ltb off (length (drop 2 p)))) [
      | inl e ↦ rw e (
        ground (arith, length-take len (drop off (drop 2 p))),
        fu_pieces-Fits p is_last max_frag n (off + len),
      )
      | inr e ↦ rw e tt
    ]

-- Where more than three bytes are allowed, no packet's payload is longer than max_payload.
pub pieces-Fits :
    (max_payload : ℕ) (p : List ℕ) (is_last : Bool)
    → 3 < max_payload
    → All (Fits max_payload) (pieces max_payload p is_last)
unfolding pieces max_frag_of
pieces-Fits max_payload p is_last room =
    let split : ltb 3 max_payload ≡ true = ground arith in
    let back : 3 + (max_payload - 3) ≡ max_payload = omega arith in
    elim (Bool-cases (ltb (length p) 2)) [
      | inl e ↦ rw e tt
      | inr e ↦ elim (Bool-cases (leb (length p) max_payload)) [
        | inl f ↦ rw (e, f) (ground arith, tt)
        | inr f ↦
            rw (e, f, split)
              (subst (λ m. All (Fits m) (fu_pieces p is_last (max_payload - 3) (length p) 0)) back
                (fu_pieces-Fits p is_last (max_payload - 3) (length p) 0))
      ]
    ]

-- The pieces of some NAL units, of which the last may end the access unit.
abbrev pub all_pieces : ℕ → Bool → List (List ℕ) → List Piece
all_pieces max_payload au_end [] = []
all_pieces max_payload au_end (p ∷ []) = pieces max_payload p au_end
all_pieces max_payload au_end (p ∷ q ∷ nals) =
    pieces max_payload p false ++ all_pieces max_payload au_end (q ∷ nals)

module _ {S : Type 0} (send : S → List ℕ → Bool × S) (ts : ℕ) where
  unfoldable pub send_pieces : List Piece → World S → World S
  send_pieces [] w = w
  send_pieces (x ∷ xs) w = send_pieces xs (send_packet send ts x w)

  send_pieces-append :
      (xs ys : List Piece) (w : World S)
      → send_pieces (xs ++ ys) w ≡ send_pieces ys (send_pieces xs w)
  unfolding send_pieces
  send_pieces-append [] ys w = refl
  send_pieces-append (x ∷ xs) ys w = send_pieces-append xs ys (send_packet send ts x w)

  max_payload-send_packet :
      (x : Piece) (w : World S) → (send_packet send ts x w).ctx.max_payload ≡ w.ctx.max_payload
  unfolding send_packet
  max_payload-send_packet x w = ground arith

  max_payload-send_pieces :
      (xs : List Piece) (w : World S) → (send_pieces xs w).ctx.max_payload ≡ w.ctx.max_payload
  unfolding send_pieces
  max_payload-send_pieces [] w = refl
  max_payload-send_pieces (x ∷ xs) w =
      max_payload-send_pieces xs (send_packet send ts x w) ∙ max_payload-send_packet x w

  send_frags_lem :
      (p : List ℕ) (is_last : Bool) (max_frag n off : ℕ) (w : World S)
      → send_frags send ts p is_last max_frag n off w
        ≡ send_pieces (fu_pieces p is_last max_frag n off) w
  unfolding send_frags send_pieces fu_pieces
  send_frags_lem p is_last max_frag zero off w = refl
  send_frags_lem p is_last max_frag (suc n) off w =
      elim (Bool-cases (ltb off (length (drop 2 p)))) [
        | inl e ↦ rw e (
            send_frags_lem p is_last max_frag n (off + frag_len max_frag (length (drop 2 p)) off)
              (send_packet send ts (fu_piece p is_last max_frag off) w))
        | inr e ↦ rw e refl
      ]

  send_nal_lem :
      (p : List ℕ) (is_last : Bool) (w : World S)
      → send_nal send ts p is_last w ≡ send_pieces (pieces w.ctx.max_payload p is_last) w
  unfolding send_nal pieces send_pieces
  send_nal_lem p is_last w = elim (Bool-cases (ltb (length p) 2)) [
    | inl e ↦ rw e refl
    | inr e ↦ elim (Bool-cases (leb (length p) w.ctx.max_payload)) [
      | inl f ↦ rw (e, f) refl
      | inr f ↦ rw (e, f) (send_frags_lem p is_last (max_frag_of w.ctx.max_payload) (length p) 0 w)
    ]
  ]

  -- Sending NAL units offers the socket exactly their pieces, in order, each as one datagram with
  -- the next sequence number, whatever the socket answers.
  pub send_each_lem :
      (au_end : Bool) (nals : List (List ℕ)) (w : World S)
      → send_each send ts au_end nals w ≡ send_pieces (all_pieces w.ctx.max_payload au_end nals) w
  unfolding send_each
  send_each_lem au_end [] w = unfold send_pieces in refl
  send_each_lem au_end (p ∷ []) w = send_nal_lem p au_end w
  send_each_lem au_end (p ∷ q ∷ nals) w =
      let first = pieces w.ctx.max_payload p false in
      let same : (send_nal send ts p false w).ctx.max_payload ≡ w.ctx.max_payload =
        ap (λ v. v.ctx.max_payload) (send_nal_lem p false w) ∙ max_payload-send_pieces first w in
      send_each_lem au_end (q ∷ nals) (send_nal send ts p false w)
      ∙ ap (λ m. send_pieces (all_pieces m au_end (q ∷ nals)) (send_nal send ts p false w)) same
      ∙ ap (send_pieces (all_pieces w.ctx.max_payload au_end (q ∷ nals))) (send_nal_lem p false w)
      ∙ sym (send_pieces-append first (all_pieces w.ctx.max_payload au_end (q ∷ nals)) w)
