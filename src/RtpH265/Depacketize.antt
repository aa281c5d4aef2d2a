-- ===== src/RtpH265/Depacketize.antt =====
-- The packets of a NAL unit, taken apart as RFC 7798 says, give the NAL unit back.
use Prim.Native.Nat.{bit_and, bit_or}
use native.Mathlib.Decide.{dec_le}
use ar8030_transport.Base.{
  ℕ, zero, suc, ◌+◌, ◌-◌, ◌*◌, ◌/◌, ◌%◌, ◌≤◌, ◌<◌, ◌≡◌, ◌≢◌, refl, sym, ap, ◌∙◌, List, [], ◌∷◌,
  ◌++◌, map, Bool, true, false, not, ◌&&◌, Option, none, some, arith, ltb, leb, ◌==◌, if◌then◌else◌,
  length, take, drop, Bool-cases, inl, inr, length-drop, drop-drop, take-append-drop, take-all,
  append-nil, u8,
}
use ar8030_transport.Base.Bits.{all_below, all_below_sound}
use ar8030_transport.RtpH265.{Piece, frag_len, fu_piece, max_frag_of, nal_fu, nal_type_of, byte_at}
use ar8030_transport.RtpH265.Pieces.{fu_pieces, pieces, pieces_lone, pieces_split}

abbrev pub payload : Piece → List ℕ
payload x = x.prefix ++ x.body

-- The fragments' bytes. The first packet alone has the start bit, the last one alone the end bit.
unfoldable pub join_fu : Bool → List (List ℕ) → Option (List ℕ)
join_fu first [] = none
join_fu first (x ∷ xs) =
    let starts = leb 128 (byte_at x 2) in
    let ends = byte_at x 2 / 64 % 2 == 1 in
    let rest = join_fu false xs in
    elim (if first then starts else not starts) [
      | false ↦ none
      | true ↦ elim ends [
        | true ↦ elim (length xs == 0) [ true ↦ some (drop 3 x) | false ↦ none ]
        | false ↦ elim rest [ none ↦ none | some bytes ↦ some (drop 3 x ++ bytes) ]
      ]
    ]

-- A lone packet is its NAL unit; fragments carry its header in theirs.
unfoldable pub nal_of : List (List ℕ) → Option (List ℕ)
nal_of [] = none
nal_of (x ∷ xs) =
    if nal_type_of (byte_at x 0) == nal_fu
    then elim (join_fu true (x ∷ xs)) [
      | none ↦ none
      | some bytes ↦
          some
            (u8 (bit_or (bit_and (byte_at x 0) 0x81) (byte_at x 2 % 64 * 2)) ∷ byte_at x 1 ∷ bytes)
    ]
    else if length xs == 0
    then some x
    else none

-- What the three header bytes of a fragment say.
abbrev fu_of : ℕ → Bool → Bool → ℕ
fu_of hdr0 start end =
    u8 (bit_or (bit_or (if start then 128 else 0) (if end then 64 else 0)) (nal_type_of hdr0))

abbrev indicator : ℕ → ℕ
indicator hdr0 = u8 (bit_or (bit_and hdr0 0x81) (bit_and nal_fu 0x3F * 2))

abbrev bit_is : Bool → Bool → Bool
bit_is true b = b
bit_is false b = not b

abbrev says : ℕ → Bool → Bool → Bool
says h s e =
    (nal_type_of (indicator h) == nal_fu)
    && ((u8 (bit_or (bit_and (indicator h) 0x81) (fu_of h s e % 64 * 2)) == h)
        && (bit_is s (leb 128 (fu_of h s e)) && bit_is e (fu_of h s e / 64 % 2 == 1)))

fu_table : (s e : Bool) → all_below 256 (λ h. says h s e) ≡ true
unfolding all_below
fu_table true true = refl
fu_table true false = refl
fu_table false true = refl
fu_table false false = refl

fu_says : (h : ℕ) (s e : Bool) → h < 256 → says h s e ≡ true
fu_says h s e lt = all_below_sound 256 (λ k. says k s e) h (fu_table s e) lt

and_true : (x y : Bool) → (x && y) ≡ true → (x ≡ true) × (y ≡ true)
and_true true y e = (refl, e)
and_true false y e = absurd (cc)

fu_header :
    (h : ℕ) (s e : Bool)
    → h < 256
    → ((nal_type_of (indicator h) == nal_fu) ≡ true)
      × ((u8 (bit_or (bit_and (indicator h) 0x81) (fu_of h s e % 64 * 2)) == h) ≡ true)
fu_header h s e lt =
    let (fu, rest) = and_true (nal_type_of (indicator h) == nal_fu) _ (fu_says h s e lt) in
    (fu, (and_true (u8 (bit_or (bit_and (indicator h) 0x81) (fu_of h s e % 64 * 2)) == h) _ rest).0)

fu_marks :
    (h : ℕ) (s e : Bool)
    → h < 256
    → (bit_is s (leb 128 (fu_of h s e)) ≡ true) × (bit_is e (fu_of h s e / 64 % 2 == 1) ≡ true)
fu_marks h s e lt =
    let (fu, rest) = and_true (nal_type_of (indicator h) == nal_fu) _ (fu_says h s e lt) in
    and_true (bit_is s (leb 128 (fu_of h s e))) _
      (and_true (u8 (bit_or (bit_and (indicator h) 0x81) (fu_of h s e % 64 * 2)) == h) _ rest).1

not-true : (x : Bool) → not x ≡ true → x ≡ false
not-true true e = absurd (cc)
not-true false e = refl

join_last :
    (first : Bool) (i b f : ℕ) (ds : List ℕ)
    → bit_is first (leb 128 f) ≡ true
    → (f / 64 % 2 == 1) ≡ true
    → join_fu first ((i ∷ b ∷ f ∷ ds) ∷ []) ≡ some ds
unfolding join_fu
join_last true i b f ds s e = let starts : leb 128 f ≡ true = s in rw (starts, e, join_fu) refl
join_last false i b f ds s e = rw (not-true (leb 128 f) s, e, join_fu) refl

join_more :
    (first : Bool) (i b f : ℕ) (ds bytes : List ℕ) (xs : List (List ℕ))
    → bit_is first (leb 128 f) ≡ true
    → (f / 64 % 2 == 1) ≡ false
    → join_fu false xs ≡ some bytes
    → join_fu first ((i ∷ b ∷ f ∷ ds) ∷ xs) ≡ some (ds ++ bytes)
unfolding join_fu
join_more true i b f ds bytes xs s e r =
    let starts : leb 128 f ≡ true = s in rw (starts, e, r, join_fu) refl
join_more false i b f ds bytes xs s e r = rw (not-true (leb 128 f) s, e, r, join_fu) refl

max_frag_pos : (m : ℕ) → 0 < max_frag_of m
unfolding max_frag_of
max_frag_pos m = ground arith

module _ (a b : ℕ) (body : List ℕ) (is_last : Bool) (max_frag : ℕ) (byte : a < 256)
    (pos : 0 < max_frag) where
  abbrev frags : ℕ → ℕ → List (List ℕ)
  frags n off = map payload (fu_pieces (a ∷ b ∷ body) is_last max_frag n off)

  abbrev len_at : ℕ → ℕ
  len_at off = frag_len max_frag (length body) off

  frag_len_lem :
      (off : ℕ) → (0 < length body - off → 0 < len_at off) × (len_at off ≤ length body - off)
  unfolding frag_len
  frag_len_lem off = ground arith

  frags_end : (n off : ℕ) → length body ≤ off → frags n off ≡ []
  unfolding fu_pieces
  frags_end zero off h = refl
  frags_end (suc n) off h = let e : ltb off (length body) ≡ false = ground arith in rw e refl

  frags_next :
      (n off : ℕ)
      → off < length body
      → frags (suc n) off
        ≡ (indicator a
            ∷ b
            ∷ fu_of a (off == 0) (leb (length body) (off + len_at off))
            ∷ take (len_at off) (drop off body))
          ∷ frags n (off + len_at off)
  unfolding fu_pieces fu_piece
  frags_next n off h = let e : ltb off (length body) ≡ true = ground arith in rw e refl

  join_frags :
      (n off : ℕ)
      → off < length body
      → length body ≤ off + n
      → join_fu (off == 0) (frags n off) ≡ some (drop off body)
  join_frags zero off h k = absurd (omega arith)
  join_frags (suc n) off h k =
      let (grows, fits) = frag_len_lem off in
      elim (Bool-cases (leb (length body) (off + len_at off))) [
        | inl e ↦
            let past : length body ≤ off + len_at off = ground arith in
            let marks = fu_marks a (off == 0) true byte in
            rw (frags_next n off h, frags_end n (off + len_at off) past, e)
              (join_last (off == 0) (indicator a) b (fu_of a (off == 0) true)
                  (take (len_at off) (drop off body)) marks.0 marks.1
                ∙ ap some
                    (take-all (len_at off) (drop off body) (omega (arith, length-drop off body))))
        | inr e ↦
            let before : off + len_at off < length body = ground arith in
            let more : 0 < len_at off = grows (omega arith) in
            let z : (off + len_at off == 0) ≡ false = ground arith in
            let marks = fu_marks a (off == 0) false byte in
            let rest = join_frags n (off + len_at off) before (omega arith) in
            rw (frags_next n off h, e)
              (join_more (off == 0) (indicator a) b (fu_of a (off == 0) false)
                  (take (len_at off) (drop off body)) (drop (off + len_at off) body)
                  (frags n (off + len_at off)) marks.0
                  (not-true (fu_of a (off == 0) false / 64 % 2 == 1) marks.1) (rw z at rest)
                ∙ ap some (
                    ap (λ t. take (len_at off) (drop off body) ++ t)
                      (sym (drop-drop (len_at off) off body))
                    ∙ take-append-drop (len_at off) (drop off body)))
      ]

  nal_of-fragments :
      (n : ℕ) → 0 < length body → length body ≤ n → nal_of (frags (suc n) 0) ≡ some (a ∷ b ∷ body)
  unfolding nal_of
  nal_of-fragments n some_body enough =
      let whole = join_frags (suc n) 0 some_body (omega arith) in
      let header = fu_header a true (leb (length body) (0 + len_at 0)) byte in
      let same : u8 (
            bit_or (bit_and (indicator a) 0x81)
              (fu_of a true (leb (length body) (0 + len_at 0)) % 64 * 2))
          ≡ a =
        ground (arith, header.1) in
      let next = frags_next n 0 some_body in
      let whole' = rw next at whole in rw (next, header.0, whole', same) refl

nal_of-lone : (x : List ℕ) → nal_type_of (byte_at x 0) ≢ nal_fu → nal_of (x ∷ []) ≡ some x
unfolding nal_of
nal_of-lone x plain =
    let other : (nal_type_of (byte_at x 0) == nal_fu) ≡ false = ground arith in rw other refl

-- Whatever NAL unit is sent, a receiver that takes its packets apart has the NAL unit back: alone
-- when it fits, else as fragments that carry its header, the first one and the last one marked.
-- It has two bytes of header at least, and is not itself a fragmentation unit; payloads of two
-- bytes at least are allowed.
pub nal_of-pieces :
    (max_payload : ℕ) (a b : ℕ) (body : List ℕ) (is_last : Bool)
    → a < 256
    → 1 < max_payload
    → nal_type_of a ≢ nal_fu
    → nal_of (map payload (pieces max_payload (a ∷ b ∷ body) is_last)) ≡ some (a ∷ b ∷ body)
nal_of-pieces max_payload a b body is_last byte two plain =
    elim (dec_le (length (a ∷ b ∷ body)) max_payload) [
      | yes fits ↦
          rw (pieces_lone max_payload (a ∷ b ∷ body) is_last (omega arith) fits)
            (nal_of-lone (a ∷ b ∷ body ++ []) plain ∙ ap (λ t. some (a ∷ b ∷ t)) (append-nil body))
      | no long ↦ rw (pieces_split max_payload (a ∷ b ∷ body) is_last (omega arith) (omega arith)) (
          nal_of-fragments a b body is_last (max_frag_of max_payload) byte
            (max_frag_pos max_payload) (suc (length body)) (omega arith) (omega arith))
    ]
