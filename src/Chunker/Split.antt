-- ===== src/Chunker/Split.antt =====
-- The pieces that the chunker cuts: none is lost, none overlaps, none exceeds the chunk payload.
use native.Mathlib.Nat.{div-add-mod', mod-lt, mul-le-mul_right}
use native.Mathlib.Decide.{dec_le}
use ar8030_transport.Base.{
  ℕ, zero, suc, ◌+◌, ◌-◌, ◌*◌, ◌/◌, ◌%◌, ◌≤◌, ◌<◌, min, ◌≡◌, sym, ap, ◌∙◌, ◌≡⟨◌⟩◌, ◌∎, List, [],
  ◌++◌, arith, length, take, drop, length-take, length-drop, take-append-drop, take-all, drop-all,
  drop-drop, u32, sub32, ◌==◌, if◌then◌else◌,
}
use ar8030_transport.Chunker.{Source, count_chunks, chunk_len, chunk_body}

-- The division of `count_chunks`, between two products.
pub count_chunks_bounds :
    (len cp : ℕ)
    → 0 < cp
    → len + cp < 4294967296
    → (len ≤ count_chunks len cp * cp)
      × (0 < count_chunks len cp)
      × ((count_chunks len cp - 1) * cp ≤ len)
unfolding count_chunks
count_chunks_bounds len cp pos fits =
    let e : sub32 (u32 (len + cp)) 1 ≡ len + cp - 1 = omega arith in
    rw e (bounds ((len + cp - 1) / cp) (div-add-mod' (len + cp - 1) cp))
  where
    bounds :
        (q : ℕ)
        → q * cp + (len + cp - 1) % cp ≡ len + cp - 1
        → (len ≤ (if q == 0 then 1 else q) * cp)
          × (0 < (if q == 0 then 1 else q))
          × (((if q == 0 then 1 else q) - 1) * cp ≤ len)
    bounds zero d = omega (arith, mod-lt (len + cp - 1) pos)
    bounds (suc q) d = ground (arith, mod-lt (len + cp - 1) pos)

-- Chunk `i` of `count` starts inside the frame.
chunk_start : (len cp count i : ℕ) → (count - 1) * cp ≤ len → i < count → i * cp ≤ len
chunk_start len cp count i h lt =
    let m : i * cp ≤ (count - 1) * cp = mul-le-mul_right cp (omega arith) in omega arith

pub chunk_len_lem :
    (len cp i : ℕ) → len < 4294967296 → i * cp ≤ len → chunk_len len cp i ≡ min cp (len - i * cp)
unfolding chunk_len
chunk_len_lem len cp i fits h = ground arith

take-min {ℓ} :
    {A : Type ℓ} (n : ℕ) (xs : List A) (k : ℕ) → k ≡ length xs → take (min n k) xs ≡ take n xs
take-min n xs k e = elim (dec_le n k) [
  | yes p ↦ let f : min n k ≡ n = omega arith in rw f
  | no p ↦
      let f : min n k ≡ length xs = omega arith in
      rw f (take-all (length xs) xs (omega arith) ∙ sym (take-all n xs (omega arith)))
]

pub chunk_body_lem :
    (s : Source) (i : ℕ)
    → length s.bytes < 4294967296
    → i * s.chunk_payload ≤ length s.bytes
    → chunk_body s i ≡ take s.chunk_payload (drop (i * s.chunk_payload) s.bytes)
unfolding chunk_body
chunk_body_lem s i fits h =
    let e : u32 (i * s.chunk_payload) ≡ i * s.chunk_payload = omega arith in
    rw (e, chunk_len_lem (length s.bytes) s.chunk_payload i fits h)
      (take-min s.chunk_payload (drop (i * s.chunk_payload) s.bytes) _
        (sym (length-drop (i * s.chunk_payload) s.bytes)))

pub length-chunk_body :
    (s : Source) (i : ℕ)
    → length s.bytes < 4294967296
    → i * s.chunk_payload ≤ length s.bytes
    → length (chunk_body s i) ≡ chunk_len (length s.bytes) s.chunk_payload i
length-chunk_body s i fits h =
    rw (chunk_body_lem s i fits h, chunk_len_lem (length s.bytes) s.chunk_payload i fits h)
      (omega (
        arith,
        length-take s.chunk_payload (drop (i * s.chunk_payload) s.bytes),
        length-drop (i * s.chunk_payload) s.bytes,
      ))

-- The bodies of `n` chunks from chunk `i`, joined.
abbrev pub bodies : Source → ℕ → ℕ → List ℕ
bodies s zero i = []
bodies s (suc n) i = chunk_body s i ++ bodies s n (i + 1)

-- A call's source: the limits that `chunk_run` checks, and a frame that fits a uint32_t.
pub record IsSource (s : Source) : Type 0 where
  pub payload_pos : 0 < s.chunk_payload
  pub payload_fits : s.chunk_payload < 65536
  pub bytes_fit : length s.bytes < 4294901760

abbrev pub count_of : Source → ℕ
count_of s = count_chunks (length s.bytes) s.chunk_payload

pub start_in_frame :
    (s : Source) (i : ℕ) → IsSource s → i < count_of s → i * s.chunk_payload ≤ length s.bytes
start_in_frame s i v lt =
    chunk_start (length s.bytes) s.chunk_payload (count_of s) i
      (count_chunks_bounds (length s.bytes) s.chunk_payload v.payload_pos (omega arith)).2 lt

bodies_from :
    (s : Source) (n i : ℕ)
    → IsSource s
    → i + n ≡ count_of s
    → bodies s n i ≡ drop (i * s.chunk_payload) s.bytes
bodies_from s zero i v e = sym (
    drop-all (i * s.chunk_payload) s.bytes (
      omega (
        arith,
        ap (λ (t : ℕ). t * s.chunk_payload) e,
        count_chunks_bounds (length s.bytes) s.chunk_payload v.payload_pos (omega arith),
      )))
bodies_from s (suc n) i v e =
    let off = i * s.chunk_payload in
    let next : (i + 1) * s.chunk_payload ≡ off + s.chunk_payload = omega arith in
    chunk_body s i ++ bodies s n (i + 1)
    ≡⟨ ap (λ t. chunk_body s i ++ t) (bodies_from s n (i + 1) v (omega arith)) ⟩
      chunk_body s i ++ drop ((i + 1) * s.chunk_payload) s.bytes
    ≡⟨ rw (next, ← drop-drop s.chunk_payload off s.bytes)
        (ap (λ t. t ++ drop s.chunk_payload (drop off s.bytes))
          (chunk_body_lem s i (omega arith) (start_in_frame s i v (omega arith)))) ⟩
      take s.chunk_payload (drop off s.bytes) ++ drop s.chunk_payload (drop off s.bytes)
    ≡⟨ take-append-drop s.chunk_payload (drop off s.bytes) ⟩ drop off s.bytes ∎

-- For a frame shorter than 4294901760 bytes, the chunks' bodies, joined in order, are the frame: no byte is lost, repeated or moved, and
-- every body holds at most the chunk payload.
pub bodies_lem :
    (s : Source)
    → IsSource s
    → (bodies s (count_of s) 0 ≡ s.bytes)
      × ((i : ℕ) → i < count_of s → length (chunk_body s i) ≤ s.chunk_payload)
bodies_lem s v =
    let z : 0 * s.chunk_payload ≡ 0 = omega arith in
    (
      bodies_from s (count_of s) 0 v (omega arith) ∙ ap (λ k. drop k s.bytes) z,
      λ i lt. omega (
        arith,
        length-chunk_body s i (omega arith) (start_in_frame s i v lt),
        chunk_len_lem (length s.bytes) s.chunk_payload i (omega arith) (start_in_frame s i v lt),
      ),
    )
