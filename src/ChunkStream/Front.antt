-- ===== src/ChunkStream/Front.antt =====
-- One look at a buffer that starts inside, or with, a well-formed chunk.
use ar8030_transport.Base.{
  ℕ, ◌+◌, ◌≤◌, ◌<◌, ◌≡◌, refl, sym, ap, ◌∙◌, List, [], ◌∷◌, ◌++◌, append_assoc, true, arith, length,
  take, drop, leb, u64, inl, inr, length-append, length-drop, take-append_le, drop-append_le,
  take-length_append, drop-length_append, Bool-cases,
}
use ar8030_transport.Base.Bytes.{le_field}
use ar8030_transport.Crc16.{crc16}
use ar8030_transport.Chunk.{ChunkHdr, IsHdr, hdr_bytes, hdr_of_bytes, hdr_size, chunk_magic}
use ar8030_transport.Chunk.Wire.{length-hdr_bytes, hdr_of_bytes-hdr_bytes}
use ar8030_transport.ChunkStream.{
  Stream, reply, more, chunk, starts_with, magic_bytes, drop_junk, resync, take_chunk, look_header,
  look,
}
use ar8030_transport.ChunkStream.Scan.{magic_at, scan_for_magic-zero}

-- A chunk as the sender makes it: the payload is what the header says of it.
pub record IsChunk (h : ChunkHdr) (p : List ℕ) : Type 0 where
  pub fields : IsHdr h
  pub magic_set : h.magic ≡ chunk_magic
  pub len_right : h.payload_len ≡ length p
  pub sum_right : h.checksum ≡ crc16 p

abbrev pub chunk_bytes : ChunkHdr → List ℕ → List ℕ
chunk_bytes h p = hdr_bytes h ++ p

pub length-chunk_bytes : (h : ChunkHdr) (p : List ℕ) → length (chunk_bytes h p) ≡ 22 + length p
length-chunk_bytes h p = omega (arith, length-append (hdr_bytes h) p, length-hdr_bytes h)

starts_with-take :
    (xs ys m : List ℕ)
    → starts_with (xs ++ ys) m ≡ true
    → length m ≤ length xs
    → starts_with xs m ≡ true
unfolding starts_with
starts_with-take xs ys [] e h = refl
starts_with-take [] ys (y ∷ m) e h = absurd (omega arith)
starts_with-take (x ∷ xs) ys (y ∷ m) e h = ground (arith, starts_with-take xs ys m)

hdr-starts_with :
    (h : ChunkHdr) (rest : List ℕ)
    → h.magic ≡ chunk_magic
    → starts_with (hdr_bytes h ++ rest) magic_bytes ≡ true
unfolding hdr_bytes starts_with
hdr-starts_with h rest e = rw e

le_field-append :
    (off w : ℕ) (xs ys : List ℕ)
    → off + w ≤ length xs
    → le_field off w (xs ++ ys) ≡ le_field off w xs
le_field-append off w xs ys h = rw (
  drop-append_le off xs ys (omega arith),
  take-append_le w (drop off xs) ys (omega (arith, length-drop off xs)),
)

hdr_of_bytes-append : (xs ys : List ℕ) → 22 ≤ length xs → hdr_of_bytes (xs ++ ys) ≡ hdr_of_bytes xs
unfolding hdr_of_bytes
hdr_of_bytes-append xs ys h = ground (
  arith,
  le_field-append 0 4 xs ys,
  le_field-append 4 2 xs ys,
  le_field-append 6 2 xs ys,
  le_field-append 8 2 xs ys,
  le_field-append 10 2 xs ys,
  le_field-append 12 1 xs ys,
  le_field-append 13 1 xs ys,
  le_field-append 14 4 xs ys,
  le_field-append 18 2 xs ys,
  le_field-append 20 2 xs ys,
)

-- What is in the buffer, with what is still to come, starts with a chunk.
module _ (s : Stream) (h : ChunkHdr) (p : List ℕ) (later rest : List ℕ) (c : IsChunk h p)
    (e : s.buf ++ later ≡ chunk_bytes h p ++ rest) where
  whole : s.buf ++ later ≡ hdr_bytes h ++ (p ++ rest)
  whole = e ∙ append_assoc (hdr_bytes h) p rest

  front : 4 ≤ length s.buf → magic_at s.buf 0 ≡ true
  front long =
      starts_with-take s.buf later magic_bytes
        (rw whole (hdr-starts_with h (p ++ rest) c.magic_set)) long

  resync_same : resync s ≡ s
  unfolding resync drop_junk
  resync_same = elim (Bool-cases (leb 4 (length s.buf))) [
    | inl long ↦ rw (long, scan_for_magic-zero s.buf (front (ground arith))) refl
    | inr short ↦ rw short refl
  ]

  header : 22 ≤ length s.buf → hdr_of_bytes s.buf ≡ h
  header long =
      sym (hdr_of_bytes-append s.buf later long)
      ∙ ap hdr_of_bytes whole
      ∙ hdr_of_bytes-hdr_bytes h (p ++ rest) c.fields

  -- Too little is there: nothing is dropped, and the reader asks for more.
  pub look_partial : (cap : ℕ) → length s.buf < 22 + length p → look cap s ≡ more s
  unfolding look
  look_partial cap lt = elim (Bool-cases (leb hdr_size (length s.buf))) [
    | inl long ↦ rw (resync_same, long, header (ground arith)) (too_short long)
    | inr short ↦ rw (resync_same, short) refl
  ]
    where
      too_short : leb hdr_size (length s.buf) ≡ true → look_header cap h s ≡ more s
      too_short long = unfold look_header in ground (arith, c.len_right, c.fields.len_fits)

  after_header : 22 ≤ length s.buf → drop 22 s.buf ++ later ≡ p ++ rest
  unfolding hdr_bytes
  after_header long =
      sym (drop-append_le 22 s.buf later long)
      ∙ ap (drop 22) whole
      ∙ drop-length_append (hdr_bytes h) (p ++ rest)

  payload : 22 + length p ≤ length s.buf → take h.payload_len (drop 22 s.buf) ≡ p
  payload long =
      ap (λ n. take n (drop 22 s.buf)) c.len_right
      ∙ sym (take-append_le (length p) (drop 22 s.buf) later (omega (arith, length-drop 22 s.buf)))
      ∙ ap (take (length p)) (after_header (omega arith))
      ∙ take-length_append p rest

  -- The stream once the chunk is taken off it.
  abbrev pub taken : Stream
  taken = record s {
    buf = drop (22 + length p) s.buf;
    chunks_read = u64 (s.chunks_read + 1);
    bytes_consumed = u64 (s.bytes_consumed + (22 + length p));
  }

  pub taken_rest : 22 + length p ≤ length s.buf → taken.buf ++ later ≡ rest
  taken_rest long =
      sym (drop-append_le (22 + length p) s.buf later long)
      ∙ ap (drop (22 + length p)) e
      ∙ ap (λ n. drop n (chunk_bytes h p ++ rest)) (sym (length-chunk_bytes h p))
      ∙ drop-length_append (chunk_bytes h p) rest

  -- All of it is there: it is returned, and taken off the buffer.
  pub look_complete :
      (cap : ℕ)
      → 22 + length p ≤ length s.buf
      → length p ≤ cap
      → look cap s ≡ reply (chunk h p) taken
  unfolding look look_header take_chunk
  look_complete cap long fits =
      let there : leb hdr_size (length s.buf) ≡ true = ground arith in
      rw (resync_same, there, header (omega arith))
        (ground (arith, payload long, c.len_right, c.sum_right, c.fields.len_fits))
