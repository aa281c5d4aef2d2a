-- ===== src/Chunk/Wire.antt =====
-- The header survives the wire, and takes 22 bytes on it.
use ar8030_transport.Base.{ℕ, ◌≡◌, refl, List, ◌++◌, arith, length, AllBytes}
use ar8030_transport.Chunk.{ChunkHdr, IsHdr, hdr_bytes, hdr_of_bytes, hdr_size}

pub length-hdr_bytes : (h : ChunkHdr) → length (hdr_bytes h) ≡ hdr_size
unfolding hdr_bytes
length-hdr_bytes h = refl

pub hdr_bytes-AllBytes : (h : ChunkHdr) → AllBytes (hdr_bytes h)
unfolding hdr_bytes
hdr_bytes-AllBytes h = omega arith

-- A header whose fields fit their types, copied out by the sender, is read back by the receiver,
-- whatever follows it in the buffer.
pub hdr_of_bytes-hdr_bytes :
    (h : ChunkHdr) (rest : List ℕ) → IsHdr h → hdr_of_bytes (hdr_bytes h ++ rest) ≡ h
unfolding hdr_bytes hdr_of_bytes
hdr_of_bytes-hdr_bytes h rest v = ground arith
