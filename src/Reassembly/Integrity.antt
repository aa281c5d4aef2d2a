-- ===== src/Reassembly/Integrity.antt =====
-- A completed frame is made of the last chunks that were fed, all of one sequence number, with
-- the indices 0, 1, 2 and so on: a lost, repeated or foreign chunk is never papered over.
use mathlib.Core.Path.{subst₂}
use ar8030_transport.Base.{
  ℕ, zero, suc, ◌+◌, ◌<◌, ◌≡◌, ◌⊎◌, inl, inr, refl, sym, ◌∙◌, List, [], ◌∷◌, ◌++◌, Bool, true,
  false, arith, length, ltb, ◌==◌, ◌||◌, not, if◌then◌else◌, u16, u32, Bool-cases, All,
}
use ar8030_transport.Chunk.{ChunkHdr}
use ar8030_transport.Reassembly.{
  Reassembly, init, start_frame, ends_frame, drop_frame, extend, give_up, feed, collected, Fed,
}
use ar8030_transport.Reassembly.Invariant.{
  IsValid, init-IsValid, feed-IsValid, give_up-IsValid, start_frame-IsValid,
}
use ar8030_transport.Reassembly.Collect.{IsNext, Extended, extend-IsNext}

-- The `k` latest chunks fed, latest first, are the chunks 0 to `k - 1` of frame `seq`, and their
-- payloads in sending order make up `bytes`.
abbrev pub Run : ℕ → ℕ → List Fed → List ℕ → Type 0
Run seq zero hist bytes = bytes ≡ []
Run seq (suc k) [] bytes = ⊥
Run seq (suc k) ((h, p) ∷ hist) bytes =
    (h.frame_seq ≡ seq)
    × (h.chunk_idx ≡ k)
    × ((earlier : List ℕ) × (bytes ≡ earlier ++ p) × Run seq k hist earlier)

Run-cast :
    {seq seq' k k' : ℕ} (hist : List Fed) (bytes : List ℕ)
    → seq ≡ seq'
    → k ≡ k'
    → Run seq k hist bytes
    → Run seq' k' hist bytes
Run-cast hist bytes e f = subst₂ (λ s k. Run s k hist bytes) e f

-- What the reassembler holds while a frame is in progress.
abbrev Holds : Reassembly → List Fed → Type 0
Holds r hist = r.active ≡ true → Run r.frame_seq r.next_chunk_idx hist (collected r)

-- Either the chunk is the next one, or the frame is dropped.
extend-cases :
    (r : Reassembly) (hdr : ChunkHdr) (p : List ℕ)
    → IsValid r
    → length p < 65536
    → IsNext r hdr p ⊎ (extend r hdr p ≡ drop_frame r hdr)
unfolding extend
extend-cases r hdr p v small =
    let want : ℕ = if ends_frame r hdr then hdr.chunk_count else r.chunk_count in
    elim (Bool-cases (not (hdr.chunk_idx == r.next_chunk_idx) || not (hdr.chunk_count == want))) [
      | inl bad ↦ inr (ground arith)
      | inr good ↦ elim (Bool-cases (ltb r.cap (u32 (r.write_off + length p)))) [
        | inl over ↦ inr (ground arith)
        | inr fits ↦ inl (ground arith)
      ]
    ]

drop_frame_inactive :
    (r : Reassembly) (hdr : ChunkHdr)
    → ((drop_frame r hdr).0 ≡ false) × ((drop_frame r hdr).1.active ≡ false)
unfolding drop_frame
drop_frame_inactive r hdr = ground arith

-- The count on the chunk that completes a frame is the number of its chunks.
complete_count :
    (r : Reassembly) (hdr : ChunkHdr) (p : List ℕ)
    → hdr.chunk_idx < 65535
    → IsNext r hdr p
    → (ends_frame r hdr || u16 (r.next_chunk_idx + 1) == r.chunk_count) ≡ true
    → hdr.chunk_count ≡ suc hdr.chunk_idx
unfolding ends_frame
complete_count r hdr p small n done = ground (arith, n.in_order, n.count_right)

-- What a step leaves: the history still describes the frame, and a completed one is all there.
abbrev Kept : List Fed → ChunkHdr → List ℕ → Bool × Reassembly → Type 0
Kept hist hdr p out =
    Holds out.1 ((hdr, p) ∷ hist)
    × (out.0 ≡ true → Run hdr.frame_seq hdr.chunk_count ((hdr, p) ∷ hist) (collected out.1))

Run-next :
    (r : Reassembly) (hist : List Fed) (hdr : ChunkHdr) (p : List ℕ)
    → hdr.chunk_idx < 65535
    → hdr.frame_seq ≡ r.frame_seq
    → IsNext r hdr p
    → Run r.frame_seq r.next_chunk_idx hist (collected r)
    → Extended r hdr p (extend r hdr p)
    → Run hdr.frame_seq (suc hdr.chunk_idx) ((hdr, p) ∷ hist) (collected (extend r hdr p).1)
Run-next r hist hdr p small same n run x = (
  refl,
  refl,
  (collected r, x.bytes, Run-cast hist (collected r) (sym same) (sym n.in_order) run),
)

extend-Kept :
    (r : Reassembly) (hist : List Fed) (hdr : ChunkHdr) (p : List ℕ)
    → IsValid r
    → length p < 65536
    → hdr.chunk_idx < 65535
    → hdr.frame_seq ≡ r.frame_seq
    → Run r.frame_seq r.next_chunk_idx hist (collected r)
    → Kept hist hdr p (extend r hdr p)
extend-Kept r hist hdr p v len small same run = elim (extend-cases r hdr p v len) [
  | inl n ↦
      let x = extend-IsNext r hdr p v n in
      let run' = Run-next r hist hdr p small same n run x in
      let next : (extend r hdr p).1.next_chunk_idx ≡ suc hdr.chunk_idx =
        omega (arith, x.next, n.in_order) in
      let seq : (extend r hdr p).1.frame_seq ≡ hdr.frame_seq = x.seq_same ∙ sym same in
      (
        λ a. Run-cast ((hdr, p) ∷ hist) _ (sym seq) (sym next) run',
        λ done.
            Run-cast ((hdr, p) ∷ hist) _ refl
              (sym (complete_count r hdr p small n (sym x.complete ∙ done))) run',
      )
  | inr e ↦
      let (not_done, off) = drop_frame_inactive r hdr in rw e (λ a. absurd (cc), λ d. absurd (cc))
]

feed-Kept :
    (r : Reassembly) (hist : List Fed) (hdr : ChunkHdr) (p : List ℕ)
    → IsValid r
    → length p < 65536
    → hdr.chunk_idx < 65535
    → Holds r hist
    → Kept hist hdr p (feed r hdr p)
unfolding feed
feed-Kept r hist hdr p v len small holds =
    elim (Bool-cases (not r.active || not (hdr.frame_seq == r.frame_seq))) [
      | inr same ↦
          rw same (extend-Kept r hist hdr p v len small (ground arith) (holds (ground arith)))
      | inl new ↦ elim (Bool-cases (not (hdr.chunk_idx == 0))) [
        | inl mid ↦
            rw (new, mid)
              (let (not_done, off) = drop_frame_inactive (give_up r) hdr in
                (λ a. absurd (cc), λ d. absurd (cc)))
        | inr first ↦
            rw (new, first)
              (extend-Kept (start_frame (give_up r) hdr) hist hdr p
                (start_frame-IsValid (give_up r) hdr (give_up-IsValid r v)) len small
                (started (give_up r)).0 (started (give_up r)).1)
      ]
    ]
  where
    started :
        (q : Reassembly)
        → (hdr.frame_seq ≡ (start_frame q hdr).frame_seq)
          × Run
              (start_frame q hdr).frame_seq
              (start_frame q hdr).next_chunk_idx
              hist
              (collected (start_frame q hdr))
    started q = unfold start_frame in (refl, refl)

-- The chunks fed to the reassembler, latest first.
unfoldable pub feed_all : Reassembly → List Fed → Reassembly
feed_all r [] = r
feed_all r ((h, p) ∷ earlier) = (feed (feed_all r earlier) h p).1

-- What the chunk stream guarantees of a chunk, and the chunker of its index.
abbrev pub InRange : Fed → Type 0
InRange x = (x.0.chunk_idx < 65535) × (length x.1 < 65536)

feed_all-Holds :
    (r : Reassembly) (fed : List Fed)
    → IsValid r
    → r.active ≡ false
    → All InRange fed
    → IsValid (feed_all r fed) × Holds (feed_all r fed) fed
unfolding feed_all
feed_all-Holds r [] v off h = (v, λ a. absurd (cc))
feed_all-Holds r ((h, p) ∷ earlier) v off (now, before) =
    let (valid, holds) = feed_all-Holds r earlier v off before in
    (
      feed-IsValid (feed_all r earlier) h p now.1 valid,
      (feed-Kept (feed_all r earlier) earlier h p valid now.1 now.0 holds).0,
    )

-- Whatever chunks were fed since the start, when one more completes a frame, the chunks of that
-- frame are the latest ones: `chunk_count` of them, of the frame's sequence number, with the
-- indices from 0 up, and the frame's bytes are their payloads in order. The chunks' indices are
-- below 65535 and their payloads shorter than 65536 bytes, the buffer than 2^31.
pub feed_integrity :
    (buf : List ℕ) (cap : ℕ) (fed : List Fed) (h : ChunkHdr) (p : List ℕ)
    → length buf ≡ cap
    → cap < 2147483648
    → All InRange ((h, p) ∷ fed)
    → (feed (feed_all (init buf cap) fed) h p).0 ≡ true
    → Run h.frame_seq h.chunk_count
        ((h, p) ∷ fed)
        (collected (feed (feed_all (init buf cap) fed) h p).1)
feed_integrity buf cap fed h p store small (now, before) =
    let (valid, holds) =
      feed_all-Holds (init buf cap) fed (init-IsValid buf cap store small) (unfold init in refl)
        before in
    (feed-Kept (feed_all (init buf cap) fed) fed h p valid now.1 now.0 holds).1
