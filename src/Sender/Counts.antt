-- ===== src/Sender/Counts.antt =====
-- The counts of the send loop add up, and no frame number is used twice in a row.
use mathlib.Core.Path.{subst}
use ar8030_transport.Base.{
  ℕ, ◌+◌, ◌≡◌, refl, sym, Bool, true, false, not, ◌&&◌, ◌||◌, Option, List, [], ◌∷◌, arith, ◌==◌,
  if◌then◌else◌, Bool-cases, inl, inr, u16, u64, some,
}
use ar8030_transport.Chunker.{chunk_frame}
use ar8030_transport.Sender.Slices.{
  count_or_0, whole_source, Entry, Sending, LoopState, all_sent, lose_open, count_frame,
  open_slices, send_slice, after_frame, send_whole, on_slice, on_entry, on_entries,
}

-- The frames that were begun have ended, complete or not, but for the one that is open; each that
-- ended has taken one frame number.
pub record Counted (frames_in complete incomplete seq : ℕ) (is_open : Bool) : Type 0 where
  pub all_counted : frames_in ≡ u64 (complete + incomplete + (if is_open then 1 else 0))
  pub numbered : seq ≡ u16 (complete + incomplete)

abbrev pub AddsUp : {S : Type 0} → LoopState S → Type 0
AddsUp st = Counted st.frames_in st.frames_complete st.frames_incomplete st.frame_seq st.sf.is_open

Counted-lost :
    {n c i q : ℕ} {b : Bool}
    → b ≡ true
    → Counted n c i q b
    → Counted n c (u64 (i + 1)) (u16 (q + 1)) false
Counted-lost e a = record {
  all_counted = ground (arith, e, a.all_counted);
  numbered = omega (arith, a.numbered);
}

Counted-complete :
    {n c i q : ℕ} {b : Bool}
    → b ≡ true
    → Counted n c i q b
    → Counted n (u64 (c + 1)) i (u16 (q + 1)) false
Counted-complete e a = record {
  all_counted = ground (arith, e, a.all_counted);
  numbered = omega (arith, a.numbered);
}

Counted-begun : {n c i q : ℕ} → Counted n c i q false → Counted (u64 (n + 1)) c i q true
Counted-begun a = record { all_counted = omega (arith, a.all_counted); numbered = a.numbered }

pub if-cases :
    {A : Type 0} (P : A → Type 0) (b : Bool) (x y : A)
    → (b ≡ true → P x)
    → (b ≡ false → P y)
    → P (if b then x else y)
if-cases P true x y f g = f refl
if-cases P false x y f g = g refl

module _ {S : Type 0} where
  lose_open-AddsUp : (e : Entry) (st : LoopState S) → AddsUp st → AddsUp (lose_open e st)
  unfolding lose_open
  lose_open-AddsUp e st a = elim (Bool-cases (st.sf.is_open && not (e.pts == st.sf.pts))) [
    | inl lost ↦ rw lost (Counted-lost {b = st.sf.is_open} (ground (arith, lost)) a)
    | inr kept ↦ rw kept a
  ]

  -- A frame is open, and the counts add up.
  abbrev Opened : LoopState S → Type 0
  Opened st = AddsUp st × (st.sf.is_open ≡ true)

  module _ (l : Sending S) (chunk_payload scratch : ℕ) where
    open_slices-Opened : (e : Entry) (st : LoopState S) → AddsUp st → Opened (open_slices l e st)
    unfolding open_slices
    open_slices-Opened e st a =
        if-cases Opened st.sf.is_open _ _ (λ o. (a, o))
          (λ o. (Counted-begun (subst (Counted _ _ _ _) o a), refl))

    send_slice-Opened :
        (e : Entry) (st : LoopState S)
        → Opened st
        → Opened (send_slice l chunk_payload scratch e st)
    unfolding send_slice
    send_slice-Opened e st a = if-cases Opened st.sf.failed _ _ (λ o. a) (λ o. a)

    -- A frame that is open is counted at its end.
    close-AddsUp :
        (sent : Option ℕ) (expected : ℕ) (st : LoopState S)
        → Counted st.frames_in st.frames_complete st.frames_incomplete st.frame_seq true
        → st.sf.is_open ≡ false
        → AddsUp (after_frame l sent (count_frame sent expected st))
    unfolding after_frame count_frame
    close-AddsUp sent expected st a closed =
        if-cases (λ x. AddsUp (after_frame l sent x)) (all_sent sent expected) _ _
          (λ h. subst (Counted _ _ _ _) (sym closed) (Counted-complete refl a))
          (λ h. subst (Counted _ _ _ _) (sym closed) (Counted-lost refl a))

    on_slice-AddsUp :
        (e : Entry) (st : LoopState S) → AddsUp st → AddsUp (on_slice l chunk_payload scratch e st)
    unfolding on_slice
    on_slice-AddsUp e st a =
        let o = send_slice-Opened e (open_slices l e st) (open_slices-Opened e st a) in
        let st1 = send_slice l chunk_payload scratch e (open_slices l e st) in
        let st2 = record st1 {
          sf = record st1.sf { is_open = false };
          entries_per_frame = st1.sf.entries;
        } in
        if-cases AddsUp e.is_partial st1
          (after_frame l (some st1.sf.sent) (count_frame (some st1.sf.sent) st1.sf.next_idx st2))
          (λ h. o.0)
          (λ h.
            close-AddsUp (some st1.sf.sent) st1.sf.next_idx st2 (subst (Counted _ _ _ _) o.1 o.0)
              refl)

    send_whole-AddsUp :
        (e : Entry) (st : LoopState S)
        → AddsUp st
        → st.sf.is_open ≡ false
        → AddsUp (send_whole l chunk_payload scratch e st)
    unfolding send_whole
    send_whole-AddsUp e st a h =
        let o =
          chunk_frame l.send (whole_source l chunk_payload e st) scratch (l.clear_ret st.ctx) in
        close-AddsUp o.ret (count_or_0 o.out_count)
          (record st { ctx = o.ctx; frames_in = u64 (st.frames_in + 1); entries_per_frame = 1 })
          (Counted-begun (subst (Counted _ _ _ _) h a)) h

    on_entry-AddsUp :
        (e : Entry) (st : LoopState S) → AddsUp st → AddsUp (on_entry l chunk_payload scratch e st)
    unfolding on_entry
    on_entry-AddsUp e st a =
        let st1 = lose_open e st in
        let a1 = lose_open-AddsUp e st a in
        if-cases AddsUp (e.is_partial || st1.sf.is_open) _ _ (λ h. on_slice-AddsUp e st1 a1)
          (λ h. send_whole-AddsUp e st1 a1 (ground (arith, h)))

    -- From a state whose counts add up, as they do at the start, and after any entries, whole frames
    -- and slices, however the send function answers: the frames that were begun are the complete ones,
    -- the incomplete ones and the one that is open, modulo 2^64, and the next frame number is the number
    -- of those that ended, modulo 2^16.
    pub on_entries-AddsUp :
        (es : List Entry) (st : LoopState S)
        → AddsUp st
        → AddsUp (on_entries l chunk_payload scratch es st)
    unfolding on_entries
    on_entries-AddsUp [] st a = a
    on_entries-AddsUp (e ∷ es) st a =
        on_entries-AddsUp es (on_entry l chunk_payload scratch e st) (on_entry-AddsUp e st a)
