-- ===== src/TimingSei/Emulation.antt =====
-- Emulation prevention: what is built holds no start code, and the receiver takes it off again.
use ar8030_transport.Base.{
  ℕ, zero, suc, ◌%◌, ◌≤◌, ◌<◌, ◌^◌, ◌≡◌, refl, ap, ◌∙◌, List, [], ◌∷◌, ◌++◌, Bool, true, false,
  ◌&&◌, some, arith, ltb, leb, ◌==◌, if◌then◌else◌, length, take, drop, Bool-cases, inl, inr,
}
use ar8030_transport.ChunkStream.{starts_with}
use ar8030_transport.TimingSei.{
  TimingSei, build, build_suffix, version_1, struct_bytes, struct_of_bytes, message, rbsp, escape,
  strip, zeros_after, of_rbsp, of_nal, nal_type_of, user_data_unregistered, build_nal,
  prefix_nal_type, suffix_nal_type,
}

-- After two zeros comes no byte below 3: so neither start code nor forbidden sequence.
abbrev pub Clean : ℕ → List ℕ → Type 0
Clean run [] = Unit
Clean run (b ∷ bs) = (2 ≤ run → 3 ≤ b) × Clean (zeros_after run b) bs

pub escape-Clean : (run : ℕ) (bs : List ℕ) → Clean run (escape run bs)
unfolding escape
escape-Clean run [] = tt
escape-Clean run (b ∷ bs) = elim (Bool-cases (leb 2 run && leb b 3)) [
  | inl e ↦
      rw (e, Clean)
        (λ h. omega arith, (λ h. absurd (omega arith), escape-Clean (zeros_after 0 b) bs))
  | inr e ↦ rw (e, Clean) (λ h. ground arith, escape-Clean (zeros_after run b) bs)
]

strip_stuffed :
    (room run : ℕ) (bs : List ℕ) → 2 ≤ run → strip (suc room) run (3 ∷ bs) ≡ strip (suc room) 0 bs
unfolding strip
strip_stuffed room run bs two =
    let some_two : leb 2 run ≡ true = ground arith in rw (some_two, strip) refl

strip_plain :
    (room run b : ℕ) (bs : List ℕ)
    → (leb 2 run && b == 3) ≡ false
    → strip (suc room) run (b ∷ bs) ≡ b ∷ strip room (zeros_after run b) bs
unfolding strip
strip_plain room run b bs e = rw (e, strip) refl

-- Taking the prevention bytes off again gives the first `room` bytes back.
pub strip-escape : (room run : ℕ) (bs : List ℕ) → strip room run (escape run bs) ≡ take room bs
unfolding escape
strip-escape zero run bs = unfold strip in refl
strip-escape (suc room) run [] = unfold strip in refl
strip-escape (suc room) run (b ∷ bs) = elim (Bool-cases (leb 2 run && leb b 3)) [
  | inl e ↦ rw (e) (
      strip_stuffed room run (b ∷ escape (zeros_after 0 b) bs) (ground arith)
      ∙ strip_plain room 0 b (escape (zeros_after 0 b) bs) refl
      ∙ ap (b ∷◌) (strip-escape room (zeros_after 0 b) bs))
  | inr e ↦ rw (e) (
      strip_plain room run b (escape (zeros_after run b) bs) (ground arith)
      ∙ ap (b ∷◌) (strip-escape room (zeros_after run b) bs))
]

-- What the fields of the C struct can hold, in the version that is built.
unfoldable pub IsTimingSei : TimingSei → Type 0
IsTimingSei t =
    (t.version ≡ version_1)
    × (t.flags < 256)
    × (t.frame_seq < 2 ^ 16)
    × (t.capture_ground_us < 2 ^ 64)
    × (t.rx_done_ground_us < 2 ^ 64)
    × (t.sync_uncertainty_us < 2 ^ 32)
    × (t.encode_us < 2 ^ 32)
    × (t.frames_lost < 2 ^ 32)

struct_of_bytes-struct_bytes :
    (t : TimingSei) (rest : List ℕ) → IsTimingSei t → struct_of_bytes (struct_bytes t ++ rest) ≡ t
unfolding IsTimingSei struct_bytes struct_of_bytes
struct_of_bytes-struct_bytes t rest v = ground arith

take-rbsp : (t : TimingSei) → take 50 (rbsp t) ≡ message t
unfolding rbsp message struct_bytes
take-rbsp t = refl

of_rbsp-message : (t : TimingSei) → IsTimingSei t → of_rbsp (message t) ≡ some t
unfolding IsTimingSei of_rbsp message starts_with
of_rbsp-message t v =
    let current : (t.version % 256 == version_1) ≡ true = ground arith in
    rw (current) (ap some (struct_of_bytes-struct_bytes t [] v))

escape_nonempty : (b : ℕ) (bs : List ℕ) → 0 < length (escape 0 (b ∷ bs))
unfolding escape
escape_nonempty b bs = ground arith

build_nonempty : (t : TimingSei) → 0 < length (escape 0 (rbsp t))
unfolding rbsp message
build_nonempty t = escape_nonempty user_data_unregistered _

of_nal_taken :
    (seen : Bool) (b c : ℕ) (bs : List ℕ)
    → 0 < length bs
    → nal_type_of b ≡ (if seen then suffix_nal_type else prefix_nal_type)
    → of_nal seen (b ∷ c ∷ bs) ≡ of_rbsp (strip 50 0 bs)
unfolding of_nal
of_nal_taken seen b c bs some_left e =
    let long : ltb 2 (length (b ∷ c ∷ bs)) ≡ true = ground arith in
    let same : (nal_type_of b == (if seen then suffix_nal_type else prefix_nal_type)) ≡ true =
      ground arith in
    rw (long, same) refl

recovered : (t : TimingSei) → IsTimingSei t → of_rbsp (strip 50 0 (escape 0 (rbsp t))) ≡ some t
recovered t v = ap of_rbsp (strip-escape 50 0 (rbsp t) ∙ take-rbsp t) ∙ of_rbsp-message t v

-- The NAL units built: behind their start code and header no start code and no reserved sequence
-- can be read, and the receiver recovers exactly the timing from them, from the prefix one before
-- a slice has been seen and from the suffix one after, if the fields fit their types.
pub of_nal-build :
    (t : TimingSei)
    → IsTimingSei t
    → (of_nal false (drop 4 (build t)) ≡ some t)
      × (of_nal true (drop 4 (build_suffix t)) ≡ some t)
      × Clean 0 (drop 6 (build t))
unfolding build build_suffix build_nal
of_nal-build t v = (
  of_nal_taken false 78 1 (escape 0 (rbsp t)) (build_nonempty t) refl ∙ recovered t v,
  of_nal_taken true 80 1 (escape 0 (rbsp t)) (build_nonempty t) refl ∙ recovered t v,
  escape-Clean 0 (rbsp t),
)
