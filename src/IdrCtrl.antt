-- ===== src/IdrCtrl.antt =====
-- tx/idr_ctrl.c: which of the ground's keyframe requests reach the encoder. Times are
-- CLOCK_MONOTONIC milliseconds. Whether the link is congested, and what the encoder answers, come
-- from outside; the answer is only logged.
pub mod Limits
mod Tests
use ar8030_transport.Base.{
  ℕ, suc, ◌+◌, List, [], ◌∷◌, Bool, true, false, Option, none, some, drop, not, ◌&&◌, ◌||◌, ltb,
  leb, ◌==◌, if◌then◌else◌, take, replicate, set, length,
}
use ar8030_transport.Chunk.{codec_ctrl, ctrl_max_payload}
use ar8030_transport.ChunkStream.{starts_with}
use ar8030_transport.Outq.{Outq, Item, push}

abbrev pub tokens : ℕ
tokens = 16

-- `struct seen_token`; the list is the text up to its terminator.
pub record SeenToken : Type 0 where
  pub token : List ℕ
  pub at_ms : ℕ

pub record Config : Type 0 where
  pub dedup_ms : ℕ
  pub coalesce_ms : ℕ

pub record State : Type 0 where
  pub seen : List SeenToken
  pub last_honored_ms : ℕ

-- What becomes of a request.
pub data Action : Type 0 where
  duplicate suppressed coalesced requested : Action

unfoldable pub init : State
init = record { seen = replicate tokens (record { token = []; at_ms = 0 }); last_honored_ms = 0 }

-- `strcmp(a, b) == 0`
unfoldable pub same_text : List ℕ → List ℕ → Bool
same_text [] [] = true
same_text [] (y ∷ ys) = false
same_text (x ∷ xs) [] = false
same_text (x ∷ xs) (y ∷ ys) = x == y && same_text xs ys

-- `at_ms && now - at_ms < dedup_ms && strcmp(token) == 0`
unfoldable pub is_repeat : Config → List ℕ → ℕ → SeenToken → Bool
unfolding same_text
is_repeat cfg token now s =
    not (s.at_ms == 0) && (ltb now (s.at_ms + cfg.dedup_ms) && same_text s.token token)

unfoldable pub any_repeat : Config → List ℕ → ℕ → List SeenToken → Bool
unfolding is_repeat
any_repeat cfg token now [] = false
any_repeat cfg token now (s ∷ rest) = is_repeat cfg token now s || any_repeat cfg token now rest

-- The loop that looks for the entry with the smallest time, from entry `i` on.
unfoldable pub oldest_from : ℕ → ℕ → ℕ → List SeenToken → ℕ
oldest_from oldest oldest_ms i [] = oldest
oldest_from oldest oldest_ms i (s ∷ rest) =
    let older = ltb s.at_ms oldest_ms in
    oldest_from (if older then i else oldest) (if older then s.at_ms else oldest_ms) (i + 1) rest

unfoldable pub oldest_of : List SeenToken → ℕ
unfolding oldest_from
oldest_of [] = 0
oldest_of (s ∷ rest) = oldest_from 0 s.at_ms 1 rest

-- `snprintf` into the entry's array keeps all but the terminator's place.
unfoldable pub remember : State → List ℕ → ℕ → State
unfolding oldest_of
remember st token now = record st {
  seen = set st.seen (oldest_of st.seen) (record { token = take 63 token; at_ms = now });
}

-- `handle_idr`, where `congested` is what `bitrate_ctl_congested` answers.
unfoldable pub handle_idr : Config → State → List ℕ → ℕ → Bool → Action × State
handle_idr cfg st token now congested =
    if any_repeat cfg token now st.seen
    then (duplicate, st)
    else (let st' = remember st token now in
        if congested
        then (suppressed, st')
        else if not (st'.last_honored_ms == 0) && ltb now (st'.last_honored_ms + cfg.coalesce_ms)
        then (coalesced, st')
        else (requested, record st' { last_honored_ms = now }))

-- The text of a payload, up to its terminator.
unfoldable pub c_text : List ℕ → List ℕ
c_text [] = []
c_text (c ∷ cs) = let rest = c_text cs in if c == 0 then [] else c ∷ rest

abbrev pub sync_prefix : List ℕ
sync_prefix = b'S' ∷ b'Y' ∷ b'N' ∷ b'C' ∷ b' ' ∷ []

abbrev pub idr_prefix : List ℕ
idr_prefix = b'I' ∷ b'D' ∷ b'R' ∷ b' ' ∷ []

-- The queued reply to a SYNC; the send loop formats it when it writes it.
abbrev pub sync_reply : ℕ → ℕ → ℕ → Item
sync_reply seq t1 read_us = record {
  codec = codec_ctrl;
  is_syncr = true;
  sync_seq = seq;
  t1_us = t1;
  t2_us = read_us;
  bytes = [];
}

-- What a control chunk asks for.
pub data Command : Type 0 where
  sync : ℕ → ℕ → Command
  idr : List ℕ → Command
  unknown ignored : Command

-- `scan_sync` is sscanf on the rest of a SYNC: its two numbers, if it finds both.
module _ (scan_sync : List ℕ → Option (ℕ × ℕ)) where
  unfoldable pub command_of_text : List ℕ → Command
  command_of_text cmd =
      let other =
        (if starts_with cmd idr_prefix && not (length (drop 4 cmd) == 0)
          then idr (drop 4 cmd)
          else unknown) in
      if starts_with cmd sync_prefix
      then elim (scan_sync (drop 5 cmd)) [ some (seq, t1) ↦ sync seq t1 | none ↦ other ]
      else other

  -- The tests of the thread's loop on a chunk that was read.
  unfoldable pub command_of : ℕ → List ℕ → Command
  unfolding command_of_text c_text
  command_of codec payload =
      if not (codec == codec_ctrl) || (length payload == 0 || leb ctrl_max_payload (length payload))
      then ignored
      else command_of_text (c_text payload)

  -- One round of the thread's loop, for a chunk that was read at `read_us` (t2 of a SYNC) and
  -- handled at `now` ms. A SYNC's reply is queued for the send loop.
  unfoldable pub on_chunk :
      Config → Outq × State → ℕ → List ℕ → ℕ → ℕ → Bool → Option Action × Outq × State
  unfolding command_of handle_idr push
  on_chunk cfg (q, st) codec payload read_us now congested = elim (command_of codec payload) [
    | sync seq t1 ↦ (none, push q (sync_reply seq t1 read_us), st)
    | idr token ↦ let (action, st') = handle_idr cfg st token now congested in (some action, q, st')
    | unknown ↦ (none, q, st)
    | ignored ↦ (none, q, st)
  ]
