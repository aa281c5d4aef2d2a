-- ===== src/Sidecar.antt =====
-- rx/sidecar_srv.c: the ground's server of the air unit's sidecar, with the wire format of
-- common/sidecar_wire.h. The mutex is held while the table is used, so each call is one step.
pub mod Subscribers
mod Tests
use ar8030_transport.Base.{
  ℕ, ◌+◌, ◌-◌, ◌*◌, ◌/◌, ◌%◌, Bool, true, false, Option, none, some, List, [], ◌∷◌, ◌++◌, ltb, leb,
  ◌==◌, not, ◌&&◌, ◌||◌, if◌then◌else◌, length, take, drop, replicate, get_or, u32, u64,
}

abbrev pub sub_ttl_us : ℕ
sub_ttl_us = 5000000

abbrev pub max_subs : ℕ
max_subs = 4

abbrev pub hdr_size : ℕ
hdr_size = 8

abbrev pub sync_req_size : ℕ
sync_req_size = 16

abbrev pub frame_size : ℕ
frame_size = 52

abbrev pub msg_sync_req : ℕ
msg_sync_req = 3

-- `struct sockaddr_in`, as far as it is compared.
pub record Addr : Type 0 where
  pub ip : ℕ
  pub port : ℕ

-- An entry of `subs`.
pub record Sub : Type 0 where
  pub addr : Addr
  pub expires_us : ℕ

-- `sidecar_srv_t`; `served` is whether the socket is open.
pub record Server : Type 0 where
  pub subs : List Sub
  pub encode_avg_us : ℕ
  pub published : ℕ
  pub served : Bool

-- `sidecar_srv_open`, for a port that is not 0; `bound` is whether the socket could be bound.
unfoldable pub open_server : Bool → Server
open_server bound = record {
  subs = replicate max_subs (record { addr = record { ip = 0; port = 0 }; expires_us = 0 });
  encode_avg_us = 0;
  published = 0;
  served = bound;
}

abbrev pub same_addr : Addr → Addr → Bool
same_addr a b = a.ip == b.ip && a.port == b.port

abbrev pub is_live : ℕ → Sub → Bool
is_live now s = ltb now s.expires_us

-- A live entry of this address.
abbrev pub hits : Addr → ℕ → Sub → Bool
hits a now s = is_live now s && same_addr s.addr a

-- The first entry that passes a test is written, if there is one.
unfoldable pub write_first : (Sub → Bool) → Sub → List Sub → List Sub
write_first test new [] = []
write_first test new (s ∷ ss) =
    let rest = write_first test new ss in if test s then new ∷ ss else s ∷ rest

unfoldable pub any_entry : (Sub → Bool) → List Sub → Bool
any_entry test [] = false
any_entry test (s ∷ ss) = test s || any_entry test ss

abbrev pub entry : Addr → ℕ → Sub
entry from now = record { addr = from; expires_us = now + sub_ttl_us }

-- `subscribe`: the address's own live entry, else the first one that has expired.
unfoldable pub subscribe : Addr → ℕ → List Sub → List Sub
unfolding write_first any_entry
subscribe from now subs =
    if any_entry (hits from now) subs
    then write_first (hits from now) (entry from now) subs
    else write_first (λ s. not (is_live now s)) (entry from now) subs

-- Whom a datagram is sent to.
unfoldable pub receivers : ℕ → List Sub → List Addr
receivers now [] = []
receivers now (s ∷ ss) =
    let rest = receivers now ss in if is_live now s then s.addr ∷ rest else rest

-- A number in network byte order, and `n` bytes of one.
unfoldable pub be_value : ℕ → List ℕ → ℕ
be_value acc [] = acc
be_value acc (b ∷ bs) = be_value (acc * 256 + b) bs

abbrev pub be_at : ℕ → ℕ → List ℕ → ℕ
unfolding be_value
be_at at n bytes = be_value 0 (take n (drop at bytes))

-- `sidecar_be64` of a number, in memory on a little-endian machine
abbrev pub be64 : ℕ → List ℕ
be64 v =
    v / 72057594037927936 % 256
    ∷ v / 281474976710656 % 256
    ∷ v / 1099511627776 % 256
    ∷ v / 4294967296 % 256
    ∷ v / 16777216 % 256
    ∷ v / 65536 % 256
    ∷ v / 256 % 256
    ∷ v % 256
    ∷ []

-- A header with the magic "RTPS", version 1 and a type.
abbrev pub hdr : ℕ → List ℕ
hdr msg_type = 82 ∷ 84 ∷ 80 ∷ 83 ∷ 1 ∷ msg_type ∷ 0 ∷ 0 ∷ []

abbrev pub is_ours : List ℕ → Bool
unfolding be_value
is_ours buf = be_at 0 4 buf == 1381257299 && get_or buf 4 0 == 1

-- The answer to a SYNC request: its t1 is echoed, and the ground's times t2 and t3 are moved to
-- the air unit's clock by the offset, given in two's complement.
unfoldable pub sync_resp : List ℕ → ℕ → ℕ → ℕ → List ℕ
sync_resp buf t2 t3 offset =
    hdr 4 ++ take 8 (drop 8 buf) ++ be64 (u64 (t2 + offset)) ++ be64 (u64 (t3 + offset))

abbrev pub wants_sync : List ℕ → Bool
wants_sync buf = get_or buf 5 0 == msg_sync_req && leb sync_req_size (length buf)

abbrev pub answer : Bool → Option ℕ → List ℕ → ℕ → ℕ → Option (List ℕ)
unfolding sync_resp
answer true (some offset) buf t2 t3 = some (sync_resp buf t2 t3 offset)
answer _ _ buf t2 t3 = none

-- A round of `sidecar_srv_thread_main` with a datagram of at most 64 bytes: what is sent back, for
-- the offset that clock_sync_get gives, if any.
unfoldable pub on_datagram : Addr → List ℕ → ℕ → ℕ → Option ℕ → Server → Option (List ℕ) × Server
unfolding subscribe
on_datagram from buf t2 t3 offset s =
    if ltb (length buf) hdr_size
    then (none, s)
    else if not (is_ours buf)
    then (none, s)
    else (answer (wants_sync buf) offset buf t2 t3, record s { subs = subscribe from t2 s.subs })

-- The running average of the encode time.
unfoldable pub average : ℕ → ℕ → ℕ
average avg enc = if avg == 0 then u32 enc else u32 (avg * 7 + u32 enc) / 8

-- What one frame's head says of it.
unfoldable pub next_average : List ℕ → ℕ → ℕ
unfolding average be_value
next_average dgram avg =
    let ready = be_at 24 8 dgram in
    let capture = be_at 36 8 dgram in
    if leb frame_size (length dgram)
      && (not (capture == 0) && (ltb capture ready && ltb (ready - capture) 200000))
    then average avg (ready - capture)
    else avg

-- `sidecar_srv_publish` at the time `now`: whom the datagram is sent to.
unfoldable pub publish : List ℕ → ℕ → Server → List Addr × Server
unfolding next_average receivers
publish dgram now s = (
  (if s.served then receivers now s.subs else []),
  record s {
    encode_avg_us = next_average dgram s.encode_avg_us;
    published = u64 (s.published + 1);
  },
)
