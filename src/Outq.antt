-- ===== src/Outq.antt =====
-- tx/outq.c: the small queue of air-to-ground chunks that are not video. A full queue gives up
-- its oldest entry. Every function holds the mutex throughout, so a call is one step.
pub mod Fifo
mod Tests
use ar8030_transport.Base.{
  ℕ, zero, suc, ◌+◌, ◌-◌, ◌%◌, List, [], ◌∷◌, ◌++◌, Bool, false, Option, none, some, ◌==◌,
  if◌then◌else◌, length, drop, get_or, set, replicate, u64,
}

abbrev pub depth : ℕ
depth = 16

-- `tx_outq_item_t`; the list is `data[0..len)`.
pub record Item : Type 0 where
  pub codec : ℕ
  pub is_syncr : Bool
  pub sync_seq : ℕ
  pub t1_us : ℕ
  pub t2_us : ℕ
  pub bytes : List ℕ

abbrev pub blank : Item
blank = record { codec = 0; is_syncr = false; sync_seq = 0; t1_us = 0; t2_us = 0; bytes = [] }

-- `tx_outq_t`
pub record Outq : Type 0 where
  pub items : List Item
  pub head : ℕ  -- unsigned
  pub count : ℕ  -- unsigned
  pub dropped : ℕ  -- uint64_t

unfoldable pub init : Outq
init = record { items = replicate depth blank; head = 0; count = 0; dropped = 0 }

-- The full queue gives up its oldest entry.
unfoldable pub make_room : Outq → Outq
make_room q =
    if q.count == depth
    then record q {
      head = (q.head + 1) % depth;
      count = q.count - 1;
      dropped = u64 (q.dropped + 1);
    }
    else q

unfoldable pub append : Outq → Item → Outq
append q item = record q {
  items = set q.items ((q.head + q.count) % depth) item;
  count = q.count + 1;
}

-- `tx_outq_push`
unfoldable pub push : Outq → Item → Outq
unfolding make_room append
push q item = append (make_room q) item

-- `tx_outq_pop`: what went through `out`, if anything.
unfoldable pub pop : Outq → Option Item × Outq
pop q = if q.count == 0 then (none, q) else (
  some (get_or q.items q.head blank),
  record q { head = (q.head + 1) % depth; count = q.count - 1 },
)
