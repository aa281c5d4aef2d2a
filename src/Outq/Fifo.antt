-- ===== src/Outq/Fifo.antt =====
-- The ring behaves as a bounded first-in first-out queue that drops its oldest entry.
use ar8030_transport.Base.{
  ℕ, zero, suc, ◌+◌, ◌-◌, ◌%◌, ◌≤◌, ◌<◌, ◌≡◌, ◌≢◌, refl, ap, ap₂, ◌∙◌, List, [], ◌∷◌, ◌++◌, false,
  Option, none, some, arith, length, drop, get_or, set, ◌==◌, if◌then◌else◌, length-set,
  get_or-set_self, get_or-set_ne, Bool-cases, inl, inr,
}
use ar8030_transport.Outq.{Item, Outq, blank, depth, init, make_room, append, push, pop}

pub record IsValid (q : Outq) : Type 0 where
  pub storage : length q.items ≡ depth
  pub head_in : q.head < depth
  pub count_in : q.count ≤ depth

-- The `n` entries from index `h` on, round the ring.
abbrev pub entries : List Item → ℕ → ℕ → List Item
entries items h zero = []
entries items h (suc n) = get_or items h blank ∷ entries items ((h + 1) % depth) n

abbrev pub contents : Outq → List Item
contents q = entries q.items q.head q.count

-- The queue as a list, oldest entry first.
abbrev pub push_list : List Item → Item → List Item
push_list xs x = (if length xs == depth then drop 1 xs else xs) ++ x ∷ []

abbrev pub pop_list : List Item → Option Item × List Item
pop_list [] = (none, [])
pop_list (x ∷ xs) = (some x, xs)

pub init-IsValid : IsValid init
unfolding init
init-IsValid = ground arith

push-IsValid : (q : Outq) (x : Item) → IsValid q → IsValid (push q x)
unfolding push
push-IsValid q x v = ground (
  arith,
  length-set q.items ((q.head + q.count) % depth) x,
  length-set q.items (((q.head + 1) % depth + (q.count - 1)) % depth) x,
)

pop-IsValid : (q : Outq) → IsValid q → IsValid (pop q).1
unfolding pop
pop-IsValid q v = ground arith

length-entries : (items : List Item) (h n : ℕ) → length (entries items h n) ≡ n
length-entries items h zero = refl
length-entries items h (suc n) = ap suc (length-entries items ((h + 1) % depth) n)

-- A write just behind the entries adds one.
entries-set :
    (items : List Item) (x : Item) (h n i : ℕ)
    → length items ≡ depth
    → h < depth
    → n < depth
    → i ≡ (h + n) % depth
    → entries (set items i x) h (suc n) ≡ entries items h n ++ x ∷ []
entries-set items x h zero i store hh hn e =
    let same : i ≡ h = omega arith in
    rw same (ap (λ t. t ∷ []) (get_or-set_self items h x blank (omega arith)))
entries-set items x h (suc n) i store hh hn e =
    let other : i ≢ h = omega arith in
    ap₂ ◌∷◌ (get_or-set_ne items i h x blank other)
      (entries-set items x ((h + 1) % depth) n i store (omega arith) (omega arith) (omega arith))

append-contents :
    (q : Outq) (x : Item)
    → IsValid q
    → q.count < depth
    → contents (append q x) ≡ contents q ++ x ∷ []
unfolding append
append-contents q x v lt =
    let e : q.count + 1 ≡ suc q.count = omega arith in
    rw e (entries-set q.items x q.head q.count _ v.storage v.head_in lt refl)

make_room-contents :
    (q : Outq)
    → IsValid q
    → contents (make_room q)
      ≡ (if length (contents q) == depth then drop 1 (contents q) else contents q)
unfolding make_room
make_room-contents q v = elim (Bool-cases (q.count == depth)) [
  | inl full ↦
      let e : q.count ≡ depth = ground arith in
      rw (length-entries q.items q.head q.count, full) (rw e refl)
  | inr some_room ↦ rw (length-entries q.items q.head q.count, some_room) refl
]

make_room-IsValid : (q : Outq) → IsValid q → IsValid (make_room q) × ((make_room q).count < depth)
unfolding make_room
make_room-IsValid q v = ground arith

-- On a well-formed ring, pushing puts the item behind the entries, and gives up the oldest one exactly when the queue
-- was full; the ring stays well formed.
pub push_refines :
    (q : Outq) (x : Item)
    → IsValid q
    → (contents (push q x) ≡ push_list (contents q) x) × IsValid (push q x)
unfolding push
push_refines q x v =
    let (valid, room) = make_room-IsValid q v in
    (
      append-contents (make_room q) x valid room ∙ ap (λ t. t ++ x ∷ []) (make_room-contents q v),
      push-IsValid q x v,
    )

pop-none : (q : Outq) → q.count ≡ 0 → ((pop q).0 ≡ none) × (contents (pop q).1 ≡ [])
unfolding pop
pop-none q e = rw (e, pop) (refl, refl)

pub pop-some :
    (q : Outq) (n : ℕ)
    → q.count ≡ suc n
    → ((pop q).0 ≡ some (get_or q.items q.head blank))
      × (contents (pop q).1 ≡ entries q.items ((q.head + 1) % depth) n)
      × ((pop q).1.count ≡ n)
unfolding pop
pop-some q n e =
    let ne : (q.count == 0) ≡ false = ground arith in
    let k : q.count - 1 ≡ n = omega arith in rw ne (refl, rw k refl, k)

-- On a well-formed ring, popping takes the oldest entry, if there is one, and leaves the others in order; the ring
-- stays well formed.
pub pop_refines :
    (q : Outq)
    → IsValid q
    → let (out, q') = pop q in
      (out ≡ (pop_list (contents q)).0) × (contents q' ≡ (pop_list (contents q)).1) × IsValid q'
pop_refines q v = (first q.count refl, rest q.count refl, pop-IsValid q v)
  where
    first : (n : ℕ) → q.count ≡ n → (pop q).0 ≡ (pop_list (entries q.items q.head n)).0
    first zero e = (pop-none q e).0
    first (suc n) e = (pop-some q n e).0

    rest : (n : ℕ) → q.count ≡ n → contents (pop q).1 ≡ (pop_list (entries q.items q.head n)).1
    rest zero e = (pop-none q e).1
    rest (suc n) e = (pop-some q n e).1

-- The calls of the threads, in the order in which they take the mutex.
pub data Call : Type 0 where
  pushes : Item → Call
  pops : Call

-- What the pops of a run give, and what they give on the list.
abbrev pub run : Outq → List Call → List (Option Item)
run q [] = []
run q (pushes x ∷ calls) = run (push q x) calls
run q (pops ∷ calls) = let (out, q') = pop q in out ∷ run q' calls

abbrev pub run_list : List Item → List Call → List (Option Item)
run_list xs [] = []
run_list xs (pushes x ∷ calls) = run_list (push_list xs x) calls
run_list xs (pops ∷ calls) = let (out, xs') = pop_list xs in out ∷ run_list xs' calls

-- From a well-formed ring, any interleaving of pushes and pops gives what it gives on a list that
-- holds 16 items: the items come out in the order they went in, and a push on a full queue gives up
-- the oldest one.
pub run_refines :
    (q : Outq) (calls : List Call) → IsValid q → run q calls ≡ run_list (contents q) calls
run_refines q [] v = refl
run_refines q (pushes x ∷ calls) v =
    let (same, v') = push_refines q x v in
    run_refines (push q x) calls v' ∙ ap (λ l. run_list l calls) same
run_refines q (pops ∷ calls) v =
    let (out, same, v') = pop_refines q v in
    ap₂ (λ o l. o ∷ l) out (run_refines (pop q).1 calls v' ∙ ap (λ l. run_list l calls) same)
