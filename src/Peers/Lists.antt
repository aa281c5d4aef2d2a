-- ===== src/Peers/Lists.antt =====
-- Lists of MACs without repetition.
use ar8030_transport.Base.{
  ℕ, zero, suc, ◌+◌, ◌≤◌, ◌≡◌, refl, sym, ◌∙◌, Bool, true, false, ◌||◌, List, [], ◌∷◌, ◌++◌, arith,
  ltb, ==-refl, length, length-append, take, append-nil, append_assoc, Bool-cases, inl, inr, Option,
  All,
}
use mathlib.Core.Path.{subst}
use ar8030_transport.Peers.Hex.{Mac}
use ar8030_transport.Peers.{same_mac, mac_in, union, kept, is_dropped}

pub same_mac_refl : (a : Mac) → same_mac a a ≡ true
unfolding same_mac
same_mac_refl [] = refl
same_mac_refl (x ∷ a) = rw (==-refl x) (same_mac_refl a)

pub same_mac_sym : (a b : Mac) → same_mac a b ≡ same_mac b a
unfolding same_mac
same_mac_sym [] [] = refl
same_mac_sym [] (y ∷ b) = refl
same_mac_sym (x ∷ a) [] = refl
same_mac_sym (x ∷ a) (y ∷ b) = ground (arith, same_mac_sym a b)

pub same_mac_eq : (a b : Mac) → same_mac a b ≡ true → a ≡ b
unfolding same_mac
same_mac_eq [] [] h = refl
same_mac_eq [] (y ∷ b) h = cc
same_mac_eq (x ∷ a) [] h = cc
same_mac_eq (x ∷ a) (y ∷ b) h = ground (arith, same_mac_eq a b)

mac_in-append : (m : Mac) (xs ys : List Mac) → mac_in m (xs ++ ys) ≡ (mac_in m xs || mac_in m ys)
unfolding mac_in
mac_in-append m [] ys = refl
mac_in-append m (x ∷ xs) ys = ground (arith, mac_in-append m xs ys)

or_false : (a b : Bool) → (a || b) ≡ false → (a ≡ false) × (b ≡ false)
or_false a b h = (ground arith, ground arith)

-- No entry of the second list is in the first, or among those before it.
abbrev pub Fresh : List Mac → List Mac → Type 0
Fresh out [] = Unit {0}
Fresh out (m ∷ known) = (mac_in m out ≡ false) × Fresh (out ++ (m ∷ [])) known

abbrev pub Distinct : List Mac → Type 0
Distinct = Fresh []

Fresh-snoc :
    (out known : List Mac) (m : Mac)
    → Fresh out known
    → mac_in m (out ++ known) ≡ false
    → Fresh out (known ++ (m ∷ []))
Fresh-snoc out [] m f h = (subst (λ l. mac_in m l ≡ false) (append-nil out) h, tt)
Fresh-snoc out (k ∷ known) m f h = (
  f.0,
  Fresh-snoc (out ++ (k ∷ [])) known m f.1
      (subst (λ l. mac_in m l ≡ false) (sym (append_assoc out (k ∷ []) known)) h),
)

pub Distinct-snoc :
    (out : List Mac) (m : Mac) → Distinct out → mac_in m out ≡ false → Distinct (out ++ (m ∷ []))
Distinct-snoc out m f h = Fresh-snoc [] out m f h

-- An entry that is not in the second list may stand before the first.
pub Fresh-cons :
    (a : Mac) (out known : List Mac)
    → Fresh out known
    → mac_in a known ≡ false
    → Fresh (a ∷ out) known
unfolding mac_in
Fresh-cons a out [] f h = tt
Fresh-cons a out (k ∷ known) f h =
    let parts = or_false (same_mac a k) (mac_in a known) h in
    (rw (same_mac_sym k a, parts.0) f.0, Fresh-cons a (out ++ (k ∷ [])) known f.1 parts.1)

pub Fresh-take : (n : ℕ) (out known : List Mac) → Fresh out known → Fresh out (take n known)
Fresh-take zero out known f = tt
Fresh-take (suc n) out [] f = tt
Fresh-take (suc n) out (k ∷ known) f = (f.0, Fresh-take n (out ++ (k ∷ [])) known f.1)

less : (a b c : Bool) → (a || (b || c)) ≡ false → (a || c) ≡ false
less a b c h = ground arith

-- An entry of the first list may go.
Fresh-less :
    (out : List Mac) (a : Mac) (more known : List Mac)
    → Fresh (out ++ (a ∷ more)) known
    → Fresh (out ++ more) known
unfolding mac_in
Fresh-less out a more [] f = tt
Fresh-less out a more (k ∷ known) f =
    let away = subst (λ b. b ≡ false) (mac_in-append k out (a ∷ more)) f.0 in
    let next = subst (λ l. Fresh l known) (append_assoc out (a ∷ more) (k ∷ [])) f.1 in
    (
      subst (λ b. b ≡ false) (sym (mac_in-append k out more))
          (less (mac_in k out) (same_mac k a) (mac_in k more) away),
      subst (λ l. Fresh l known) (sym (append_assoc out more (k ∷ [])))
          (Fresh-less out a (more ++ (k ∷ [])) known next),
    )

pub Fresh-kept :
    (p q : Option Mac) (out known : List Mac) → Fresh out known → Fresh out (kept p q known)
unfolding kept
Fresh-kept p q out [] f = tt
Fresh-kept p q out (m ∷ known) f = elim (Bool-cases (is_dropped p q m)) [
  | inl gone ↦ rw gone (
      subst (λ l. Fresh l (kept p q known)) (append-nil out)
        (Fresh-less out m [] (kept p q known) (Fresh-kept p q (out ++ (m ∷ [])) known f.1)))
  | inr stays ↦ rw stays (f.0, Fresh-kept p q (out ++ (m ∷ [])) known f.1)
]

pub length-kept : (p q : Option Mac) (known : List Mac) → length (kept p q known) ≤ length known
unfolding kept
length-kept p q [] = omega arith
length-kept p q (m ∷ known) = elim (Bool-cases (is_dropped p q m)) [
  | inl gone ↦ rw gone (omega (arith, length-kept p q known))
  | inr stays ↦ rw stays (omega (arith, length-kept p q known))
]

pub All-kept :
    (P : Mac → Type 0) (p q : Option Mac) (known : List Mac) → All P known → All P (kept p q known)
unfolding kept
All-kept P p q [] a = tt
All-kept P p q (m ∷ known) a = elim (Bool-cases (is_dropped p q m)) [
  | inl gone ↦ rw gone (All-kept P p q known a.1)
  | inr stays ↦ rw stays (a.0, All-kept P p q known a.1)
]

-- With room for all, a union with fresh entries is all of them.
pub union-append :
    (max : ℕ) (out known : List Mac)
    → Fresh out known
    → length out + length known ≤ max
    → union max out known ≡ out ++ known
unfolding union
union-append max out [] f h = sym (append-nil out)
union-append max out (m ∷ known) f h =
    let room : ltb (length out) max ≡ true = ground arith in
    rw (room, f.0)
      (union-append max (out ++ (m ∷ [])) known f.1 (omega (arith, length-append out (m ∷ [])))
        ∙ append_assoc out (m ∷ []) known)

-- Any union is short and distinct, and starts with what was there.
pub union-Distinct :
    (max : ℕ) (out known : List Mac) → Distinct out → Distinct (union max out known)
unfolding union
union-Distinct max out [] d = d
union-Distinct max out (m ∷ known) d = elim (Bool-cases (ltb (length out) max)) [
  | inr full ↦ rw full d
  | inl room ↦ elim (Bool-cases (mac_in m out)) [
    | inl old ↦ rw (room, old) (union-Distinct max out known d)
    | inr new ↦
        rw (room, new) (union-Distinct max (out ++ (m ∷ [])) known (Distinct-snoc out m d new))
  ]
]

pub length-union :
    (max : ℕ) (out known : List Mac) → length out ≤ max → length (union max out known) ≤ max
unfolding union
length-union max out [] h = h
length-union max out (m ∷ known) h = elim (Bool-cases (ltb (length out) max)) [
  | inr full ↦ rw full h
  | inl room ↦ elim (Bool-cases (mac_in m out)) [
    | inl old ↦ rw (room, old) (length-union max out known h)
    | inr new ↦
        rw (room, new)
          (length-union max (out ++ (m ∷ [])) known (ground (arith, length-append out (m ∷ []))))
  ]
]
