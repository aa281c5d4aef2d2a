-- ===== src/Sender/Written.antt =====
-- What the socket took of a buffer: the whole, or a part before a failure.
use mathlib.Core.Path.{subst}
use ar8030_transport.Base.{
  ℕ, zero, suc, ◌+◌, ◌≤◌, ◌<◌, ◌≡◌, ◌⊎◌, refl, sym, ap, ◌∙◌, Bool, true, false, List, [], ◌∷◌, ◌++◌,
  append-nil, append_assoc, arith, ◌==◌, length, take, drop, length-drop, take-append-drop, ==_iff,
  Bool-cases, inl, inr,
}
use ar8030_transport.Base.Int.{ℤ, pos, negsuc, pos_part}
use ar8030_transport.Sender.Write.{Link, SendCtx, write_from, write_all}

-- The socket puts what it takes of a buffer after what was sent before, and the clock sends nothing.
pub record Sends {W : Type 0} (l : Link W) (sent : W → List ℕ) : Type 0 where
  pub fits : (w : W) (buf : List ℕ) → pos_part (l.socket_write w buf).0 ≤ length buf
  pub appends :
      (w : W) (buf : List ℕ)
      → sent (l.socket_write w buf).1 ≡ sent w ++ take (pos_part (l.socket_write w buf).0) buf
  pub clock_silent : (w : W) → sent (l.now_us w).1 ≡ sent w

-- `buf` went out whole, or a part of it did and the write failed.
pub data Written {W : Type 0} (sent : W → List ℕ) (w : W) (buf : List ℕ) : Bool → W → Type 0 where
  whole : {ok : Bool} {w' : W} → ok ≡ true → sent w' ≡ sent w ++ buf → Written sent w buf ok w'
  cut :
      {ok : Bool} {w' : W} (k : ℕ)
      → ok ≡ false
      → k < length buf
      → sent w' ≡ sent w ++ take k buf
      → Written sent w buf ok w'

take-nil {ℓ} : {A : Type ℓ} (k : ℕ) → take {A = A} k [] ≡ []
take-nil zero = refl
take-nil (suc k) = refl

ℤ-cases : (x : ℤ) → ((n : ℕ) × (x ≡ pos n)) ⊎ ((n : ℕ) × (x ≡ negsuc n))
ℤ-cases (pos n) = inl (n, refl)
ℤ-cases (negsuc n) = inr (n, refl)

take-add {ℓ} :
    {A : Type ℓ} (n k : ℕ) (xs : List A) → take n xs ++ take k (drop n xs) ≡ take (n + k) xs
take-add zero k xs = let e : zero + k ≡ k = omega arith in rw e refl
take-add (suc n) k [] = take-nil k ∙ sym (take-nil (suc n + k))
take-add (suc n) k (x ∷ xs) =
    let e : suc n + k ≡ suc (n + k) = omega arith in rw e (ap (λ l. x ∷ l) (take-add n k xs))

module _ {W : Type 0} (l : Link W) (sent : W → List ℕ) (s : Sends l sent) where
  -- A part written and the rest after it.
  pub Written-after :
      (n : ℕ) (buf : List ℕ) (w w1 : W) {ok : Bool} {w2 : W}
      → n ≤ length buf
      → sent w1 ≡ sent w ++ take n buf
      → Written sent w1 (drop n buf) ok w2
      → Written sent w buf ok w2
  Written-after n buf w w1 h e (whole o f) = whole o (
      f
      ∙ ap (λ x. x ++ drop n buf) e
      ∙ append_assoc (sent w) (take n buf) (drop n buf)
      ∙ ap (λ x. sent w ++ x) (take-append-drop n buf))
  Written-after n buf w w1 h e (cut k o lt f) = cut (n + k) o (omega (arith, length-drop n buf)) (
      f
      ∙ ap (λ x. x ++ take k (drop n buf)) e
      ∙ append_assoc (sent w) (take n buf) (take k (drop n buf))
      ∙ ap (λ x. sent w ++ x) (take-add n k buf))

  -- What a write's result tells.
  one_write :
      (w : W) (buf : List ℕ) (n : ℕ)
      → (l.socket_write w buf).0 ≡ pos n
      → (n ≤ length buf) × (sent (l.socket_write w buf).1 ≡ sent w ++ take n buf)
  one_write w buf n e = (
    subst (λ x. pos_part x ≤ length buf) e (s.fits w buf),
    subst (λ x. sent (l.socket_write w buf).1 ≡ sent w ++ take (pos_part x) buf) e
        (s.appends w buf),
  )

  failed :
      (w : W) (buf : List ℕ) (n : ℕ)
      → (l.socket_write w buf).0 ≡ negsuc n
      → sent (l.socket_write w buf).1 ≡ sent w ++ take 0 buf
  failed w buf n e =
      subst (λ x. sent (l.socket_write w buf).1 ≡ sent w ++ take (pos_part x) buf) e
        (s.appends w buf)

  write_from-Written :
      (fuel : ℕ) (buf : List ℕ) (last : ℤ) (w : W)
      → length buf ≤ fuel
      → let x = write_from l fuel buf last w in Written sent w buf x.0 x.1.1
  unfolding write_from
  write_from-Written fuel [] last w h = whole refl (sym (append-nil (sent w)))
  write_from-Written zero (b ∷ buf) last w h = absurd (omega arith)
  write_from-Written (suc fuel) (b ∷ buf) last w h =
      let x = l.socket_write w (b ∷ buf) in
      elim (Bool-cases (l.stopped w)) [
        | inl stop ↦ rw (stop, write_from) (cut 0 refl (omega arith) (sym (append-nil (sent w))))
        | inr go ↦ elim (ℤ-cases x.0) [
          | inr (n, e) ↦ rw (go, e, write_from) (cut 0 refl (omega arith) (failed w (b ∷ buf) n e))
          | inl (n, e) ↦
              let one = one_write w (b ∷ buf) n e in
              elim (Bool-cases (n == 0)) [
                | inl nothing ↦
                    rw (go, e, nothing, write_from)
                      (cut 0 refl (omega arith)
                        (one.1 ∙ ap (λ k. sent w ++ take k (b ∷ buf)) ((==_iff n 0).0 nothing)))
                | inr some_went ↦
                    rw (go, e, some_went, write_from)
                      (Written-after n (b ∷ buf) w x.1 one.0 one.1 (
                        write_from-Written fuel (drop n (b ∷ buf)) last x.1
                          (ground (arith, length-drop n (b ∷ buf)))))
              ]
        ]
      ]

  pub write_all-Written :
      (buf : List ℕ) (c : SendCtx W)
      → Written sent c.world buf (write_all l buf c).0 (write_all l buf c).1.world
  unfolding write_all
  write_all-Written buf c =
      write_from-Written (length buf) buf c.last_write_ret c.world (omega arith)
