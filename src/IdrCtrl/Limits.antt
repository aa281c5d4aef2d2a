-- ===== src/IdrCtrl/Limits.antt =====
-- Repeated and rapid keyframe requests do not reach the encoder.
use ar8030_transport.Base.{
  ℕ, ◌+◌, ◌≤◌, ◌<◌, ◌≡◌, ◌⊎◌, ◌∙◌, refl, List, [], ◌∷◌, Bool, not, ◌&&◌, arith, ltb, ◌==◌, length,
  length-set, All, Bool-cases, inl, inr,
}
use ar8030_transport.IdrCtrl.{
  Config, State, Action, duplicate, suppressed, coalesced, requested, tokens, init, any_repeat,
  oldest_of, remember, handle_idr,
}

abbrev pub IsValid : State → Type 0
IsValid st = length st.seen ≡ tokens

pub init-IsValid : IsValid init
unfolding init
init-IsValid = refl

remember-IsValid :
    (st : State) (token : List ℕ) (now : ℕ) → IsValid st → IsValid (remember st token now)
unfolding remember
remember-IsValid st token now v = length-set st.seen (oldest_of st.seen) _ ∙ v

-- The table keeps its size.
pub handle_idr-IsValid :
    (cfg : Config) (st : State) (token : List ℕ) (now : ℕ) (congested : Bool)
    → IsValid st
    → IsValid (handle_idr cfg st token now congested).1
unfolding handle_idr
handle_idr-IsValid cfg st token now congested v = ground (arith, remember-IsValid st token now v)

-- A request as it comes in.
pub record Request : Type 0 where
  pub token : List ℕ
  pub now : ℕ
  pub congested : Bool

-- The times at which the encoder is asked for a keyframe, in a run of requests.
unfoldable pub honored : Config → State → List Request → List ℕ
honored cfg st [] = []
honored cfg st (r ∷ rs) =
    let (action, st') = handle_idr cfg st r.token r.now r.congested in
    let rest = honored cfg st' rs in elim action [ requested ↦ r.now ∷ rest | _ ↦ rest ]

-- Each time is at least `gap` after the one before it, the first after `last`.
abbrev pub Gaps : ℕ → ℕ → List ℕ → Type 0
Gaps gap last [] = Unit
Gaps gap last (t ∷ ts) = (last + gap ≤ t) × Gaps gap t ts

-- The same, where `last` is 0 for none.
abbrev pub Spaced : ℕ → ℕ → List ℕ → Type 0
Spaced gap last [] = Unit
Spaced gap last (t ∷ ts) = ((last ≡ 0) ⊎ (last + gap ≤ t)) × Gaps gap t ts

-- What the code keeps: a time of 0 counts as none.
abbrev Chained : ℕ → ℕ → List ℕ → Type 0
Chained gap last [] = Unit
Chained gap last (t ∷ ts) = ((last ≡ 0) ⊎ (last + gap ≤ t)) × Chained gap t ts

Chained-Gaps :
    (gap last : ℕ) (ts : List ℕ)
    → 0 < last
    → All (λ t. 0 < t) ts
    → Chained gap last ts
    → Gaps gap last ts
Chained-Gaps gap last [] l p c = tt
Chained-Gaps gap last (t ∷ ts) l p c = (
  elim c.0 [ inl z ↦ absurd (omega (arith, z, l)) | inr later ↦ later ],
  Chained-Gaps gap t ts p.0 p.1 c.1,
)

Chained-Spaced :
    (gap last : ℕ) (ts : List ℕ) → All (λ t. 0 < t) ts → Chained gap last ts → Spaced gap last ts
Chained-Spaced gap last [] p c = tt
Chained-Spaced gap last (t ∷ ts) p c = (c.0, Chained-Gaps gap t ts p.0 p.1 c.1)

-- What one request does to the time of the last keyframe.
abbrev Honors : Config → State → Request → Action → State → Type 0
Honors cfg st r requested st' =
    ((st.last_honored_ms ≡ 0) ⊎ (st.last_honored_ms + cfg.coalesce_ms ≤ r.now))
    × (st'.last_honored_ms ≡ r.now)
Honors cfg st r _ st' = st'.last_honored_ms ≡ st.last_honored_ms

handle_idr-Honors :
    (cfg : Config) (st : State) (r : Request)
    → let (action, st') = handle_idr cfg st r.token r.now r.congested in Honors cfg st r action st'
unfolding handle_idr remember
handle_idr-Honors cfg st r = elim (Bool-cases (any_repeat cfg r.token r.now st.seen)) [
  | inl old ↦ rw (old, Honors) refl
  | inr new ↦ elim (Bool-cases r.congested) [
    | inl bad ↦ rw (new, bad, Honors) refl
    | inr good ↦
        elim (Bool-cases
          (not (st.last_honored_ms == 0) && ltb r.now (st.last_honored_ms + cfg.coalesce_ms))) [
            | inl soon ↦ rw (new, good, soon, Honors) refl
            | inr late ↦ rw (new, good, late, Honors) (ground arith, refl)
          ]
  ]
]

honored-Chained :
    (cfg : Config) (st : State) (rs : List Request)
    → Chained cfg.coalesce_ms st.last_honored_ms (honored cfg st rs)
unfolding honored
honored-Chained cfg st [] = tt
honored-Chained cfg st (r ∷ rs) =
    go (handle_idr cfg st r.token r.now r.congested).0 (handle_idr-Honors cfg st r)
      (honored-Chained cfg (handle_idr cfg st r.token r.now r.congested).1 rs)
  where
    go :
        (a : Action)
        → Honors cfg st r a (handle_idr cfg st r.token r.now r.congested).1
        → Chained cfg.coalesce_ms
            (handle_idr cfg st r.token r.now r.congested).1.last_honored_ms
            (honored cfg (handle_idr cfg st r.token r.now r.congested).1 rs)
        → Chained cfg.coalesce_ms st.last_honored_ms (
            let rest = honored cfg (handle_idr cfg st r.token r.now r.congested).1 rs in
            elim a [ requested ↦ r.now ∷ rest | _ ↦ rest ])
    go requested (gap, now) h = (gap, rw now at h)
    go duplicate same h = rw same at h
    go suppressed same h = rw same at h
    go coalesced same h = rw same at h

honored-All :
    (cfg : Config) (st : State) (rs : List Request)
    → All (λ r. 0 < r.now) rs
    → All (λ t. 0 < t) (honored cfg st rs)
unfolding honored
honored-All cfg st [] p = tt
honored-All cfg st (r ∷ rs) p =
    go (handle_idr cfg st r.token r.now r.congested).0
      (honored-All cfg (handle_idr cfg st r.token r.now r.congested).1 rs p.1)
  where
    go :
        (a : Action)
        → All (λ t. 0 < t) (honored cfg (handle_idr cfg st r.token r.now r.congested).1 rs)
        → All
            (λ t. 0 < t)
            (let rest = honored cfg (handle_idr cfg st r.token r.now r.congested).1 rs in
              elim a [ requested ↦ r.now ∷ rest | _ ↦ rest ])
    go requested h = (p.0, h)
    go duplicate h = h
    go suppressed h = h
    go coalesced h = h

-- Whatever requests come in, from any state, at times that are not 0: between two requests that reach
-- the encoder lie at least `coalesce_ms`, and the first of them comes as late after the state's last
-- one, if there was one.
pub honored-Spaced :
    (cfg : Config) (st : State) (rs : List Request)
    → All (λ r. 0 < r.now) rs
    → Spaced cfg.coalesce_ms st.last_honored_ms (honored cfg st rs)
honored-Spaced cfg st rs p =
    Chained-Spaced cfg.coalesce_ms st.last_honored_ms (honored cfg st rs) (honored-All cfg st rs p)
      (honored-Chained cfg st rs)
