-- ===== src/Session/Follows.antt =====
-- Actions that move a world along a relation, whether they return or raise: one rule for each way
-- to build an action.
use vip_channel_management_s.Prelude.{Bool, true, false, Bool-cases, inl, inr, if◌then◌else◌, ◌≡◌}
use vip_channel_management_s.Errors.{Error, Result, ok, err}
use vip_channel_management_s.World.{World, Action, pure, raise, gets, lift, ◌>>=◌, catch}

pub record IsPreorder (R : World → World → Type 0) : Type 0 where
  pub reflexive : (w : World) → R w w
  pub transitive : (u v w : World) → R u v → R v w → R u w

pub record Follows {A : Type 0} (R : World → World → Type 0) (m : Action A) : Type 0 where
  pub at : (w : World) → R w (m w).1

module _ {A : Type 0} {R : World → World → Type 0} where
  pub Follows-pure : IsPreorder R → (a : A) → Follows R (pure a)
  Follows-pure o a = record { at = o.reflexive }

  pub Follows-raise : IsPreorder R → (e : Error) → Follows R (raise {A = A} e)
  Follows-raise o e = record { at = o.reflexive }

  pub Follows-gets : IsPreorder R → (f : World → A) → Follows R (gets f)
  Follows-gets o f = record { at = o.reflexive }

  pub Follows-lift : IsPreorder R → (r : Result A) → Follows R (lift r)
  Follows-lift o r = record { at = o.reflexive }

  pub Follows-if :
      (b : Bool) (m n : Action A) → Follows R m → Follows R n → Follows R (if b then m else n)
  Follows-if true m n km kn = km
  Follows-if false m n km kn = kn

module _ {A B : Type 0} {R : World → World → Type 0} where
  Follows-continue :
      IsPreorder R
      → (r : Result A) (f : A → Action B) → ((a : A) → Follows R (f a))
      → Follows R (lift r >>= f)
  unfolding ◌>>=◌
  Follows-continue o (ok a) f kf = kf a
  Follows-continue o (err e) f kf = Follows-raise o e

  pub Follows-bind :
      IsPreorder R
      → (m : Action A) (f : A → Action B) → Follows R m
      → ((a : A) → Follows R (f a))
      → Follows R (m >>= f)
  unfolding ◌>>=◌
  Follows-bind o m f km kf = record {
    at = λ w.
        let (r, w') = m w in
        o.transitive w w' ((lift r >>= f) w').1 (km.at w) ((Follows-continue o r f kf).at w');
  }

module _ {A : Type 0} {R : World → World → Type 0} where
  Follows-handled :
      IsPreorder R
      → (caught : Error → Bool) (r : Result A) (h : Action A) → Follows R h
      → Follows R (catch caught (lift r) h)
  unfolding catch
  Follows-handled o caught (ok a) h kh = Follows-pure o a
  Follows-handled o caught (err e) h kh = elim (Bool-cases (caught e)) [
    | inl c ↦ record { at = λ w. rw c (kh.at w) }
    | inr c ↦ record { at = λ w. rw c (o.reflexive w) }
  ]

  pub Follows-catch :
      IsPreorder R
      → (caught : Error → Bool) (m h : Action A) → Follows R m
      → Follows R h
      → Follows R (catch caught m h)
  unfolding catch
  Follows-catch o caught m h km kh = record {
    at = λ w.
        let (r, w') = m w in
        o.transitive w w' (catch caught (lift r) h w').1 (km.at w)
          ((Follows-handled o caught r h kh).at w');
  }

-- What an action follows holds of the world that a run of it ended in.
pub along :
    {A : Type 0} (R : World → World → Type 0) (m : Action A) (w : World) {r : Result A} {w' : World}
    → Follows R m
    → m w ≡ (r, w')
    → R w w'
along R m w k e = rw e at (k.at w)

pub ruleset follows_rules = (
  Follows-pure, Follows-raise, Follows-gets, Follows-lift, Follows-if, Follows-bind, Follows-catch,
)
