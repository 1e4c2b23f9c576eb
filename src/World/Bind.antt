-- ===== src/World/Bind.antt =====
-- Taking a run that returned apart into its steps.
use vip_channel_management_s.Prelude.{◌≡◌, refl, ap}
use vip_channel_management_s.Errors.{Error, Result, ok, err}
use vip_channel_management_s.World.{World, Action, lift, ◌>>=◌}

module _ {A B : Type 0} (m : Action A) (f : A → Action B) (w : World) {b : B} {w' : World} where
  continue_ok :
      (r : Result A) (v : World)
      → m w ≡ (r, v)
      → (lift r >>= f) v ≡ (ok b, w')
      → (a : A) × (u : World) × (m w ≡ (ok a, u)) × (f a u ≡ (ok b, w'))
  unfolding ◌>>=◌
  continue_ok (ok a) v e h = (a, v, e, h)
  continue_ok (err x) v e h = cc

  -- A sequence that returned had a first part that returned.
  pub bind_ok :
      (m >>= f) w ≡ (ok b, w') → (a : A) × (u : World) × (m w ≡ (ok a, u)) × (f a u ≡ (ok b, w'))
  unfolding ◌>>=◌
  bind_ok h = continue_ok (m w).0 (m w).1 refl h

-- What a step returned is what goes on.
pub bind_run :
    {A B : Type 0} (m : Action A) (f : A → Action B) (w : World) {a : A} {w' : World}
    → m w ≡ (ok a, w')
    → (m >>= f) w ≡ f a w'
unfolding ◌>>=◌
bind_run m f w e = ap (λ p. (lift p.0 >>= f) p.1) e

-- What a step raised ends the sequence.
pub bind_raise :
    {A B : Type 0} (m : Action A) (f : A → Action B) (w : World) {x : Error} {w' : World}
    → m w ≡ (err x, w')
    → (m >>= f) w ≡ (err x, w')
unfolding ◌>>=◌
bind_raise m f w e = ap (λ p. (lift p.0 >>= f) p.1) e
