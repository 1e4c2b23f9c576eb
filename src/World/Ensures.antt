-- ===== src/World/Ensures.antt =====
-- What holds of the value that an action returns, when it returns, and actions that only read.
use vip_channel_management_s.Prelude.{subst, Bool, true, false, ◌≡◌, if◌then◌else◌}
use vip_channel_management_s.World.{Action, pure, World, ◌>>=◌}
use vip_channel_management_s.World.Bind.{bind_ok}
use vip_channel_management_s.Errors.{ok}

pub record Ensures {A : Type 0} (P : A → Type 0) (m : Action A) : Type 0 where
  pub holds : (w : World) (a : A) (w' : World) → m w ≡ (ok a, w') → P a

module _ {A : Type 0} {P : A → Type 0} where
  pub Ensures-pure : (a : A) → P a → Ensures P (pure a)
  Ensures-pure a h = record { holds = λ w b w' e. let same : a ≡ b = cc in subst P same h }

  pub Ensures-if :
      (b : Bool) (m n : Action A) → Ensures P m → Ensures P n → Ensures P (if b then m else n)
  Ensures-if true m n km kn = km
  Ensures-if false m n km kn = kn

module _ {A B : Type 0} {P : B → Type 0} where
  pub Ensures-bind :
      (m : Action A) (f : A → Action B) → ((a : A) → Ensures P (f a)) → Ensures P (m >>= f)
  Ensures-bind m f k = record {
    holds = λ w b w' e. let (a, u, e1, e2) = bind_ok m f w e in (k a).holds u b w' e2;
  }

pub ruleset ensures_rules = (Ensures-pure, Ensures-if, Ensures-bind)
