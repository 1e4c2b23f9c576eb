-- ===== src/Prelude/Has.antt =====
-- Elements that pass a Boolean test.
use mathlib.Core.Path.{◌≡◌, refl, ap}
use mathlib.Core.Bool.{Bool, true, false, ◌&&◌}
use mathlib.Core.List.{List, [], ◌∷◌, ◌++◌}
use mathlib.Core.Logic.{inl, inr}
use vip_channel_management_s.Prelude.Tests.{Bool-cases}
use vip_channel_management_s.Prelude.Lists.{All, any, select}

-- An element that passes the test, and where it stands
pub record Has {ℓ} {A : Type ℓ} (test : A → Bool) (xs : List A) : Type ℓ where
  pub item : A
  pub before : List A
  pub after : List A
  pub placed : xs ≡ before ++ (item ∷ after)
  pub holds : test item ≡ true

pub any-Has {ℓ} : {A : Type ℓ} (test : A → Bool) (xs : List A) → any test xs ≡ true → Has test xs
any-Has test [] h = cc
any-Has test (x ∷ xs) h = elim (Bool-cases (test x)) [
  | inl e ↦ record { item = x; before = []; after = xs; placed = refl; holds = e }
  | inr e ↦
      let k = any-Has test xs (rw e at h) in
      record {
        item = k.item;
        before = x ∷ k.before;
        after = k.after;
        placed = ap (λ l. x ∷ l) k.placed;
        holds = k.holds;
      }
]

pub select-All {ℓ κ} :
    {A : Type ℓ} {Q : A → Type κ} (test : A → Bool) (xs : List A)
    → ((x : A) → test x ≡ true → Q x)
    → All Q (select test xs)
select-All test [] k = tt
select-All test (x ∷ xs) k = elim (Bool-cases (test x)) [
  | inl e ↦ rw e (k x e, select-All test xs k)
  | inr e ↦ rw e (select-All test xs k)
]

pub both_tests : (a b : Bool) → (a && b) ≡ true → (a ≡ true) × (b ≡ true)
both_tests true b h = (refl, h)
both_tests false b h = cc
