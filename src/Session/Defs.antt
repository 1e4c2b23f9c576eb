-- ===== src/Session/Defs.antt =====
-- What every piece of the program keeps, whatever it is asked and whatever Telegram and the
-- exchange answer: one rule for each way to build an action.
use vip_channel_management_s.Prelude.{ℕ, ◌≤◌, ◌≡◌, refl, ◌∙◌, some, List, [], ◌++◌, sym, arith}
use mathlib.Core.List.{append_assoc}
use vip_channel_management_s.World.{World, Action, Call}
use vip_channel_management_s.Tables.Interface.{others}
use vip_channel_management_s.Session.Follows.{IsPreorder, Follows}
use vip_channel_management_s.Tables.Constraints.{AllKeyed}

-- From `w` to `w'` in a session of tenant `t`: the session stays bound, no row of another tenant
-- and no unscoped row changes, the unique constraints are kept, and calls are only added.
pub record Respects (t : ℕ) (w w' : World) : Type 0 where
  pub session : w'.bound ≡ w.bound
  pub elsewhere : w.bound ≡ some t → others t w'.db ≡ others t w.db
  pub keyed : AllKeyed w.db → AllKeyed w'.db
  pub supply : w.next_id ≤ w'.next_id
  pub clock : w'.now ≡ w.now
  pub environment : w'.outside ≡ w.outside
  pub history : (new : List Call) × (w'.calls ≡ new ++ w.calls)

pub Respects-refl : {t : ℕ} (w : World) → Respects t w w
Respects-refl w = record {
  session = refl;
  elsewhere = λ e. refl;
  keyed = λ k. k;
  supply = omega arith;
  clock = refl;
  environment = refl;
  history = ([], refl);
}

pub Respects-trans : {t : ℕ} {w v u : World} → Respects t w v → Respects t v u → Respects t w u
Respects-trans {w = w} a b = record {
  session = b.session ∙ a.session;
  elsewhere = λ e. b.elsewhere (a.session ∙ e) ∙ a.elsewhere e;
  keyed = λ k. b.keyed (a.keyed k);
  supply = omega (arith, a.supply, b.supply);
  clock = b.clock ∙ a.clock;
  environment = b.environment ∙ a.environment;
  history = (
    b.history.0 ++ a.history.0,
    rw (b.history.1, a.history.1) (sym (append_assoc b.history.0 a.history.0 w.calls)),
  );
}

pub Respects-IsPreorder : (t : ℕ) → IsPreorder (Respects t)
Respects-IsPreorder t = record {
  reflexive = Respects-refl;
  transitive = λ u v w a b. Respects-trans a b;
}

abbrev pub Keeps : {A : Type 0} → ℕ → Action A → Type 0
Keeps t m = Follows (Respects t) m

-- What a request of tenant `t` may do: the rows of other tenants and the unscoped rows are the
-- same, the unique constraints hold, and calls were only added.
pub record Isolated (t : ℕ) (w w' : World) : Type 0 where
  pub elsewhere : others t w'.db ≡ others t w.db
  pub keyed : AllKeyed w'.db
  pub history : (new : List Call) × (w'.calls ≡ new ++ w.calls)

pub Keeps-Isolated :
    {A : Type 0} (t : ℕ) (m : Action A) (w : World)
    → Keeps t m
    → w.bound ≡ some t
    → AllKeyed w.db
    → Isolated t w (m w).1
Keeps-Isolated t m w k bound keyed = record {
  elsewhere = (k.at w).elsewhere bound;
  keyed = (k.at w).keyed keyed;
  history = (k.at w).history;
}
