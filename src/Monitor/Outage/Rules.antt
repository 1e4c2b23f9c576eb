-- ===== src/Monitor/Outage/Rules.antt =====
-- Actions that leave memberships, subscriptions and Telegram alone while the exchange is down:
-- the relation, and a rule for each way to build an action.
use vip_channel_management_s.Prelude.{
  Bool, true, false, ◌≡◌, refl, ◌∙◌, List, select, Text, Bool-cases, inr, inl, any,
}
use vip_channel_management_s.World.{
  World, Outside, Call, validate_user, uuid4, Action, ask_exchange,
}
use vip_channel_management_s.Errors.{Error, err}
use vip_channel_management_s.Session.Follows.{IsPreorder, Follows, follows_rules, Follows-bind}
use vip_channel_management_s.Models.{Db}
use vip_channel_management_s.Tables.Interface.{Table}
use vip_channel_management_s.Tables.{flush_row, query, in_scope, conflicts, put_row}

-- Every call of the exchange fails, with the error of an unreachable provider.
abbrev pub IsDown : Outside → Type 0
IsDown o =
    (history : List Call) (uid : Text) → o.exchange history uid ≡ err Error.provider_unavailable

abbrev pub to_telegram : Call → Bool
to_telegram (validate_user uid) = false
to_telegram _ = true

-- No membership and no subscription changed, and Telegram was not called.
pub record Untouched (w w' : World) : Type 0 where
  pub memberships : w'.db.memberships ≡ w.db.memberships
  pub subscriptions : w'.db.subscriptions ≡ w.db.subscriptions
  pub telegram : select to_telegram w'.calls ≡ select to_telegram w.calls
  pub environment : w'.outside ≡ w.outside

pub record Spares (w w' : World) : Type 0 where
  pub when_down : IsDown w.outside → Untouched w w'

pub Untouched-refl : (w : World) → Untouched w w
Untouched-refl w = record {
  memberships = refl;
  subscriptions = refl;
  telegram = refl;
  environment = refl;
}

pub Untouched-trans : {w v u : World} → Untouched w v → Untouched v u → Untouched w u
Untouched-trans a b = record {
  memberships = b.memberships ∙ a.memberships;
  subscriptions = b.subscriptions ∙ a.subscriptions;
  telegram = b.telegram ∙ a.telegram;
  environment = b.environment ∙ a.environment;
}

pub Spares-IsPreorder : IsPreorder Spares
Spares-IsPreorder = record {
  reflexive = λ w. record { when_down = λ d. Untouched-refl w };
  transitive = λ u v w a b. record {
    when_down = λ d.
        let first : Untouched u v = a.when_down d in
        Untouched-trans first (b.when_down (rw first.environment d));
  };
}

pub Untouched-IsPreorder : IsPreorder Untouched
Untouched-IsPreorder = record {
  reflexive = Untouched-refl;
  transitive = λ u v w a b. Untouched-trans a b;
}

pub Untouched-uuid4 : Follows Untouched uuid4
Untouched-uuid4 = record {
  at =
      λ w. record { memberships = refl; subscriptions = refl; telegram = refl; environment = refl };
}

pub Untouched-ask_exchange : (uid : Text) → Follows Untouched (ask_exchange uid)
unfolding ask_exchange
Untouched-ask_exchange uid = record {
  at =
      λ w. record { memberships = refl; subscriptions = refl; telegram = refl; environment = refl };
}

module _ {A : Type 0} (tbl : Table A) where
  pub Untouched-query : (test : A → Bool) → Follows Untouched (query tbl test)
  unfolding query
  Untouched-query test = record { at = Untouched-refl }

  -- a write to a table that is neither of the two
  pub Untouched-flush_row :
      ((xs : List A) (db : Db) → (tbl.write xs db).memberships ≡ db.memberships)
      → ((xs : List A) (db : Db) → (tbl.write xs db).subscriptions ≡ db.subscriptions)
      → (a : A) → Follows Untouched (flush_row tbl a)
  unfolding flush_row
  Untouched-flush_row m s a = record {
    at = λ w. elim (Bool-cases (in_scope w.bound (tbl.tenant a))) [
      | inr hidden ↦ rw hidden (Untouched-refl w)
      | inl visible ↦ elim (Bool-cases (any (conflicts tbl a) (tbl.rows w.db))) [
        | inl taken ↦ rw (visible, taken) (Untouched-refl w)
        | inr free ↦
            rw (visible, free)
              (record {
                memberships = m (put_row tbl a (tbl.rows w.db)) w.db;
                subscriptions = s (put_row tbl a (tbl.rows w.db)) w.db;
                telegram = refl;
                environment = refl;
              })
      ]
    ];
  }

-- What always leaves them alone does so while the exchange is down.
Spares-of : {A : Type 0} (m : Action A) → Follows Untouched m → Follows Spares m
Spares-of m k = record { at = λ w. record { when_down = λ d. k.at w } }

pub Spares-uuid4 : Follows Spares uuid4
Spares-uuid4 = Spares-of uuid4 Untouched-uuid4

module _ {A : Type 0} (tbl : Table A) where
  pub Spares-query : (test : A → Bool) → Follows Spares (query tbl test)
  Spares-query test = Spares-of (query tbl test) (Untouched-query tbl test)

  pub Spares-flush_row :
      ((xs : List A) (db : Db) → (tbl.write xs db).memberships ≡ db.memberships)
      → ((xs : List A) (db : Db) → (tbl.write xs db).subscriptions ≡ db.subscriptions)
      → (a : A) → Follows Spares (flush_row tbl a)
  Spares-flush_row m s a = Spares-of (flush_row tbl a) (Untouched-flush_row tbl m s a)

pub ruleset spares_rules = (follows_rules, Spares-IsPreorder, Spares-uuid4, Spares-query)

pub ruleset untouched_rules =
    (follows_rules, Untouched-IsPreorder, Untouched-uuid4, Untouched-ask_exchange, Untouched-query)
