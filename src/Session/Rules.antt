-- ===== src/Session/Rules.antt =====
-- The rules, for `search`.
use vip_channel_management_s.Prelude.{
  ℕ, ◌≡◌, refl, Text, Bool, true, false, Bool-cases, inl, inr, Option, none, some, [], ◌∷◌, any,
  arith,
}
use vip_channel_management_s.World.{World, Call, validate_user, uuid4, ask_telegram, ask_exchange}
use vip_channel_management_s.Tables.Interface.{Table, IsTable}
use vip_channel_management_s.Tables.{query, flush_row, in_scope, put_row, conflicts}
use vip_channel_management_s.Tables.Writes.{select-put_row, put_row-IsKeyed}
use vip_channel_management_s.Tables.Constraints.{IsConstrained}
use vip_channel_management_s.Session.Defs.{
  Respects, Respects-refl, Respects-trans, Keeps, Respects-IsPreorder,
}
use vip_channel_management_s.Session.Follows.{follows_rules}

module _ {t : ℕ} where
  pub Keeps-uuid4 : Keeps t uuid4
  Keeps-uuid4 = record {
    at = λ w. record {
      session = refl;
      elsewhere = λ e. refl;
      keyed = λ k. k;
      supply = omega arith;
      clock = refl;
      environment = refl;
      history = ([], refl);
    };
  }

  pub Keeps-ask_telegram : (c : Call) → Keeps t (ask_telegram c)
  unfolding ask_telegram
  Keeps-ask_telegram c = record {
    at = λ w. record {
      session = refl;
      elsewhere = λ e. refl;
      keyed = λ k. k;
      supply = omega arith;
      clock = refl;
      environment = refl;
      history = (c ∷ [], refl);
    };
  }

  pub Keeps-ask_exchange : (uid : Text) → Keeps t (ask_exchange uid)
  unfolding ask_exchange
  Keeps-ask_exchange uid = record {
    at = λ w. record {
      session = refl;
      elsewhere = λ e. refl;
      keyed = λ k. k;
      supply = omega arith;
      clock = refl;
      environment = refl;
      history = (validate_user uid ∷ [], refl);
    };
  }

in_scope_sound : (b : Option ℕ) (t u : ℕ) → in_scope b u ≡ true → b ≡ some t → u ≡ t
in_scope_sound none t u h e = cc
in_scope_sound (some s) t u h e = ground arith

module _ {A : Type 0} {t : ℕ} (tbl : Table A) where
  pub Keeps-query : (test : A → Bool) → Keeps t (query tbl test)
  unfolding query
  Keeps-query test = record { at = Respects-refl }

  flush-Respects :
      IsTable tbl
      → IsConstrained tbl
      → (a : A) (w : World) → in_scope w.bound (tbl.tenant a) ≡ true
      → any (conflicts tbl a) (tbl.rows w.db) ≡ false
      → Respects t w (record w { db = tbl.write (put_row tbl a (tbl.rows w.db)) w.db })
  flush-Respects laws cons a w visible free = record {
    session = refl;
    elsewhere = λ e. laws.others-write t (put_row tbl a (tbl.rows w.db)) w.db (
        select-put_row tbl t a (tbl.rows w.db) (in_scope_sound w.bound t (tbl.tenant a) visible e));
    keyed = λ k.
        cons.to_all (put_row tbl a (tbl.rows w.db)) w.db k
          (put_row-IsKeyed tbl laws a (tbl.rows w.db) (cons.of_all w.db k) free);
    supply = omega arith;
    clock = refl;
    environment = refl;
    history = ([], refl);
  }

  -- Whatever row is written, of whatever tenant.
  pub Keeps-flush_row : IsTable tbl → IsConstrained tbl → (a : A) → Keeps t (flush_row tbl a)
  unfolding flush_row
  Keeps-flush_row laws cons a = record {
    at = λ w. elim (Bool-cases (in_scope w.bound (tbl.tenant a))) [
      | inr hidden ↦ rw hidden (Respects-refl w)
      | inl visible ↦ elim (Bool-cases (any (conflicts tbl a) (tbl.rows w.db))) [
        | inl taken ↦ rw (visible, taken) (Respects-refl w)
        | inr free ↦ rw (visible, free) (flush-Respects laws cons a w visible free)
      ]
    ];
  }

pub ruleset session_rules = (
  follows_rules, Respects-IsPreorder, Keeps-uuid4, Keeps-ask_telegram, Keeps-ask_exchange,
  Keeps-query,
)
