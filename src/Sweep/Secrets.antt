-- ===== src/Sweep/Secrets.antt =====
-- A tenant's turn of the sweep of app/jobs/scheduler.py changes no stored secret.
use vip_channel_management_s.Prelude.{
  ℕ, Text, Bool, List, ◌≡◌, refl, ◌∙◌, Bool-cases, inl, inr, any, none, Option,
}
use vip_channel_management_s.Errors.{Result, ok, err}
use vip_channel_management_s.World.{World, Action, ask_telegram, ask_exchange}
use vip_channel_management_s.Models.{Db}
use vip_channel_management_s.Session.Follows.{IsPreorder, Follows, follows_rules}
use vip_channel_management_s.Tables.Interface.{Table}
use vip_channel_management_s.Tables.{flush_row, in_scope, conflicts}
use vip_channel_management_s.Tables.Instances.{
  accounts_table, subscriptions_table, memberships_table, snapshots_table, executions_table,
}
use vip_channel_management_s.Monitor.Steps.{MonitorRules, Follows-run}
use vip_channel_management_s.Monitor.Run.{run}
use vip_channel_management_s.Transactions.{attempt}
use vip_channel_management_s.Sweep.{monitored, settings_for}
use vip_channel_management_s.Enums.{ProviderType}

pub record SameSecrets (w w' : World) : Type 0 where
  pub credentials : w'.db.credentials ≡ w.db.credentials

pub SameSecrets-IsPreorder : IsPreorder SameSecrets
SameSecrets-IsPreorder = record {
  reflexive = λ w. record { credentials = refl };
  transitive = λ u v w a b. record { credentials = b.credentials ∙ a.credentials };
}

-- a write of another table
SameSecrets-flush_row :
    {A : Type 0} (tbl : Table A)
    → ((xs : List A) (db : Db) → (tbl.write xs db).credentials ≡ db.credentials)
    → (a : A) → Follows SameSecrets (flush_row tbl a)
unfolding flush_row
SameSecrets-flush_row tbl other a = record {
  at = λ w. elim (Bool-cases (in_scope w.bound (tbl.tenant a))) [
    | inr hidden ↦ rw hidden (record { credentials = refl })
    | inl visible ↦ elim (Bool-cases (any (conflicts tbl a) (tbl.rows w.db))) [
      | inl taken ↦ rw (visible, taken) (record { credentials = refl })
      | inr free ↦ rw (visible, free) (record { credentials = other _ w.db })
    ]
  ];
}

SameSecrets-MonitorRules : MonitorRules SameSecrets
unfolding ask_telegram ask_exchange
SameSecrets-MonitorRules = record {
  order = SameSecrets-IsPreorder;
  uuid4 = record { at = λ w. record { credentials = refl } };
  ask_telegram = λ c. record { at = λ w. record { credentials = refl } };
  ask_exchange = λ uid. record { at = λ w. record { credentials = refl } };
  accounts = SameSecrets-flush_row accounts_table (λ xs db. refl);
  subscriptions = SameSecrets-flush_row subscriptions_table (λ xs db. refl);
  memberships = SameSecrets-flush_row memberships_table (λ xs db. refl);
  snapshots = SameSecrets-flush_row snapshots_table (λ xs db. refl);
  executions = SameSecrets-flush_row executions_table (λ xs db. refl);
}

SameSecrets-settled :
    {A : Type 0} (r : Result A) (w w' : World)
    → SameSecrets w w'
    → SameSecrets w (attempt (λ v. (r, w')) w).1
unfolding attempt
SameSecrets-settled (ok a) w w' k = k
SameSecrets-settled (err e) w w' k = record { credentials = refl }

SameSecrets-attempt :
    {A : Type 0} (m : Action A) → Follows SameSecrets m → Follows SameSecrets (attempt m)
unfolding attempt
SameSecrets-attempt m k = record { at = λ w. SameSecrets-settled (m w).0 w (m w).1 (k.at w) }

SameSecrets-run : (period t : ℕ) → Follows SameSecrets (run (settings_for period) t none)
SameSecrets-run period t = Follows-run SameSecrets-MonitorRules (settings_for period) t none

pub SameSecrets-monitored :
    (decrypt : Text → Option Text) (p : ProviderType) (period : ℕ) (ready : Bool) (t : ℕ)
    → Follows SameSecrets (monitored decrypt p period ready t)
unfolding monitored
SameSecrets-monitored decrypt p period ready t =
    search (follows_rules, SameSecrets-IsPreorder, SameSecrets-attempt, SameSecrets-run) depth 8
