-- ===== src/Repositories/Calls.antt =====
-- A sequence of calls of the shared repository of app/adapters/persistence/repositories.py in one
-- session, and the same calls on the abstract store.
use vip_channel_management_s.Prelude.{ℕ, Bool, Option, List, [], ◌∷◌}
use vip_channel_management_s.World.{Action, pure, ◌>>=◌}
use vip_channel_management_s.Tables.Interface.{Table}
use vip_channel_management_s.Repositories.{get_by_id, save, delete}
use vip_channel_management_s.Repositories.View.{stored, removed, is_some}

pub data RepositoryCall (A : Type 0) : Type 0 where
  find : ℕ → RepositoryCall A
  put : A → RepositoryCall A
  remove : ℕ → RepositoryCall A

pub data CallAnswer (A : Type 0) : Type 0 where
  row : Option A → CallAnswer A
  written : A → CallAnswer A
  was_there : Bool → CallAnswer A

-- A computation on the abstract store.
abbrev pub Spec : Type 0 → Type 0 → Type 0
Spec A B = (ℕ → Option A) → B × (ℕ → Option A)

module _ {A : Type 0} (tbl : Table A) (t : ℕ) where
  unfoldable pub one_call : RepositoryCall A → Action (CallAnswer A)
  one_call (RepositoryCall.find id) = do found ← get_by_id tbl t id; pure (CallAnswer.row found)
  one_call (RepositoryCall.put a) = do saved ← save tbl t a; pure (CallAnswer.written saved)
  one_call (RepositoryCall.remove id) = do
    deleted ← delete tbl t id
    pure (CallAnswer.was_there deleted)

  unfoldable pub all_calls : List (RepositoryCall A) → Action (List (CallAnswer A))
  unfolding one_call
  all_calls [] = pure []
  all_calls (op ∷ ops) = do answer ← one_call op; answers ← all_calls ops; pure (answer ∷ answers)

  unfoldable pub abstractly : RepositoryCall A → Spec A (CallAnswer A)
  unfolding stored removed
  abstractly (RepositoryCall.find id) store = (CallAnswer.row (store id), store)
  abstractly (RepositoryCall.put a) store =
      let b = tbl.assign t a in (CallAnswer.written b, stored tbl b store)
  abstractly (RepositoryCall.remove id) store =
      (CallAnswer.was_there (is_some (store id)), removed tbl id store)

  unfoldable pub replay : List (RepositoryCall A) → Spec A (List (CallAnswer A))
  unfolding abstractly
  replay [] store = ([], store)
  replay (op ∷ ops) store =
      let (answer, next) = abstractly op store in
      let (answers, last) = replay ops next in (answer ∷ answers, last)
