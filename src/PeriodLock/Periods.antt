-- ===== src/PeriodLock/Periods.antt =====
-- The boundaries that `period_start_for` of app/jobs/period_lock.py computes.
use vip_channel_management_s.PeriodLock.{period_start_for, exact_until}
use vip_channel_management_s.Time.{Datetime, instant}
use native.Mathlib.Nat.{div-eq_of_lt-le, mod-lt, div-add-mod', div-mul-le_self, le_trans}
use vip_channel_management_s.Prelude.{ap, sym, ◌*◌, ◌/◌, ℕ, ◌<◌, ◌≤◌, ◌+◌, ◌≡◌, arith, ◌↔◌, subst}

-- A moment lies in the period that is computed for it, and the boundary is a multiple of the
-- period, counted from the epoch.
pub period_start_for_bounds :
    (now : Datetime) (period : ℕ)
    → 0 < period
    → (period_start_for now period ≤ instant now)
      × (instant now < period_start_for now period + period * 1000000)
unfolding period_start_for
period_start_for_bounds now period h =
    let r = mod-lt (instant now) {m = period * 1000000} (omega (arith, h)) in
    let e = div-add-mod' (instant now) (period * 1000000) in
    (div-mul-le_self (instant now) (period * 1000000), omega (arith, e, r))

quotient_unique : (n p q : ℕ) → 0 < p → q * p ≤ n → n < q * p + p → n / p ≡ q
quotient_unique n p q h l u = div-eq_of_lt-le p l (grind arith)

-- For a period of whole seconds and moments less than 2^33 seconds after the epoch, in order: two
-- instances compute one boundary exactly when both moments lie in one period: the later one, before
-- the end of the period of the earlier one.
pub period_start_for-eq_iff :
    (a b : Datetime) (period : ℕ)
    → 0 < period
    → instant a ≤ instant b
    → instant b < exact_until
    → (period_start_for a period ≡ period_start_for b period)
      ↔ (instant b < period_start_for a period + period * 1000000)
unfolding period_start_for
period_start_for-eq_iff a b period h o exact =
    let k : 0 < period * 1000000 = omega (arith, h) in
    (
      λ e.
          subst (λ s. instant b < s + period * 1000000) (sym e)
            (period_start_for_bounds b period h).1,
      λ l.
          ap (λ q. q * (period * 1000000))
            (sym (
              quotient_unique (instant b) (period * 1000000) (instant a / (period * 1000000)) k
                (le_trans (div-mul-le_self (instant a) (period * 1000000)) o) l)),
    )
