-- ===== src/Bitunix/Parsed.antt =====
-- What `_parse` of app/adapters/providers/bitunix.py reads of a body.
use vip_channel_management_s.Errors.{ok-inj, ◌>>=◌, err, Result, ok}
use vip_channel_management_s.Prelude.{
  refl, subst, Option, some, none, true, false, Text, ◌≡◌, codes, sym, ◌∙◌, ap,
}
use vip_channel_management_s.Bitunix.{
  parse_result, parse, is_true, deposit_total, answered, check_of, to_decimal, plus,
  deposit_onchain, number, deposit_internal, deposit_otc,
}
use vip_channel_management_s.Json.{Json, Members, get, or_default, find}
use vip_channel_management_s.Eligibility.{ReferralCheck}
use vip_channel_management_s.Decimal.{refused, not_finite, Amount, cut, Read, add}

-- What was read of a body.
pub record Parsed (uid : Text) (payload : Json) (check : ReferralCheck) : Type 0 where
  pub result : Members
  pub found : Json
  pub body : get (codes "result") payload ≡ ok found
  pub chosen : or_default found (Json.obj Members.end) ≡ Json.obj result
  pub flag : check.registered ≡ is_true (find (codes "result") result)
  pub total : Amount
  pub sum : deposit_total result ≡ ok total
  pub counted : check.deposit_total ≡ cut total
  pub trades : check.qualifying_trades ≡ none
  pub same_uid : check.uid ≡ uid

pub Json-IsTrue : (v : Json) → is_true v ≡ true → v ≡ Json.bool true
Json-IsTrue (Json.bool true) h = refl
Json-IsTrue (Json.bool false) h = cc
Json-IsTrue Json.null h = cc
Json-IsTrue (Json.int n) h = cc
Json-IsTrue (Json.float n) h = cc
Json-IsTrue (Json.str n) h = cc
Json-IsTrue (Json.arr n) h = cc
Json-IsTrue (Json.obj n) h = cc

-- the check that a total gives
abbrev pub check_with : Text → Members → Amount → ReferralCheck
check_with uid result total = record {
  uid = uid;
  registered = is_true (find (codes "result") result);
  deposit_total = cut total;
  qualifying_trades = none;
}

pub summed :
    (uid : Text) (payload found : Json) (result : Members) (check : ReferralCheck)
    (total : Result Amount)
    → get (codes "result") payload ≡ ok found
    → or_default found (Json.obj Members.end) ≡ Json.obj result
    → deposit_total result ≡ total
    → (total >>= λ t. ok (check_with uid result t)) ≡ ok check
    → Parsed uid payload check
summed uid payload found result check (ok total) g c d h =
    subst (Parsed uid payload) (ok-inj h) (record {
      result = result;
      found = found;
      body = g;
      chosen = c;
      flag = refl;
      total = total;
      sum = d;
      counted = refl;
      trades = refl;
      same_uid = refl;
    })
summed uid payload found result check (err e) g c d h = cc

pub parse_result-Parsed :
    (uid : Text) (payload found chosen : Json) (check : ReferralCheck)
    → get (codes "result") payload ≡ ok found
    → or_default found (Json.obj Members.end) ≡ chosen
    → parse_result uid chosen ≡ ok check
    → Parsed uid payload check
unfolding parse_result check_of
parse_result-Parsed uid payload found (Json.obj result) check g c h =
    summed uid payload found result check (deposit_total result) g c refl h
parse_result-Parsed uid payload found Json.null check g c h = cc
parse_result-Parsed uid payload found (Json.bool b) check g c h = cc
parse_result-Parsed uid payload found (Json.int n) check g c h = cc
parse_result-Parsed uid payload found (Json.float n) check g c h = cc
parse_result-Parsed uid payload found (Json.str n) check g c h = cc
parse_result-Parsed uid payload found (Json.arr n) check g c h = cc

pub parse-Parsed :
    (uid : Text) (payload : Json) (check : ReferralCheck)
    → parse uid payload ≡ ok check
    → Parsed uid payload check
unfolding parse
parse-Parsed uid payload check h =
    parsed_got uid payload check (get (codes "result") payload) refl h
  where
    parsed_got :
        (uid : Text) (payload : Json) (check : ReferralCheck) (got : Result Json)
        → get (codes "result") payload ≡ got
        → (got >>= λ found. parse_result uid (or_default found (Json.obj Members.end))) ≡ ok check
        → Parsed uid payload check
    parsed_got uid payload check (ok found) g h =
        parse_result-Parsed uid payload found (or_default found (Json.obj Members.end)) check g refl
          h
    parsed_got uid payload check (err e) g h = cc

-- The answer that was asked for, and what was read of it.
pub record Answered (uid : Text) (answer : Option Json) (check : ReferralCheck) : Type 0 where
  pub payload : Json
  pub came : answer ≡ some payload
  pub parsed : Parsed uid payload check

pub answered-Answered :
    (uid : Text) (answer : Option Json) (check : ReferralCheck)
    → answered uid answer ≡ ok check
    → Answered uid answer check
unfolding answered
answered-Answered uid none check h = cc
answered-Answered uid (some payload) check h = record {
  payload = payload;
  came = refl;
  parsed = parse-Parsed uid payload check h;
}

pub obj-inj : {a b : Members} → Json.obj a ≡ Json.obj b → a ≡ b
obj-inj {a} {b} h = cc

pub no_flag :
    {C : Type 0} (result : Members)
    → Members.end ≡ result
    → find (codes "result") result ≡ Json.bool true
    → C
unfolding find
no_flag Members.end e f = cc
no_flag (Members.member k v rest) e f = cc

-- The three amounts of a sum
pub record Deposits (result : Members) (total : Amount) : Type 0 where
  pub onchain : Amount
  pub internal : Amount
  pub otc : Amount
  pub onchain_read : to_decimal (find (codes "deposit_usdt_Onchain") result) ≡ number onchain
  pub internal_read : to_decimal (find (codes "deposit_usdt_Internal") result) ≡ number internal
  pub otc_read : to_decimal (find (codes "deposit_usdt_OTC") result) ≡ number otc
  pub added : total ≡ add (add onchain internal) otc

plus-numbers :
    (a b : Read) (total : Amount)
    → plus a b ≡ ok total
    → (x y : Amount) × (a ≡ number x) × (b ≡ number y) × (total ≡ add x y)
unfolding plus
plus-numbers (number a) (number b) total h = (a, b, refl, refl, sym (ok-inj h))
plus-numbers (number a) not_finite total h = cc
plus-numbers (number a) refused total h = cc
plus-numbers not_finite b total h = cc
plus-numbers refused b total h = cc

Deposits-of :
    (result : Members) (two : Result Amount) (total : Amount)
    → plus (to_decimal (find deposit_onchain result)) (to_decimal (find deposit_internal result))
      ≡ two
    → (two >>= λ t. plus (number t) (to_decimal (find deposit_otc result))) ≡ ok total
    → Deposits result total
Deposits-of result (err e) total g h = cc
Deposits-of result (ok two) total g h =
    let (a, b, ra, rb, s) = plus-numbers _ _ two g in
    let (t, c, rt, rc, s') = plus-numbers (number two) _ total h in
    let same : t ≡ two = cc rt in
    record {
      onchain = a;
      internal = b;
      otc = c;
      onchain_read = ra;
      internal_read = rb;
      otc_read = rc;
      added = s' ∙ ap (λ x. add x c) (same ∙ s);
    }

pub deposit_total-Deposits :
    (result : Members) (total : Amount) → deposit_total result ≡ ok total → Deposits result total
unfolding deposit_total
deposit_total-Deposits result total h = Deposits-of result _ total refl h

-- Amounts that were read make the sum.
pub Deposits-deposit_total :
    (result : Members) (total : Amount) → Deposits result total → deposit_total result ≡ ok total
unfolding deposit_total plus
Deposits-deposit_total result total d =
    rw (d.onchain_read, d.internal_read, d.otc_read, d.added) refl
