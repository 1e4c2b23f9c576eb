-- ===== src/Bitunix.antt =====
-- app/adapters/providers/bitunix.py: the signature of a request and the reading of the answer. The
-- HTTP client and SHA-1 are parameters.
pub mod Parsed
pub mod Answers
pub mod Signature
use vip_channel_management_s.Errors.{◌>>=◌, Result, Error, ok, err}
use vip_channel_management_s.Prelude.Int.{ℤ, pos, negsuc, ◌+ℤ◌}
use vip_channel_management_s.Json.{Json, Members, find, get, or_default}
use vip_channel_management_s.Decimal.{
  Read, number, not_finite, refused, decimal, digits, Amount, add, cut,
}
use vip_channel_management_s.Prelude.{
  ℕ, suc, ◌+◌, Bool, ◌&&◌, ◌||◌, ◌==◌, ltb, leb, Text, List, [], ◌∷◌, ◌++◌, codes, if◌then◌else◌,
  Option, ◌*◌, false, some, none,
}
use vip_channel_management_s.Providers.{BitunixCredentials}
use vip_channel_management_s.Uid.Characters.{is_digit}
use vip_channel_management_s.Eligibility.{ReferralCheck}

abbrev pub deposit_onchain : Text
deposit_onchain = codes "deposit_usdt_Onchain"

abbrev pub deposit_internal : Text
deposit_internal = codes "deposit_usdt_Internal"

abbrev pub deposit_otc : Text
deposit_otc = codes "deposit_usdt_OTC"

-- `_param_type`; the keys of a request are ASCII, in which the lower case letters are these
unfoldable pub param_type : Text → ℕ
unfolding is_digit
param_type [] = 0
param_type (c ∷ cs) = if is_digit c then 1 else if leb 97 c && leb c 122 then 2 else 3

unfoldable pub code_sum : Text → ℕ
code_sum [] = 0
code_sum (c ∷ cs) = c + code_sum cs

-- one parameter: its key, which is not empty, and the text of its value
abbrev pub Param : Type 0
Param = Text × Text

-- The order of the sort keys
unfoldable pub before : Param → Param → Bool
unfolding param_type code_sum
before a b =
    ltb (param_type a.0) (param_type b.0)
    || (param_type a.0 == param_type b.0 && leb (code_sum a.0) (code_sum b.0))

unfoldable pub ordered_insert : Param → List Param → List Param
unfolding before
ordered_insert p [] = p ∷ []
ordered_insert p (q ∷ qs) =
    let rest = ordered_insert p qs in if before p q then p ∷ q ∷ qs else q ∷ rest

-- `sorted`, which keeps the order of equal keys
unfoldable pub sorted : List Param → List Param
unfolding ordered_insert
sorted [] = []
sorted (p ∷ ps) = ordered_insert p (sorted ps)

-- `"".join(...)`
unfoldable pub joined : List Param → Text
joined [] = []
joined (p ∷ ps) = p.1 ++ joined ps

unfoldable pub sign : (sha1 : Text → Text) → List Param → Text → Text
unfolding sorted joined
sign sha1 params api_secret = sha1 (joined (sorted params) ++ api_secret)

abbrev pub integral : ℤ → Read
integral n = number (record { coefficient = n; places = 0 })

-- A text that `Decimal` refuses counts as nothing.
abbrev pub or_nothing : Read → Read
or_nothing refused = integral (pos 0)
or_nothing r = r

-- `_to_decimal`: the texts of a Boolean, a list and a dict are refused.
unfoldable pub to_decimal : Json → Read
unfolding decimal
to_decimal (Json.str []) = integral (pos 0)
to_decimal (Json.str (c ∷ cs)) = or_nothing (decimal (c ∷ cs))
to_decimal (Json.float text) = or_nothing (decimal text)
to_decimal (Json.int n) = integral n
to_decimal _ = integral (pos 0)

-- The sum of Infinity or NaN with another amount is left out: it raises in the comparison with the
-- minimum, or overflows the column.
unfoldable pub plus : Read → Read → Result Amount
plus (number a) (number b) = ok (add a b)
plus _ _ = err Error.invalid_operation

-- the sum over DEPOSIT_FIELDS, exactly; `start` adds nothing to it
unfoldable pub deposit_total : Members → Result Amount
unfolding plus to_decimal find
deposit_total result = do
  two ← plus (to_decimal (find deposit_onchain result)) (to_decimal (find deposit_internal result))
  plus (number two) (to_decimal (find deposit_otc result))

-- `value is True`
abbrev pub is_true : Json → Bool
is_true (Json.bool b) = b
is_true _ = false

-- an answer whose body has a dict as its result; the rules count in 10⁻⁸ dollars, to which the sum
-- is cut
unfoldable pub check_of : Text → Members → Result ReferralCheck
unfolding deposit_total cut
check_of uid result = do
  total ← deposit_total result
  ok (record {
    uid = uid;
    registered = is_true (find (codes "result") result);
    deposit_total = cut total;
    qualifying_trades = none;
  })

unfoldable pub parse_result : Text → Json → Result ReferralCheck
unfolding check_of
parse_result uid (Json.obj result) = check_of uid result
parse_result uid _ = err Error.provider_unavailable

-- `_parse`
unfoldable pub parse : Text → Json → Result ReferralCheck
unfolding parse_result or_default get
parse uid payload = do
  found ← get (codes "result") payload
  parse_result uid (or_default found (Json.obj Members.end))

-- What is posted: the form and the signature. The key of the API goes along unchanged.
pub record Form : Type 0 where
  pub account : Text
  pub timestamp : Text
  pub signature : Text

abbrev pub form : (sha1 : Text → Text) → BitunixCredentials → Text → ℕ → Form
form sha1 credentials uid time = record {
  account = uid;
  timestamp = digits time;
  signature =
      sign sha1 ((codes "account", uid) ∷ (codes "timestamp", digits time) ∷ [])
        credentials.api_secret;
}

-- An HTTP failure, a status of an error and a body that is no JSON are `none`.
unfoldable pub answered : Text → Option Json → Result ReferralCheck
unfolding parse
answered uid none = err Error.provider_unavailable
answered uid (some payload) = parse uid payload

-- `time` is the second of the request.
unfoldable pub validate_user :
    (sha1 : Text → Text) (post : Form → Option Json)
    → BitunixCredentials
    → Text
    → ℕ
    → Result ReferralCheck
unfolding answered sign digits
validate_user sha1 post credentials uid time = answered uid (post (form sha1 credentials uid time))
