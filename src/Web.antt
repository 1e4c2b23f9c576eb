-- ===== src/Web.antt =====
-- A request of an admin on its way to the handler: app/adapters/web/middlewares/tenant_context.py and
-- app/adapters/web/dependencies.py, as app/main.py puts them before the routes.
pub mod Contained
pub mod Handler
use mathlib.Core.List.{reverse}
use vip_channel_management_s.Prelude.{
  true, false, ◌==◌, ◌-◌, if◌then◌else◌, ◌∷◌, List, Option, Text, ℕ, codes, suc, ◌||◌, leb, [],
  some, none, Bool, any, ◌*◌, select, ◌&&◌, not, eq_text, ◌+◌, length, zero,
}
use vip_channel_management_s.Errors.{Error, Result, ok, err}
use vip_channel_management_s.World.{Action, World}
use vip_channel_management_s.Bot.Flow.{starts_with}

-- The header is `none` where the request has none.
pub record HttpRequest : Type 0 where
  pub path : Text
  pub tenant_header : Option Text

-- `s.replace(part, "")`; `skip` characters are still to be left out
unfoldable pub without : Text → ℕ → Text → Text
without part skip [] = []
without part (suc skip) (c ∷ cs) = without part skip cs
without part zero (c ∷ cs) = elim (starts_with part (c ∷ cs)) [
  | true ↦ without part (length part - 1) cs
  | false ↦ c ∷ without part 0 cs
]

-- `s.lstrip("{}")`
unfoldable pub drop_braces : Text → Text
drop_braces [] = []
drop_braces (c ∷ cs) = let rest = drop_braces cs in if c == 123 || c == 125 then rest else c ∷ cs

abbrev pub hex_digit : ℕ → Option ℕ
hex_digit c =
    if leb 48 c && leb c 57
    then some (c - 48)
    else if leb 65 c && leb c 70
    then some (c - 55)
    else if leb 97 c && leb c 102
    then some (c - 87)
    else none

unfoldable pub read_hex : Text → ℕ → Option ℕ
read_hex [] value = some value
read_hex (c ∷ cs) value = elim (hex_digit c) [ none ↦ none | some d ↦ read_hex cs (value * 16 + d) ]

-- `UUID(text)`. That `int` lets a prefix 0x, underscores and white space through is left out.
unfoldable pub uuid_of : Text → Option ℕ
unfolding without drop_braces read_hex
uuid_of text =
    let bare = without (codes "uuid:") 0 (without (codes "urn:") 0 text) in
    let hex = select (λ c. not (c == 45)) (reverse (drop_braces (reverse (drop_braces bare)))) in
    if length hex == 32 then read_hex hex 0 else none

-- What `dispatch` does with a request: an answer at once, or `call_next` with the tenant, if any.
pub data Dispatched : Type 0 where
  refused : ℕ → Dispatched
  passed : Option ℕ → Dispatched

abbrev pub default_public_paths : List Text
default_public_paths = codes "/health" ∷ codes "/docs" ∷ codes "/redoc" ∷ codes "/openapi.json" ∷ []

abbrev pub webhook_path_prefix : Text
webhook_path_prefix = codes "/api/v1/telegram/"

abbrev pub is_public : List Text → List Text → Text → Bool
is_public public_paths public_prefixes path =
    any (eq_text path) public_paths || any (λ prefix. starts_with prefix path) public_prefixes

abbrev pub identified_by : Option ℕ → Dispatched
identified_by none = refused 400
identified_by (some tenant_id) = passed (some tenant_id)

unfoldable pub read_header : Option Text → Dispatched
unfolding uuid_of
read_header none = refused 401
read_header (some []) = refused 401
read_header (some (c ∷ cs)) = identified_by (uuid_of (c ∷ cs))

-- `TenantContextMiddleware.dispatch`
unfoldable pub dispatch_request : List Text → List Text → HttpRequest → Dispatched
unfolding read_header
dispatch_request public_paths public_prefixes request =
    if is_public public_paths public_prefixes request.path
    then passed none
    else read_header request.tenant_header

abbrev pub get_tenant_id : Option ℕ → Result ℕ
get_tenant_id none = err Error.runtime_error
get_tenant_id (some tenant_id) = ok tenant_id

-- The end of a session: committed when the handler returned, rolled back when it raised.
abbrev pub closed : {A : Type 0} → World → Result A → World → Result A × World
closed w (ok a) w' = (ok a, record w' { bound = w.bound })
closed w (err e) w' = (err e, record w' { db = w.db; bound = w.bound })

unfoldable pub get_tenant_session : {A : Type 0} → ℕ → Action A → Action A
get_tenant_session tenant_id handler w =
    let (r, w') = handler (record w { bound = some tenant_id }) in closed w r w'

-- What the caller gets: the response of the handler, or a status. No handler of other exceptions is
-- registered, so that all but an HTTPException give 500.
pub data Answer (A : Type 0) : Type 0 where
  response : A → Answer A
  status : ℕ → Answer A

abbrev pub status_of : Error → ℕ
status_of (Error.http_error code) = code
status_of _ = 500

abbrev pub answer_of : {A : Type 0} → Result A → Answer A
answer_of (ok a) = response a
answer_of (err e) = status (status_of e)

unfoldable pub with_tenant : {A : Type 0} → Result ℕ → (ℕ → Action A) → World → Answer A × World
unfolding get_tenant_session
with_tenant (err e) handler w = (status 500, w)
with_tenant (ok tenant_id) handler w =
    let (r, w') = get_tenant_session tenant_id (handler tenant_id) w in (answer_of r, w')

unfoldable pub after_dispatch :
    {A : Type 0} → Dispatched → (ℕ → Action A) → World → Answer A × World
unfolding with_tenant
after_dispatch (refused code) handler w = (status code, w)
after_dispatch (passed tenant) handler w = with_tenant (get_tenant_id tenant) handler w

-- A request to a route whose handler depends on the session of the tenant.
unfoldable pub request_route :
    {A : Type 0} → HttpRequest → (ℕ → Action A) → World → Answer A × World
unfolding after_dispatch dispatch_request
request_route request handler w =
    after_dispatch (dispatch_request default_public_paths (webhook_path_prefix ∷ []) request)
      handler w
