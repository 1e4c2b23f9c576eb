-- ===== src/Web/Contained.antt =====
-- What a request of an admin or of a payment can change, from the header to the commit.
use vip_channel_management_s.Web.{
  HttpRequest, Dispatched, refused, passed, Answer, response, status, uuid_of, read_header,
  dispatch_request, get_tenant_session, with_tenant, after_dispatch, request_route, answer_of,
  is_public, identified_by, closed, default_public_paths, webhook_path_prefix,
}
use vip_channel_management_s.Session.Defs.{Keeps, Respects}
use vip_channel_management_s.World.{World, Action}
use vip_channel_management_s.Prelude.{
  refl, ◌∷◌, [], inl, inr, some, ℕ, ◌≡◌, Text, none, Option, List, Bool-cases,
}
use vip_channel_management_s.Tables.Constraints.{AllKeyed}
use vip_channel_management_s.Tables.Interface.{others}
use vip_channel_management_s.Errors.{ok, Result, err}
use vip_channel_management_s.Admin.Keep.{Upsert, upsert, Keeps-upsert}

-- What an answer says of the world after it: a status leaves the database as it was, and a response
-- means that the header named a tenant, to whose rows all changes were kept, and that the unique
-- constraints hold.
abbrev pub Confined : {A : Type 0} → HttpRequest → World → Answer A × World → Type 0
Confined request w (status code, w') = w'.db ≡ w.db
Confined request w (response a, w') =
    (header : Text) × (t : ℕ) × (request.tenant_header ≡ some header)
    × (uuid_of header ≡ some t)
    × (others t w'.db ≡ others t w.db)
    × AllKeyed w'.db

-- The tenant that a request was passed on with stands in its header.
Passed : HttpRequest → Dispatched → Type 0
Passed request (refused code) = Unit
Passed request (passed none) = Unit
Passed request (passed (some t)) =
    (header : Text) × (request.tenant_header ≡ some header) × (uuid_of header ≡ some t)

Confined-close :
    {A : Type 0} (request : HttpRequest) (t : ℕ) (w v : World) (r : Result A)
    → Passed request (passed (some t))
    → AllKeyed w.db
    → Respects t (record w { bound = some t }) v
    → Confined request w (answer_of (closed w r v).0, (closed w r v).1)
unfolding Passed
Confined-close request t w v (ok a) p k q = (p.0, t, p.1, p.2, q.elsewhere refl, q.keyed k)
Confined-close request t w v (err e) p k q = refl

Confined-dispatch :
    {A : Type 0} (request : HttpRequest) (d : Dispatched) (handler : ℕ → Action A) (w : World)
    → Passed request d
    → AllKeyed w.db
    → ((t : ℕ) → Keeps t (handler t))
    → Confined request w (after_dispatch d handler w)
unfolding after_dispatch with_tenant get_tenant_session
Confined-dispatch request (refused code) handler w p k h = refl
Confined-dispatch request (passed none) handler w p k h = refl
Confined-dispatch request (passed (some t)) handler w p k h =
    Confined-close request t w (handler t (record w { bound = some t })).1
      (handler t (record w { bound = some t })).0 p k ((h t).at (record w { bound = some t }))

identified-Passed :
    (request : HttpRequest) (header : Text) (o : Option ℕ)
    → request.tenant_header ≡ some header
    → uuid_of header ≡ o
    → Passed request (identified_by o)
unfolding Passed
identified-Passed request header none h e = tt
identified-Passed request header (some t) h e = (header, h, e)

read_header-Passed :
    (request : HttpRequest) (o : Option Text)
    → request.tenant_header ≡ o
    → Passed request (read_header o)
unfolding read_header Passed
read_header-Passed request none h = tt
read_header-Passed request (some []) h = tt
read_header-Passed request (some (c ∷ cs)) h =
    identified-Passed request (c ∷ cs) (uuid_of (c ∷ cs)) h refl

dispatch_request-Passed :
    (public_paths public_prefixes : List Text) (request : HttpRequest)
    → Passed request (dispatch_request public_paths public_prefixes request)
unfolding dispatch_request
dispatch_request-Passed public_paths public_prefixes request =
    elim (Bool-cases (is_public public_paths public_prefixes request.path)) [
      | inl e ↦ rw e (unfold Passed in tt)
      | inr e ↦ rw e (read_header-Passed request request.tenant_header refl)
    ]

-- On a database that meets the unique constraints, whatever a request to store a credential, a
-- program, a channel or a payment holds: when it is answered with a status of an error the database is as it
-- was, and when it is answered by the route, its header holds the identifier of a tenant, no row of
-- another tenant and no unscoped row has changed, and the unique constraints hold.
pub request_route-Confined :
    (encrypt : Text → Option Text) (request : HttpRequest) (body : Upsert) (w : World)
    → AllKeyed w.db
    → Confined request w (request_route request (λ t. upsert encrypt t body) w)
unfolding request_route
request_route-Confined encrypt request body w k =
    Confined-dispatch request
      (dispatch_request default_public_paths (webhook_path_prefix ∷ []) request)
      (λ t. upsert encrypt t body) w
      (dispatch_request-Passed default_public_paths (webhook_path_prefix ∷ []) request) k
      (λ t. Keeps-upsert encrypt t body)
