-- ===== src/Admin/Route.antt =====
-- The webhook route of a tenant in app/adapters/web/routers/admin.py stays the same.
use vip_channel_management_s.World.{◌>>=◌, World}
use vip_channel_management_s.Prelude.{
  refl, ◌∷◌, [], ◌++◌, some, none, inl, inr, true, ap, sym, ◌∙◌, arith, Text, ℕ, List, Option, ◌≡◌,
  ==_refl, select, select-append, subst, take, ◌+◌, Bool-cases, any, eq_text,
}
use vip_channel_management_s.Admin.Bots.{
  ensure_webhook_route, route_of, route_or_new, add_route, is_route_of, telegram_provider,
}
use vip_channel_management_s.Tables.{scalar_one_or_none}
use vip_channel_management_s.Models.{WebhookRoute}
use vip_channel_management_s.Errors.{ok, ok-inj, Result}
use vip_channel_management_s.World.Bind.{bind_ok, bind_run}

scalar-none : {A : Type 0} (xs : List A) → scalar_one_or_none xs ≡ ok none → xs ≡ []
scalar-none [] h = refl
scalar-none (x ∷ []) h = cc
scalar-none (x ∷ y ∷ ys) h = cc

is_route_of-new :
    (t id : ℕ) (token : Text)
    → is_route_of t (record { id = id; token = token; tenant_id = t; provider = telegram_provider })
      ≡ true
is_route_of-new t id token = ground (arith, ==_refl t)

-- The route that was inserted is the one that is found.
route_of-added :
    (t : ℕ) (route : WebhookRoute) (w : World)
    → is_route_of t route ≡ true
    → select (is_route_of t) w.db.routes ≡ []
    → let v = record w { db = record w.db { routes = w.db.routes ++ (route ∷ []) } } in
      route_of t v ≡ (ok (some route), v)
unfolding route_of
route_of-added t route w m n =
    rw (select-append (is_route_of t) w.db.routes (route ∷ []), n, m) refl

route_of-world : (t : ℕ) (w : World) → (route_of t w).1 ≡ w
unfolding route_of
route_of-world t w = refl

route_of-none :
    (t : ℕ) (w : World) → route_of t w ≡ (ok none, w) → select (is_route_of t) w.db.routes ≡ []
unfolding route_of
route_of-none t w r = scalar-none (select (is_route_of t) w.db.routes) (ap (λ q. q.0) r)

module _ (encrypt decrypt : Text → Option Text) (token_urlsafe : ℕ → Text) where
  route_or_new-found :
      (t : ℕ) (found : Option WebhookRoute) (token : Text) (w w' : World)
      → route_of t w ≡ (ok found, w)
      → route_or_new encrypt decrypt token_urlsafe t found w ≡ (ok token, w')
      → (route : WebhookRoute) × (route_of t w' ≡ (ok (some route), w')) × (route.token ≡ token)
  unfolding route_or_new add_route ◌>>=◌
  route_or_new-found t (some route) token w w' r h =
      let e : w ≡ w' = ap (λ q. q.1) h in
      (route, subst (λ v. route_of t v ≡ (ok (some route), v)) e r, ok-inj (ap (λ q. q.0) h))
  route_or_new-found t none token w w' r h =
      elim (Bool-cases
        (any (λ x. eq_text x.token (take 64 (token_urlsafe w.next_id))) w.db.routes)) [
          | inl e ↦ cc (rw e at h)
          | inr e ↦
              let k : ◌≡◌ {A = Result Text × World} (ok route.token, added) (ok token, w') =
                rw e at h in
              (
                route,
                subst (λ v. route_of t v ≡ (ok (some route), v)) (ap (λ q. q.1) k)
                    (route_of-added t route (record w { next_id = w.next_id + 1 })
                      (is_route_of-new t w.next_id route.token) (route_of-none t w r)),
                ok-inj (ap (λ q. q.0) k),
              )
        ]
    where
      route : WebhookRoute
      route = record {
        id = w.next_id;
        token = take 64 (token_urlsafe w.next_id);
        tenant_id = t;
        provider = telegram_provider;
      }

      added : World
      added = record w {
        next_id = w.next_id + 1;
        db = record w.db { routes = w.db.routes ++ (route ∷ []) };
      }

  again :
      (t : ℕ) (route : WebhookRoute) (token : Text) (w : World)
      → route.token ≡ token
      → route_or_new encrypt decrypt token_urlsafe t (some route) w ≡ (ok token, w)
  unfolding route_or_new
  again t route token w k = λ i. (ok (k i), w)

  -- A tenant keeps its webhook route: once the route is there, asking for it again gives the same
  -- token and changes nothing.
  pub ensure_webhook_route-twice :
      (t : ℕ) (token : Text) (w w' : World)
      → ensure_webhook_route encrypt decrypt token_urlsafe t w ≡ (ok token, w')
      → ensure_webhook_route encrypt decrypt token_urlsafe t w' ≡ (ok token, w')
  unfolding ensure_webhook_route
  ensure_webhook_route-twice t token w w' h =
      let (found, u, e, g) =
        bind_ok (route_of t) (route_or_new encrypt decrypt token_urlsafe t) w h in
      let same : w ≡ u = sym (route_of-world t w) ∙ ap (λ q. q.1) e in
      let (route, f, k) =
        route_or_new-found t found token w w' (e ∙ (λ i. (ok found, sym same i))) (
          subst (λ v. route_or_new encrypt decrypt token_urlsafe t found v ≡ (ok token, w'))
            (sym same) g) in
      bind_run (route_of t) (route_or_new encrypt decrypt token_urlsafe t) w' f
      ∙ again t route token w' k
