-- ===== src/Webhook/Malformed.antt =====
-- Payloads that `parse_update` of app/adapters/web/routers/telegram_webhook.py does not get through.
use vip_channel_management_s.Prelude.{
  Text, Option, Bool, true, false, [], ◌∷◌, ◌≡◌, refl, ap, ◌∙◌, codes, select, eq_text, some,
}
use vip_channel_management_s.Json.{Json, Members, get, find, truth, or_default}
use vip_channel_management_s.Errors.{Error, err}
use vip_channel_management_s.World.{World, lift}
use vip_channel_management_s.Models.{WebhookRoute}
use vip_channel_management_s.World.Bind.{bind_run, bind_raise}
use vip_channel_management_s.Webhook.{receive_update, find_route, routed, taken}
use vip_channel_management_s.Webhook.Update.{parse_update, parse_callback, parse_message, is_null}
use vip_channel_management_s.Tables.{scalar_one_or_none}

abbrev pub is_dict : Json → Bool
is_dict (Json.obj members) = true
is_dict _ = false

-- No dict where the code expects one: the payload, what stands for a pressed button, or, where
-- nothing does, a message that is there
pub data Malformed : Json → Type 0 where
  payload_no_dict : (payload : Json) → is_dict payload ≡ false → Malformed payload
  button_no_dict :
      (members : Members)
      → is_null (find (codes "callback_query") members) ≡ false
      → is_dict (find (codes "callback_query") members) ≡ false
      → Malformed (Json.obj members)
  message_no_dict :
      (members : Members)
      → is_null (find (codes "callback_query") members) ≡ true
      → truth (find (codes "message") members) ≡ true
      → is_dict (find (codes "message") members) ≡ false
      → Malformed (Json.obj members)

get-no_dict : (key : Text) (v : Json) → is_dict v ≡ false → get key v ≡ err Error.attribute_error
unfolding get
get-no_dict key (Json.obj members) h = cc
get-no_dict key Json.null h = refl
get-no_dict key (Json.bool b) h = refl
get-no_dict key (Json.int n) h = refl
get-no_dict key (Json.float t) h = refl
get-no_dict key (Json.str t) h = refl
get-no_dict key (Json.arr es) h = refl

parse_callback-no_dict :
    (v : Json) → is_dict v ≡ false → parse_callback v ≡ err Error.attribute_error
unfolding parse_callback
parse_callback-no_dict v h = rw (get-no_dict (codes "from") v h) refl

parse_message-no_dict : (v : Json) → is_dict v ≡ false → parse_message v ≡ err Error.attribute_error
unfolding parse_message
parse_message-no_dict v h = rw (get-no_dict (codes "from") v h) refl

parse_update-Malformed :
    (payload : Json) → Malformed payload → parse_update payload ≡ err Error.attribute_error
unfolding parse_update get or_default
parse_update-Malformed p (Malformed.payload_no_dict payload h) =
    rw (get-no_dict (codes "callback_query") payload h) refl
parse_update-Malformed p (Malformed.button_no_dict members n h) =
    rw n (parse_callback-no_dict (find (codes "callback_query") members) h)
parse_update-Malformed p (Malformed.message_no_dict members n t h) =
    rw (n, t, t) (parse_message-no_dict (find (codes "message") members) h)

-- A payload that is no dict, or whose `callback_query` is neither None nor a dict, or that has no
-- `callback_query` and whose `message` counts as true and is no dict, sent under the token of one
-- route: the request raises AttributeError, and nothing is changed, sent or asked.
pub receive_update-Malformed :
    (decrypt : Text → Option Text) (token : Text) (payload : Json) (route : WebhookRoute)
    (w : World)
    → select (λ r. eq_text r.token token) w.db.routes ≡ route ∷ []
    → Malformed payload
    → receive_update decrypt token (some payload) w ≡ (err Error.attribute_error, w)
unfolding receive_update routed find_route
receive_update-Malformed decrypt token payload route w known h =
    bind_run (find_route token) (λ r. routed decrypt r payload) w
      (ap (λ rs. (scalar_one_or_none rs, w)) known)
    ∙ bind_raise (lift (parse_update payload)) (taken decrypt route.tenant_id) w
        (ap (λ r. (r, w)) (parse_update-Malformed payload h))
