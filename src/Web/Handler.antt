-- ===== src/Web/Handler.antt =====
-- `global_exception_handler` of app/adapters/web/middlewares/error_handler.py, which app/main.py
-- registers for no exception. The text of the exception is left out of the body.
use vip_channel_management_s.Prelude.{
  refl, ℕ, Option, none, some, Text, codes, Bool, if◌then◌else◌, true, ◌≡◌, false,
}
use vip_channel_management_s.Errors.{Error}
use vip_channel_management_s.Web.{status_of}

pub record ErrorResponse : Type 0 where
  pub status_code : ℕ
  pub retry_after : Option Text
  pub error : Text

-- DomainError, and ApplicationError with what derives from it, but the two before it
abbrev pub is_business_error : Error → Bool
is_business_error Error.domain_error = true
is_business_error Error.missing_credential = true
is_business_error _ = false

abbrev pub unexpected : Error → ErrorResponse
unexpected e =
    if is_business_error e
    then record { status_code = 400; retry_after = none; error = codes "BUSINESS_RULE_VIOLATION" }
    else record { status_code = 500; retry_after = none; error = codes "INTERNAL_SERVER_ERROR" }

unfoldable pub global_exception_handler : Error → ErrorResponse
global_exception_handler Error.entity_not_found = record {
  status_code = 404;
  retry_after = none;
  error = codes "NOT_FOUND";
}
global_exception_handler Error.provider_unavailable = record {
  status_code = 503;
  retry_after = some (codes "300");
  error = codes "PROVIDER_UNAVAILABLE";
}
global_exception_handler e = unexpected e

-- An outage that leaves a route is answered with 500, and the handler would answer it with 503.
pub handler-unregistered :
    (status_of Error.provider_unavailable ≡ 500)
    × ((global_exception_handler Error.provider_unavailable).status_code ≡ 503)
unfolding global_exception_handler
handler-unregistered = (refl, refl)
