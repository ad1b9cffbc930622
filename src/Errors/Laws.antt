-- ===== src/Errors/Laws.antt =====
-- What the error constructors promise to the retry loop and to the HTTP layer.
use fidex_go_node.Common.{String, ◌≡◌, ◌⊎◌, ◌↔◌, true, arith}
use fidex_go_node.Errors.{
  ErrorCode, rate_limited, network_error, timeout, unavailable, Error, new, wrap, is_retryable,
  is_retryable_code,
}

abbrev IsTransient : ErrorCode → Type 0
IsTransient code =
    (code ≡ timeout) ⊎ (code ≡ unavailable) ⊎ (code ≡ network_error) ⊎ (code ≡ rate_limited)

-- An error made by New or by Wrap is retried exactly when its code is TIMEOUT,
-- SERVICE_UNAVAILABLE, NETWORK_ERROR or RATE_LIMITED, whatever its text and its cause.
is_retryable_iff :
    (code : ErrorCode) (message : String) (cause : Error)
    → ((is_retryable (new code message) ≡ true) ↔ IsTransient code)
      × ((is_retryable (wrap cause code message) ≡ true) ↔ IsTransient code)
unfolding is_retryable new wrap is_retryable_code
is_retryable_iff code message cause = ground arith
