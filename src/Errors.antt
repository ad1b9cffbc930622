-- ===== src/Errors.antt =====
-- internal/errors/errors.go: the application's error values, and the two ways in which a plain Go
-- error is told apart from them.
pub mod Laws
use fidex_go_node.Common.{
  ℕ, String, Option, none, some, Bool, true, false, [], ◌∷◌, sprint, ◌≡◌, refl, ◌⊎◌, inl, inr,
}

pub data ErrorCode : Type 0 where
  bad_request unauthorized forbidden not_found conflict validation_error rate_limited : ErrorCode
  internal_error database_error crypto_error network_error timeout unavailable : ErrorCode
  message_invalid partner_not_found key_expired signature_invalid encryption_failed : ErrorCode

-- The constant that a code stands for.
abbrev code_text : ErrorCode → String
code_text bad_request = "BAD_REQUEST"
code_text unauthorized = "UNAUTHORIZED"
code_text forbidden = "FORBIDDEN"
code_text not_found = "NOT_FOUND"
code_text conflict = "CONFLICT"
code_text validation_error = "VALIDATION_ERROR"
code_text rate_limited = "RATE_LIMITED"
code_text internal_error = "INTERNAL_ERROR"
code_text database_error = "DATABASE_ERROR"
code_text crypto_error = "CRYPTO_ERROR"
code_text network_error = "NETWORK_ERROR"
code_text timeout = "TIMEOUT"
code_text unavailable = "SERVICE_UNAVAILABLE"
code_text message_invalid = "MESSAGE_INVALID"
code_text partner_not_found = "PARTNER_NOT_FOUND"
code_text key_expired = "KEY_EXPIRED"
code_text signature_invalid = "SIGNATURE_INVALID"
code_text encryption_failed = "ENCRYPTION_FAILED"

-- `err` is the text of the underlying error, which the program only prints. No caller fills the
-- map of details.
pub record AppError : Type 0 where
  pub code : ErrorCode
  pub message : String
  pub status_code : ℕ
  pub err : Option String
  pub retryable : Bool

-- A value of Go's `error`: an *AppError, an error that wraps ErrDuplicateMessageID, or another.
pub data Error : Type 0 where
  app : AppError → Error
  duplicate_message_id : String → Error
  plain : String → Error

unfoldable pub code_to_http_status : ErrorCode → ℕ
code_to_http_status bad_request = 400
code_to_http_status validation_error = 400
code_to_http_status message_invalid = 400
code_to_http_status unauthorized = 401
code_to_http_status forbidden = 403
code_to_http_status not_found = 404
code_to_http_status partner_not_found = 404
code_to_http_status conflict = 409
code_to_http_status rate_limited = 429
code_to_http_status timeout = 408
code_to_http_status unavailable = 503
code_to_http_status _ = 500

-- The unexported `isRetryable`, by code.
unfoldable pub is_retryable_code : ErrorCode → Bool
is_retryable_code timeout = true
is_retryable_code unavailable = true
is_retryable_code network_error = true
is_retryable_code rate_limited = true
is_retryable_code _ = false

unfoldable pub new : ErrorCode → String → Error
new code message = app record {
  code = code;
  message = message;
  status_code = code_to_http_status code;
  err = none;
  retryable = is_retryable_code code;
}

abbrev pub error_text : Error → String
error_text (app e) = elim e.err [
  | none ↦ sprint (code_text e.code ∷ ": " ∷ e.message ∷ [])
  | some cause ↦ sprint (code_text e.code ∷ ": " ∷ e.message ∷ " (caused by: " ∷ cause ∷ ")" ∷ [])
]
error_text (duplicate_message_id text) = text
error_text (plain text) = text

unfoldable pub wrap : Error → ErrorCode → String → Error
wrap err code message = app record {
  code = code;
  message = message;
  status_code = code_to_http_status code;
  err = some (error_text err);
  retryable = is_retryable_code code;
}

abbrev bad_request_error : String → Error
bad_request_error message = new bad_request message

abbrev unauthorized_error : String → Error
unauthorized_error message = new unauthorized message

abbrev forbidden_error : String → Error
forbidden_error message = new forbidden message

abbrev not_found_error : String → String → Error
not_found_error resource id = new not_found (sprint (resource ∷ " not found: " ∷ id ∷ []))

abbrev conflict_error : String → Error
conflict_error message = new conflict message

unfoldable pub validation : String → Error
unfolding new
validation message = new validation_error message

abbrev pub internal : String → Error
internal message = new internal_error message

unfoldable pub internal_wrap : Error → String → Error
unfolding wrap
internal_wrap err message = wrap err internal_error message

abbrev pub database : Error → String → Error
database err operation = wrap err database_error (sprint ("database " ∷ operation ∷ " failed" ∷ []))

abbrev pub crypto : Error → String → Error
crypto err operation = wrap err crypto_error (sprint ("cryptography " ∷ operation ∷ " failed" ∷ []))

unfoldable pub network : Error → String → Error
unfolding wrap
network err operation = wrap err network_error (sprint ("network " ∷ operation ∷ " failed" ∷ []))

abbrev timed_out : String → Error
timed_out operation = new timeout (sprint (operation ∷ " timed out" ∷ []))

unfoldable pub is_app_error : Error → Option AppError
is_app_error (app e) = some e
is_app_error _ = none

unfoldable get_status_code : Error → ℕ
unfolding is_app_error
get_status_code err = elim (is_app_error err) [ some e ↦ e.status_code | none ↦ 500 ]

unfoldable pub is_retryable : Error → Bool
unfolding is_app_error
is_retryable err = elim (is_app_error err) [ some e ↦ e.retryable | none ↦ false ]

-- A function that returns a value and an error: the value, or the error that is not nil.
pub data Result {ℓ} (A : Type ℓ) : Type ℓ where
  ok : A → Result A
  err : Error → Result A

abbrev pub IsErr {ℓ} : {A : Type ℓ} → Result A → Type 0
IsErr (ok a) = ⊥
IsErr (err e) = Unit

infixl 5 ◌>>=◌ ◌>>◌
abbrev pub ◌>>=◌ {ℓ κ} : {A : Type ℓ} {B : Type κ} → Result A → (A → Result B) → Result B
ok a >>= k = k a
err e >>= k = err e

abbrev pub ◌>>◌ {ℓ} : {B : Type ℓ} → Result (Unit {0}) → Result B → Result B
m >> k = m >>= λ _. k

-- `if bad { return err }`
abbrev pub refuse_if : Bool → Error → Result (Unit {0})
refuse_if true e = err e
refuse_if false e = ok tt

-- `if err != nil { return f(err) }`
abbrev pub map_error {ℓ} : {A : Type ℓ} → (Error → Error) → Result A → Result A
map_error f (ok a) = ok a
map_error f (err e) = err (f e)

-- `fmt.Errorf("what: %w", err)`
abbrev pub context : String → Error → Error
context what e = plain (sprint (what ∷ ": " ∷ error_text e ∷ []))

>>=-eq-ok {ℓ κ} :
    {A : Type ℓ} {B : Type κ} (m : Result A) (k : A → Result B) {b : B}
    → (m >>= k) ≡ ok b
    → (a : A) × (m ≡ ok a) × (k a ≡ ok b)
>>=-eq-ok (ok a) k h = (a, refl, h)
>>=-eq-ok (err e) k h = cc

-- To split on a result and keep the equation.
pub Result-cases {ℓ} :
    {A : Type ℓ} (m : Result A) → ((a : A) × (m ≡ ok a)) ⊎ ((e : Error) × (m ≡ err e))
Result-cases (ok a) = inl (a, refl)
Result-cases (err e) = inr (e, refl)

pub map_error-eq-ok {ℓ} :
    {A : Type ℓ} (f : Error → Error) (m : Result A) {a : A} → map_error f m ≡ ok a → m ≡ ok a
map_error-eq-ok f (ok b) h = h
map_error-eq-ok f (err e) h = cc

refuse_if-eq-ok : (b : Bool) (e : Error) → refuse_if b e ≡ ok tt → b ≡ false
refuse_if-eq-ok false e h = refl
refuse_if-eq-ok true e h = cc
