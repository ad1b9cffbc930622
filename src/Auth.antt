-- ===== src/Auth.antt =====
-- internal/auth: sessions and the two authentication middlewares, and the handlers of
-- internal/api/auth_handlers.go. bcrypt is a parameter; an identifier that crypto/rand and base64
-- made, or their failure, is an argument.
pub mod Laws
use fidex_go_node.Common.{
  ℕ, ◌+◌, ◌*◌, String, Bool, true, false, Option, none, some, [], ◌∷◌, ◌++◌, ltb, same_number,
  if◌then◌else◌, length,
}
use Prim.Native.String.{len}
use fidex_go_node.Errors.{Error, plain, Result, ok, err, ◌>>=◌, map_error, context}
use fidex_go_node.Json.{Body, text_member, decode}
use fidex_go_node.Domain.{User, Session}
use fidex_go_node.Store.{Fault, Driver}
use fidex_go_node.Store.Sessions
use fidex_go_node.Store.Sessions.{Sessions}
use fidex_go_node.Store.Users
use fidex_go_node.Store.Users.{Users}

-- 24 hours, in nanoseconds.
abbrev pub session_duration : ℕ
session_duration = 24 * 60 * 60 * 1000000000

-- `len` counts bytes, as Go's does.
unfoldable validate_password : String → Option Error
validate_password password =
    if ltb (len password) 8
    then some (plain "password must be at least 8 characters long")
    else none

unfoldable pub create_session :
    Driver → ℕ → Result String → Fault → Sessions → ℕ → Sessions × Result Session
create_session driver now session_id fault t user_id = elim session_id [
  | err e ↦ (t, err (context "failed to generate session ID" e))
  | ok id ↦
      let s : Session = record {
        session_id = id;
        user_id = user_id;
        expires_at = now + session_duration;
        created_at = now;
      } in
      let (t', problem) = Sessions.create driver now fault t s in
      elim problem [ none ↦ (t', ok s) | some e ↦ (t', err (context "failed to create session" e)) ]
]

-- GetSession at the instant `now`; an expired session is deleted.
unfoldable pub get_session : ℕ → Fault → Fault → Sessions → String → Sessions × Result Session
get_session now fault deletion t key = elim (Sessions.get_by_id fault t key) [
  | err e ↦ (t, err (context "session not found" e))
  | ok s ↦
      if ltb s.expires_at now
      then ((Sessions.delete deletion t key).0, err (plain "session expired"))
      else (t, ok s)
]

abbrev get_user_by_id : Fault → Users → ℕ → Result User
get_user_by_id fault users id =
    map_error (context "user not found") (Users.get_by_id fault users id)

abbrev get_user_by_username : Fault → Users → String → Result User
get_user_by_username fault users name =
    map_error (context "user not found") (Users.get_by_username fault users name)

abbrev count_users : Fault → Users → Result ℕ
count_users fault users = do ok (length (← Users.list fault users))

-- What a middleware does with a request: the response, or the next handler with the user.
pub data Access : Type 0 where
  redirect_to_login : (clear_cookie : Bool) → Access
  unauthorized : String → Access
  pass : User → Access

-- What the database reports of the three statements.
pub record Faults : Type 0 where
  pub session : Fault
  pub deletion : Fault
  pub user : Fault

module _ (now : ℕ) (faults : Faults) (users : Users) where
  user_of : Session → (Error → Access) → Access
  user_of s otherwise = elim (get_user_by_id faults.user users s.user_id) [
    | err e ↦ otherwise e
    | ok u ↦ pass u
  ]

  -- RequireAuth, of the value of the cookie `fidex_session`.
  unfoldable pub require_auth : Sessions → Option String → Sessions × Access
  unfolding user_of
  require_auth t none = (t, redirect_to_login false)
  require_auth t (some cookie) =
      let (t', session) = get_session now faults.session faults.deletion t cookie in
      (
        t',
        elim session [
          | err e ↦ redirect_to_login true
          | ok s ↦ user_of s (λ e. redirect_to_login false)
        ],
      )

  unfoldable pub require_auth_api : Sessions → Option String → Sessions × Access
  unfolding user_of
  require_auth_api t none = (t, unauthorized "no valid session")
  require_auth_api t (some cookie) =
      let (t', session) = get_session now faults.session faults.deletion t cookie in
      (
        t',
        elim session [
          | err e ↦ unauthorized "invalid session"
          | ok s ↦ user_of s (λ e. unauthorized "user not found")
        ],
      )

pub record Credentials : Type 0 where
  pub username : String
  pub password : String

-- json.Decode into a LoginRequest.
unfoldable pub decode_login : Body → Credentials × Bool
decode_login body =
    decode
      (text_member "username" (λ t c. record c { username = t })
        ∷ text_member "password" (λ t c. record c { password = t })
        ∷ [])
      body (record { username = ""; password = "" })

-- A response to a login: its status code, and the cookie that it sets.
pub data Login : Type 0 where
  rejected : ℕ → Login
  welcome : String → Session → Login

-- bcrypt: `matches hash password`, and the hash of a new password.
pub record Bcrypt : Type 0 where
  pub matches : String → String → Bool
  pub generate : String → Result String

-- The session of the cookie is deleted, whatever the database reports.
unfoldable pub logout : Fault → Sessions → Option String → Sessions
logout fault t none = t
logout fault t (some cookie) = (Sessions.delete fault t cookie).0

module _ (bcrypt : Bcrypt) (driver : Driver) where
  unfoldable pub login : ℕ → Result String → Faults → Users → Sessions → Body → Sessions × Login
  login now session_id faults users t body =
      let (c, fits) = decode_login body in
      if fits
      then elim (get_user_by_username faults.user users c.username) [
        | err e ↦ (t, rejected 401)
        | ok u ↦
            if bcrypt.matches u.password_hash c.password
            then (let (t', session) = create_session driver now session_id faults.session t u.id in
                (t', elim session [ err e ↦ rejected 500 | ok s ↦ welcome u.username s ]))
            else (t, rejected 401)
      ]
      else (t, rejected 400)

  unfoldable initialize_default_user : ℕ → Fault → Fault → Users → Users × Option Error
  initialize_default_user now listing fault users = elim (count_users listing users) [
    | err e ↦ (users, some e)
    | ok n ↦
        if same_number n 0
        then elim (map_error (context "failed to hash password") (bcrypt.generate "admin123")) [
          | err e ↦ (users, some e)
          | ok hash ↦
              let (users', made) = Users.create driver now fault users "admin" hash in
              elim made [
                | err e ↦ (users', some (context "failed to create user" e))
                | ok u ↦ (users', none)
              ]
        ]
        else (users, none)
  ]
