-- ===== src/Api/Settings/Accounts.antt =====
-- internal/api/settings_handlers.go: the users of the settings page. A handler takes the two tables
-- that it may change.
pub mod Laws
pub mod Passwords
use fidex_go_node.Common.{
  ℕ, String, Bool, true, false, Option, none, some, [], ◌∷◌, sprint, decimal, ℤ, pos, negsuc,
  is_empty, ◌||◌, if◌then◌else◌, same_number,
}
use fidex_go_node.Errors.{Error, plain, Result, ok, err, map_error, context}
use fidex_go_node.Json.{
  Json, bool, number, text, array, object, end, field, Body, text_member, decode,
}
use fidex_go_node.Domain.{User}
use fidex_go_node.Store.{Fault, Driver, failure}
use fidex_go_node.Store.Sessions
use fidex_go_node.Store.Sessions.{Sessions}
use fidex_go_node.Store.Users
use fidex_go_node.Store.Users.{Users}
use fidex_go_node.Auth.{Bcrypt, decode_login}
use fidex_go_node.Api.{Reply, respond_with_error}
use fidex_go_node.Api.Settings.{no_error, reply, success, items, decimal_int}
use fidex_go_node.Api.Settings.Ids.{parse_int64}

pub record Accounts : Type 0 where
  pub users : Users
  pub sessions : Sessions

-- What the database reports of the statements of one request.
pub record UserFaults : Type 0 where
  pub user : Fault
  pub session : Fault

-- auth.HashPassword
abbrev hash_password : Bcrypt → String → Result String
hash_password bcrypt password =
    map_error (context "failed to hash password") (bcrypt.generate password)

module _ (format : ℕ → String) where
  unfoldable pub encode_user : User → Json
  encode_user u = object (
      field "id" (number (decimal u.id))
        (field "username" (text u.username) (field "created_at" (text (format u.created_at)) end)))

  unfoldable pub list_users : Fault → Users → Reply
  list_users fault t = elim (Users.list fault t) [
    | err e ↦ respond_with_error 500 "Failed to load users" e
    | ok rows ↦ reply 200 (field "users" (array (items encode_user rows)) end)
  ]

  created : User → Reply
  created u = reply 201 (field "success" (bool true) (field "user" (encode_user u) end))

  module _ (bcrypt : Bcrypt) (driver : Driver) where
    insert_user : ℕ → Fault → Accounts → String → String → Accounts × Reply
    unfolding created
    insert_user now fault a username hash =
        let (users, made) = Users.create driver now fault a.users username hash in
        elim (map_error (context "failed to create user") made) [
          | err e ↦ (
            record a { users = users },
            respond_with_error 500 "Failed to create user (username may already exist)" e,
          )
          | ok u ↦ (record a { users = users }, created u)
        ]

    -- createUserHandler. A CreateUserRequest has the members of a LoginRequest.
    unfoldable pub create_user : ℕ → Fault → Error → Body → Accounts → Accounts × Reply
    unfolding insert_user
    create_user now fault decode_error body a =
        let (c, fits) = decode_login body in
        if fits
        then if is_empty c.username || is_empty c.password
          then (a, respond_with_error 400 "Username and password are required" no_error)
          else elim (hash_password bcrypt c.password) [
            | err e ↦ (a, respond_with_error 500 "Failed to create user" e)
            | ok hash ↦ insert_user now fault a c.username hash
          ]
        else (a, respond_with_error 400 "Invalid request body" decode_error)

-- The user that RequireAuthAPI has put into the request's context, if it ran.
abbrev pub CurrentUser : Type 0
CurrentUser = Option User

abbrev is_own : CurrentUser → ℤ → Bool
is_own (some u) (pos n) = same_number u.id n
is_own _ _ = false

-- `UserRepo.Delete` of an int64; a negative id is that of no row.
unfoldable pub remove : Fault → Users → Sessions → ℤ → Users × Sessions × Option Error
remove fault t sessions (pos n) = Users.delete fault t sessions n
remove (some e) t sessions (negsuc n) = (t, sessions, some (failure "delete user" e))
remove none t sessions (negsuc n) =
    (t, sessions, some (plain (sprint ("user not found: " ∷ decimal_int (negsuc n) ∷ []))))

abbrev drop_sessions : Fault → Sessions → ℤ → Sessions
drop_sessions fault t (pos n) = (Sessions.delete_by_user_id fault t n).0
drop_sessions fault t (negsuc n) = t

-- deleteUserHandler; the deletion of the sessions may fail without a word to the caller.
unfoldable pub delete_user : CurrentUser → UserFaults → String → Accounts → Accounts × Reply
delete_user current faults param a =
    let id = parse_int64 param in
    let (users, sessions, problem) = remove faults.user a.users a.sessions id in
    if is_own current id
    then (a, respond_with_error 400 "Cannot delete your own account" no_error)
    else elim problem [
      | some e ↦ (
        record { users = users; sessions = sessions },
        respond_with_error 500 "Failed to delete user" e,
      )
      | none ↦ (
        record { users = users; sessions = drop_sessions faults.session sessions id },
        success "User deleted successfully",
      )
    ]

pub record PasswordChange : Type 0 where
  pub current_password : String
  pub new_password : String

-- json.Decode into an UpdateUserPasswordRequest.
unfoldable pub decode_change : Body → PasswordChange × Bool
decode_change body =
    decode
      (text_member "current_password" (λ t c. record c { current_password = t })
        ∷ text_member "new_password" (λ t c. record c { new_password = t })
        ∷ [])
      body (record { current_password = ""; new_password = "" })

module _ (bcrypt : Bcrypt) where
  store_hash : Fault → User → String → Accounts → Accounts × Reply
  store_hash fault u hash a =
      let (users, problem) = Users.update_password fault a.users u.id hash in
      elim problem [
        | some e ↦
            (record a { users = users }, respond_with_error 500 "Failed to update password" e)
        | none ↦ (record a { users = users }, success "Password updated successfully")
      ]

  -- updatePasswordHandler
  unfoldable pub update_password : CurrentUser → Fault → Error → Body → Accounts → Accounts × Reply
  unfolding store_hash
  update_password current fault decode_error body a =
      let (c, fits) = decode_change body in
      if fits
      then elim current [
        | none ↦ (a, respond_with_error 401 "Unauthorized" no_error)
        | some u ↦
            if bcrypt.matches u.password_hash c.current_password
            then elim (hash_password bcrypt c.new_password) [
              | err e ↦ (a, respond_with_error 500 "Failed to update password" e)
              | ok hash ↦ store_hash fault u hash a
            ]
            else (a, respond_with_error 401 "Current password is incorrect" no_error)
      ]
      else (a, respond_with_error 400 "Invalid request body" decode_error)
