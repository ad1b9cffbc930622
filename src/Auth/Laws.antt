-- ===== src/Auth/Laws.antt =====
-- internal/auth and auth_handlers.go: how long a session lasts, and who is let through.
use fidex_go_node.Common.{
  ℕ, ◌+◌, ◌≤◌, String, true, none, some, ◌≡◌, ◌≢◌, ◌==◌, ◌↔◌, inl, inr, arith, eq_iff, eq_refl, ltb,
  if◌then◌else◌, Option-cases,
}
use fidex_go_node.Errors.{ok, IsErr}
use fidex_go_node.Json.{Body}
use fidex_go_node.Domain.{User, Session}
use fidex_go_node.Store.{Driver, or_now}
use fidex_go_node.Store.Table.{find_row, delete_rows, find_where}
use fidex_go_node.Store.Table.Laws.{find_row-insert, find_row-delete_rows}
use fidex_go_node.Store.Sessions
use fidex_go_node.Store.Sessions.{Sessions}
use fidex_go_node.Store.Users
use fidex_go_node.Store.Users.{Users}
use fidex_go_node.Auth.{
  session_duration, create_session, get_session, pass, Faults, require_auth, require_auth_api,
  decode_login, Bcrypt, welcome, login, logout,
}

abbrev pub no_faults : Faults
no_faults = record { session = none; deletion = none; user = none }

-- When the database reports no fault, GetSession returns a session exactly when its row is in the
-- table and the present is not past its expiry. It changes the table exactly in the other case of
-- a row that is there: then the expired row is deleted.
get_session_iff :
    (now : ℕ) (t : Sessions) (key : String) (s : Session)
    → key ≢ ""
    → (((get_session now none none t key).1 ≡ ok s)
        ↔ ((find_row Sessions.key_of key t ≡ some s) × (now ≤ s.expires_at)))
      × ((find_row Sessions.key_of key t ≡ some s)
          → (get_session now none none t key).0
            ≡ (if ltb s.expires_at now then delete_rows Sessions.key_of key t else t))
unfolding get_session Sessions.get_by_id Sessions.delete
get_session_iff now t key s named = ground (arith, eq_iff key "")

-- Both middlewares let a live session of a known user through, and no expired one.
require_auth_iff :
    (now : ℕ) (users : Users) (t : Sessions) (cookie : String) (s : Session) (u : User)
    → cookie ≢ ""
    → find_row Sessions.key_of cookie t ≡ some s
    → find_where (Users.has_id s.user_id) users.rows ≡ some u
    → (((require_auth_api now no_faults users t (some cookie)).1 ≡ pass u) ↔ (now ≤ s.expires_at))
      × (((require_auth now no_faults users t (some cookie)).1 ≡ pass u) ↔ (now ≤ s.expires_at))
unfolding require_auth require_auth_api get_session Sessions.get_by_id Users.get_by_id
require_auth_iff now users t cookie s u named found own = ground (arith, eq_iff cookie "")

module _ (bcrypt : Bcrypt) (driver : Driver) (now : ℕ) (id : String) (users : Users) (t : Sessions)
    (body : Body) where
  -- What a successful login has established.
  pub record LoggedIn (name : String) (s : Session) : Type 0 where
    pub user : User
    pub decoded : (decode_login body).1 ≡ true
    pub known : find_row Users.key_of (decode_login body).0.username users.rows ≡ some user
    pub matched : bcrypt.matches user.password_hash (decode_login body).0.password ≡ true
    pub named : name ≡ user.username
    pub session : s ≡ record {
      session_id = id;
      user_id = user.id;
      expires_at = now + session_duration;
      created_at = now;
    }

  -- A login with a database that reports no fault succeeds only with a body that decodes, for the
  -- user of the username in it whose stored hash the password matches; the session is that user's,
  -- carries the fresh id, and expires 24 hours after the login.
  login_sound :
      (name : String) (s : Session)
      → (login bcrypt driver now (ok id) no_faults users t body).1 ≡ welcome name s
      → LoggedIn name s
  unfolding login create_session Sessions.create Users.get_by_username
  login_sound name s h =
      elim (Option-cases (find_row Users.key_of (decode_login body).0.username users.rows)) [
        | inl missing ↦ ground arith
        | inr (u, found) ↦ record {
          user = u;
          decoded = ground arith;
          known = found;
          matched = ground arith;
          named = ground arith;
          session = ground arith;
        }
      ]

  login_row :
      (name : String) (s : Session) (u : User)
      → (login bcrypt driver now (ok id) no_faults users t body).1 ≡ welcome name s
      → find_row Users.key_of (decode_login body).0.username users.rows ≡ some u
      → (id ≢ "")
        × (find_row Sessions.key_of id (login bcrypt driver now (ok id) no_faults users t body).0
            ≡ some (record {
              session_id = id;
              user_id = u.id;
              expires_at = now + session_duration;
              created_at = or_now now now;
            }))
  unfolding login create_session Sessions.create Users.get_by_username
  login_row name s u h known =
      let row : Session = record {
        session_id = id;
        user_id = u.id;
        expires_at = now + session_duration;
        created_at = or_now now now;
      } in
      ground (arith, eq_iff id "", eq_refl id, find_row-insert Sessions.key_of id t row)

  -- A session that a login gave lets its user through both middlewares until 24 hours after the
  -- login and not afterwards, when the database reports no fault, the session id was new and the
  -- user's id is that of no other row.
  pub login-require_auth :
      (name : String) (s : Session) (u : User) (later : ℕ)
      → (login bcrypt driver now (ok id) no_faults users t body).1 ≡ welcome name s
      → find_row Users.key_of (decode_login body).0.username users.rows ≡ some u
      → find_where (Users.has_id u.id) users.rows ≡ some u
      → let t' = (login bcrypt driver now (ok id) no_faults users t body).0 in
        (((require_auth_api later no_faults users t' (some id)).1 ≡ pass u)
          ↔ (later ≤ now + session_duration))
        × (((require_auth later no_faults users t' (some id)).1 ≡ pass u)
            ↔ (later ≤ now + session_duration))
  login-require_auth name s u later h known own =
      let (named, row) = login_row name s u h known in
      require_auth_iff later users _ id _ u named row own

-- After a logout, with no fault of the database, the cookie's session is refused by both
-- middlewares, and every other session is as it was.
logout-require_auth :
    (now : ℕ) (users : Users) (t : Sessions) (cookie other : String)
    → cookie ≢ ""
    → let t' = logout none t (some cookie) in
      IsErr (get_session now none none t' cookie).1
      × (find_row Sessions.key_of other t'
          ≡ (if cookie == other then none else find_row Sessions.key_of other t))
unfolding logout Sessions.delete get_session Sessions.get_by_id
logout-require_auth now users t cookie other named = ground (
  arith,
  eq_iff cookie "",
  eq_refl cookie,
  find_row-delete_rows Sessions.key_of cookie cookie t,
  find_row-delete_rows Sessions.key_of cookie other t,
)
