-- ===== src/Api/Settings/Accounts/Passwords.antt =====
-- settings_handlers.go against auth_handlers.go: the password that a handler has set is the one that
-- a login takes.
use fidex_go_node.Common.{
  ℕ, suc, ◌+◌, String, Bool, true, false, none, some, List, [], ◌∷◌, ◌++◌, ◌≡◌, ◌≢◌, inl, inr,
  arith, refl, eq_iff, eq_refl, if◌then◌else◌,
}
use fidex_go_node.Errors.{Error, ok, Result-cases}
use fidex_go_node.Json.{Body}
use fidex_go_node.Domain.{User, Session}
use fidex_go_node.Store.{Driver}
use fidex_go_node.Store.Table.{find_row, update_where}
use fidex_go_node.Store.Table.Laws.{find_row-insert}
use fidex_go_node.Store.Sessions
use fidex_go_node.Store.Sessions.{Sessions}
use fidex_go_node.Store.Users
use fidex_go_node.Store.Users.{Users}
use fidex_go_node.Auth.{
  Bcrypt, decode_login, login, welcome, create_session, session_duration, rejected,
}
use fidex_go_node.Auth.Laws.{no_faults}
use fidex_go_node.Api.{respond_with_error}
use fidex_go_node.Api.Settings.Accounts.{Accounts, create_user, update_password, decode_change}

-- bcrypt's promise: a hash that it made of a password matches that password.
abbrev pub MatchesOwn : Bcrypt → Type 0
MatchesOwn bcrypt = (p h : String) → bcrypt.generate p ≡ ok h → bcrypt.matches h p ≡ true

-- The session that a login opens.
abbrev pub opened : ℕ → String → ℕ → Session
opened now id user_id = record {
  session_id = id;
  user_id = user_id;
  expires_at = now + session_duration;
  created_at = now;
}

module _ (bcrypt : Bcrypt) (driver : Driver) (now : ℕ) (id : String) (a : Accounts) (body : Body)
    (u : User) (fits : (decode_login body).1 ≡ true)
    (known : find_row Users.key_of (decode_login body).0.username a.users.rows ≡ some u)
    (named : (decode_login body).0.username ≢ "") where
  login_of_match :
      bcrypt.matches u.password_hash (decode_login body).0.password ≡ true
      → id ≢ ""
      → find_row Sessions.key_of id a.sessions ≡ none
      → (login bcrypt driver now (ok id) no_faults a.users a.sessions body).1
        ≡ welcome u.username (opened now id u.id)
  unfolding login create_session Sessions.create Users.get_by_username
  login_of_match m i f = ground (arith, eq_iff id "", eq_iff (decode_login body).0.username "")

  login_of_mismatch :
      bcrypt.matches u.password_hash (decode_login body).0.password ≡ false
      → (login bcrypt driver now (ok id) no_faults a.users a.sessions body).1 ≡ rejected 401
  unfolding login Users.get_by_username
  login_of_mismatch m = ground (arith, eq_iff (decode_login body).0.username "")

module _ (format : ℕ → String) (bcrypt : Bcrypt) (driver : Driver) (now : ℕ) (decode_error : Error)
    (body : Body) (a : Accounts) where
  abbrev new_user : String → User
  new_user hash = record {
    id = suc a.users.sequence;
    username = (decode_login body).0.username;
    password_hash = hash;
    created_at = now;
  }

  -- What a creation has established.
  record Created : Type 0 where
    pub hash : String
    pub fits : (decode_login body).1 ≡ true
    pub named : (decode_login body).0.username ≢ ""
    pub hashed : bcrypt.generate (decode_login body).0.password ≡ ok hash
    pub fresh : find_row Users.key_of (decode_login body).0.username a.users.rows ≡ none
    pub inserted :
        (create_user format bcrypt driver now none decode_error body a).0.users.rows
        ≡ a.users.rows ++ new_user hash ∷ []
    pub sessions :
        (create_user format bcrypt driver now none decode_error body a).0.sessions ≡ a.sessions

  create_user-Created :
      (create_user format bcrypt driver now none decode_error body a).1.status ≡ 201 → Created
  unfolding create_user respond_with_error Users.create
  create_user-Created h =
      let name = eq_iff (decode_login body).0.username "" in
      elim (Result-cases (bcrypt.generate (decode_login body).0.password)) [
        | inr (e, bad) ↦ ground (arith, name)
        | inl (hash, good) ↦ record {
          hash = hash;
          fits = ground (arith, name);
          named = ground (arith, name);
          hashed = good;
          fresh = ground (arith, name);
          inserted = ground (arith, name);
          sessions = ground (arith, name);
        }
      ]

  -- A user who was created can log in at once, with the username and the password of the request
  -- that created it, and the session that opens is the new user's; the database reports no
  -- fault, the session id is new, and a hash that bcrypt makes of a password matches it.
  pub create_user-login :
      (later : ℕ) (id : String)
      → MatchesOwn bcrypt
      → (create_user format bcrypt driver now none decode_error body a).1.status ≡ 201
      → id ≢ ""
      → find_row Sessions.key_of id a.sessions ≡ none
      → let a' = (create_user format bcrypt driver now none decode_error body a).0 in
        (login bcrypt driver later (ok id) no_faults a'.users a'.sessions body).1
        ≡ welcome (decode_login body).0.username (opened later id (suc a.users.sequence))
  create_user-login later id own h named fresh =
      let c = create_user-Created h in
      let found =
        find_row-insert Users.key_of (decode_login body).0.username a.users.rows (new_user c.hash)
          c.fresh in
      login_of_match bcrypt driver later id _ body (new_user c.hash) c.fits
        (rw c.inserted (ground (arith, found, eq_refl (decode_login body).0.username))) c.named
        (own _ _ c.hashed) named (rw c.sessions fresh)

-- A change of the rows with a condition shows at a key when it leaves the keys alone.
find_row-update_where :
    (p : User → Bool) (f : User → User)
    → ((u : User) → Users.key_of (f u) ≡ Users.key_of u)
    → (key : String) (us : List User) (u : User) → find_row Users.key_of key us ≡ some u
    → find_row Users.key_of key (update_where p f us) ≡ some (if p u then f u else u)
unfolding find_row
find_row-update_where p f keeps key [] u h = ground arith
find_row-update_where p f keeps key (w ∷ us) u h =
    ground (arith, find_row-update_where p f keeps key us u, keeps w)

module _ (bcrypt : Bcrypt) (decode_error : Error) (body : Body) (a : Accounts) (u : User)
    (stored : find_row Users.key_of u.username a.users.rows ≡ some u)
    (done : (update_password bcrypt (some u) none decode_error body a).1.status ≡ 200) where
  abbrev changed : Accounts
  changed = (update_password bcrypt (some u) none decode_error body a).0

  abbrev with_hash : String → User
  with_hash hash = record u { password_hash = hash }

  record Changed : Type 0 where
    pub hash : String
    pub hashed : bcrypt.generate (decode_change body).0.new_password ≡ ok hash
    pub row : find_row Users.key_of u.username changed.users.rows ≡ some (with_hash hash)
    pub sessions : changed.sessions ≡ a.sessions

  update_password-Changed : Changed
  unfolding update_password respond_with_error Users.update_password
  update_password-Changed =
      elim (Result-cases (bcrypt.generate (decode_change body).0.new_password)) [
        | inr (e, bad) ↦ ground arith
        | inl (hash, good) ↦
            let set =
              find_row-update_where (Users.has_id u.id) (λ w. record w { password_hash = hash })
                (λ w. refl) u.username a.users.rows u stored in
            record {
              hash = hash;
              hashed = good;
              row = ground (arith, set, eq_iff hash "");
              sessions = ground (arith, eq_iff hash "");
            }
      ]

  -- After a user's password was changed, a login with that username is answered with a new
  -- session when it carries the new password, and is refused when its password matches no hash
  -- of the new one. The user is the stored one, the database reports no fault, the session
  -- id is new, and a hash that bcrypt makes of a password matches it.
  pub update_password-login :
      (driver : Driver) (now : ℕ) (id : String) (request : Body)
      → MatchesOwn bcrypt
      → u.username ≢ ""
      → (decode_login request).1 ≡ true
      → (decode_login request).0.username ≡ u.username
      → id ≢ ""
      → find_row Sessions.key_of id a.sessions ≡ none
      → let answer =
          (login bcrypt driver now (ok id) no_faults changed.users changed.sessions request).1 in
        (((decode_login request).0.password ≡ (decode_change body).0.new_password)
          → answer ≡ welcome u.username (opened now id u.id))
        × (((h : String)
              → bcrypt.generate (decode_change body).0.new_password ≡ ok h
              → bcrypt.matches h (decode_login request).0.password ≡ false)
            → answer ≡ rejected 401)
  update_password-login driver now id request own nonempty fits name named fresh =
      let c = update_password-Changed in
      let known : find_row Users.key_of (decode_login request).0.username changed.users.rows
          ≡ some (with_hash c.hash) =
        rw name c.row in
      let filled : (decode_login request).0.username ≢ "" = rw name nonempty in
      (
        λ same.
            login_of_match bcrypt driver now id changed request (with_hash c.hash) fits known filled
              (rw same (own _ _ c.hashed)) named (rw c.sessions fresh),
        λ refused.
            login_of_mismatch bcrypt driver now id changed request (with_hash c.hash) fits known
              filled (refused c.hash c.hashed),
      )
