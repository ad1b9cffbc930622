-- ===== src/Api/Settings/Accounts/Laws.antt =====
-- settings_handlers.go against the middlewares and the login: what a change of the users does to
-- who is let in.
use fidex_go_node.Common.{
  ℕ, ◌≤◌, ◌<◌, ◌^◌, String, Bool, none, some, List, [], ◌∷◌, ◌≡◌, ◌∙◌, ◌≢◌, ◌↔◌, inl, inr, arith,
  eq_iff, same_number, if◌then◌else◌, Option-cases, decimal, select, not, select-select,
}
use fidex_go_node.Domain.{User, Session}
use fidex_go_node.Store.{Fault}
use fidex_go_node.Store.Table.{find_row, find_where}
use fidex_go_node.Store.Table.Laws.{AreDistinct, find_row-select}
use fidex_go_node.Store.Sessions
use fidex_go_node.Store.Sessions.{Sessions}
use fidex_go_node.Store.Users
use fidex_go_node.Store.Users.{Users}
use fidex_go_node.Auth.{get_session, pass, require_auth_api}
use fidex_go_node.Auth.Laws.{no_faults}
use fidex_go_node.Api.{respond_with_error}
use fidex_go_node.Api.Settings.Ids.{parse_int64-decimal}
use fidex_go_node.Api.Settings.Accounts.{Accounts, CurrentUser, delete_user, remove}

module _ (id : ℕ) where
  pub find_where-select :
      (other : ℕ) (us : List User)
      → find_where (Users.has_id other) (select (λ u. not (Users.has_id id u)) us)
        ≡ (if same_number other id then none else find_where (Users.has_id other) us)
  find_where-select other [] = ground arith
  find_where-select other (u ∷ us) = ground (arith, find_where-select other us)

  find_where_id : (us : List User) (u : User) → find_where (Users.has_id id) us ≡ some u → u.id ≡ id
  find_where_id [] u h = ground arith
  find_where_id (w ∷ us) u h = ground (arith, find_where_id us u)

-- Who the API's middleware lets through: the user of a live session.
pub record Enters (now : ℕ) (users : Users) (t : Sessions) (cookie : String) (u : User)
    : Type 0 where
  pub named : cookie ≢ ""
  pub session : Session
  pub known : find_row Sessions.key_of cookie t ≡ some session
  pub live : now ≤ session.expires_at
  pub owner : find_where (Users.has_id session.user_id) users.rows ≡ some u

module _ (now : ℕ) (users : Users) (t : Sessions) (cookie : String) (u : User) where
  pass-Enters :
      (require_auth_api now no_faults users t (some cookie)).1 ≡ pass u
      → Enters now users t cookie u
  unfolding require_auth_api get_session Sessions.get_by_id Users.get_by_id
  pass-Enters h = elim (Option-cases (find_row Sessions.key_of cookie t)) [
    | inl e ↦ ground (arith, eq_iff cookie "")
    | inr (s, e) ↦ record {
      named = ground (arith, eq_iff cookie "");
      session = s;
      known = e;
      live = ground (arith, eq_iff cookie "");
      owner = ground (arith, eq_iff cookie "");
    }
  ]

  Enters-pass :
      Enters now users t cookie u
      → (require_auth_api now no_faults users t (some cookie)).1 ≡ pass u
  unfolding require_auth_api get_session Sessions.get_by_id Users.get_by_id
  Enters-pass e =
      let n = e.named in
      let k = e.known in let l = e.live in let o = e.owner in ground (arith, eq_iff cookie "")

module _ (current : CurrentUser) (fault : Fault) (id : ℕ) (a : Accounts) (small : id < 2 ^ 63)
    (done : (delete_user current (record { user = none; session = fault }) (decimal id) a).1.status
      ≡ 200) where
  abbrev after : Accounts
  after = (delete_user current (record { user = none; session = fault }) (decimal id) a).0

  users_left : after.users.rows ≡ select (λ u. not (Users.has_id id u)) a.users.rows
  unfolding delete_user remove respond_with_error Users.delete Sessions.delete_by_user_id
  users_left = ground (arith, parse_int64-decimal id small)

  sessions_left : after.sessions ≡ select (λ s. not (same_number s.user_id id)) a.sessions
  unfolding delete_user remove respond_with_error Users.delete Sessions.delete_by_user_id
  sessions_left = ground (
    arith,
    parse_int64-decimal id small,
    Option-cases fault,
    select-select (λ s. not (same_number s.user_id id)) a.sessions,
  )

  module _ (now : ℕ) (cookie : String) (u : User)
      (distinct : AreDistinct Sessions.key_of a.sessions) where
    session_left :
        (s : Session)
        → find_row Sessions.key_of cookie after.sessions ≡ some s
        → find_row Sessions.key_of cookie a.sessions ≡ some s
    session_left s h =
        let keep : Session → Bool = λ x. not (same_number x.user_id id) in
        let found = find_row-select Sessions.key_of keep cookie a.sessions distinct in
        ground
          (arith, sessions_left, found, Option-cases (find_row Sessions.key_of cookie a.sessions))

    session_kept :
        (s : Session)
        → s.user_id ≢ id
        → find_row Sessions.key_of cookie a.sessions ≡ some s
        → find_row Sessions.key_of cookie after.sessions ≡ some s
    session_kept s other h =
        let keep : Session → Bool = λ x. not (same_number x.user_id id) in
        let found = find_row-select Sessions.key_of keep cookie a.sessions distinct in
        ground (arith, sessions_left, found)

    Enters-left :
        Enters now after.users after.sessions cookie u
        → Enters now a.users a.sessions cookie u × (u.id ≢ id)
    Enters-left e =
        let left = find_where-select id e.session.user_id a.users.rows in
        let owner = e.owner in
        let own : find_where (Users.has_id e.session.user_id) a.users.rows ≡ some u =
          ground (arith, users_left, left) in
        (
          record {
            named = e.named;
            session = e.session;
            known = session_left e.session e.known;
            live = e.live;
            owner = own;
          },
          λ same.
              ground
                (arith, users_left, left, find_where_id e.session.user_id a.users.rows u own, same),
        )

    Enters-kept :
        Enters now a.users a.sessions cookie u
        → u.id ≢ id
        → Enters now after.users after.sessions cookie u
    Enters-kept e other =
        let owned = find_where_id e.session.user_id a.users.rows u e.owner in
        let left = find_where-select id e.session.user_id a.users.rows in
        let owner = e.owner in
        record {
          named = e.named;
          session = e.session;
          known = session_kept e.session (λ h. other (owned ∙ h)) e.known;
          live = e.live;
          owner = ground (arith, users_left, left);
        }

-- After a user was deleted with the id that the listing prints, whatever the database reported of
-- the deletion of the sessions, a cookie lets a user through the API's middleware exactly when it
-- did before and the user is not the deleted one; so no session of the deleted user is of use.
-- The session ids are distinct and the database reports no other fault.
pub delete_user-require_auth :
    (current : CurrentUser) (fault : Fault) (id now : ℕ) (a : Accounts) (cookie : String) (u : User)
    → id < 2 ^ 63
    → AreDistinct Sessions.key_of a.sessions
    → let (a', r) = delete_user current (record { user = none; session = fault }) (decimal id) a in
      r.status ≡ 200
      → ((require_auth_api now no_faults a'.users a'.sessions (some cookie)).1 ≡ pass u) ↔ (
          ((require_auth_api now no_faults a.users a.sessions (some cookie)).1 ≡ pass u)
          × (u.id ≢ id))
delete_user-require_auth current fault id now a cookie u small distinct done = (
  λ h.
      let (e, other) =
        Enters-left current fault id a small done now cookie u distinct
          (pass-Enters now _ _ cookie u h) in
      (Enters-pass now a.users a.sessions cookie u e, other),
  λ (h, other). Enters-pass now _ _ cookie u (
      Enters-kept current fault id a small done now cookie u distinct
        (pass-Enters now a.users a.sessions cookie u h) other),
)
