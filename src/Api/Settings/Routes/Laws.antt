-- ===== src/Api/Settings/Routes/Laws.antt =====
-- settings_handlers.go: what a run of settings requests, in any order, leaves of the stored users.
use fidex_go_node.Store.Sessions.{Sessions}
use fidex_go_node.Common.{
  ℕ, suc, ◌≤◌, String, none, some, List, [], ◌∷◌, ◌++◌, ◌≡◌, ◌≢◌, inl, inr, arith, refl, eq_iff,
  All, All-append, All-select, All-mono, select, not, ℤ, pos, negsuc,
}
use fidex_go_node.Errors.{Error, Result-cases}
use fidex_go_node.Json.{Body}
use fidex_go_node.Domain.{User}
use fidex_go_node.Store.{Fault, Driver}
use fidex_go_node.Store.Table.{find_row, find_where}
use fidex_go_node.Store.Table.Laws.{
  AreDistinct, AreDistinct-append, find_row-IsFresh, select-AreDistinct,
}
use fidex_go_node.Store.Users
use fidex_go_node.Store.Users.{Users}
use fidex_go_node.Auth.{Bcrypt, decode_login}
use fidex_go_node.Api.Settings.Accounts.{
  Accounts, UserFaults, create_user, delete_user, remove, update_password,
}
use fidex_go_node.Api.Settings.Ids.{parse_int64}
use fidex_go_node.Api.Settings.Accounts.Laws.{find_where-select}
use fidex_go_node.Api.Settings.Routes.{
  Request, get_config_route, post_rotate_keys, get_users, get_partners, post_users, put_password,
  delete_users_id, delete_partners_id, put_partners_id, Moment, Node, serve, run,
}

-- The table of users is well-formed: no username stands in two rows, no id is above the sequence,
-- and every row has a username and a hash.
pub record IsValid (t : Users) : Type 0 where
  pub distinct : AreDistinct Users.key_of t.rows
  pub numbered : All (λ u. u.id ≤ t.sequence) t.rows
  pub complete : All (λ u. (u.username ≢ "") × (u.password_hash ≢ "")) t.rows

-- The second table comes of the first by inserting rows with new ids and deleting rows.
pub record Keeps (t t' : Users) : Type 0 where
  pub grows : t.sequence ≤ t'.sequence
  pub kept :
      (id : ℕ) (u : User)
      → id ≤ t.sequence
      → find_where (Users.has_id id) t'.rows ≡ some u
      → find_where (Users.has_id id) t.rows ≡ some u
  pub valid : IsValid t → IsValid t'

Keeps-refl : (t : Users) → Keeps t t
Keeps-refl t = record { grows = omega arith; kept = λ id u l h. h; valid = λ v. v }

Keeps-trans : (t t' t'' : Users) → Keeps t t' → Keeps t' t'' → Keeps t t''
Keeps-trans t t' t'' p q = record {
  grows = omega (arith, p.grows, q.grows);
  kept = λ id u l h. p.kept id u l (q.kept id u (omega (arith, p.grows)) h);
  valid = λ v. q.valid (p.valid v);
}

find_where-append :
    (id : ℕ) (us : List User) (w u : User)
    → w.id ≢ id
    → find_where (Users.has_id id) (us ++ w ∷ []) ≡ some u
    → find_where (Users.has_id id) us ≡ some u
find_where-append id [] w u n h = ground arith
find_where-append id (x ∷ us) w u n h = ground (arith, find_where-append id us w u n)

insert-Keeps :
    (t : Users) (u : User)
    → u.id ≡ suc t.sequence
    → u.username ≢ ""
    → u.password_hash ≢ ""
    → find_row Users.key_of u.username t.rows ≡ none
    → Keeps t (record { rows = t.rows ++ u ∷ []; sequence = suc t.sequence })
insert-Keeps t u numbered named hashed fresh = record {
  grows = omega arith;
  kept = λ id w l h. find_where-append id t.rows u w (λ e. omega (arith, e, numbered, l)) h;
  valid = λ v. record {
    distinct =
        AreDistinct-append Users.key_of t.rows u v.distinct
          (find_row-IsFresh Users.key_of _ t.rows fresh);
    numbered =
        All-append (λ w. w.id ≤ suc t.sequence) t.rows (u ∷ [])
          (All-mono (λ w h. omega arith) t.rows v.numbered) (omega (arith, numbered), tt);
    complete = All-append _ t.rows (u ∷ []) v.complete ((named, hashed), tt);
  };
}

select-Keeps :
    (t : Users) (id : ℕ)
    → Keeps t (record t { rows = select (λ u. not (Users.has_id id u)) t.rows })
select-Keeps t id = record {
  grows = omega arith;
  kept = λ other u l h. ground (arith, find_where-select id other t.rows);
  valid = λ v. record {
    distinct = select-AreDistinct Users.key_of _ t.rows v.distinct;
    numbered = All-select _ _ t.rows v.numbered;
    complete = All-select _ _ t.rows v.complete;
  };
}

create-Keeps :
    (driver : Driver) (now : ℕ) (fault : Fault) (t : Users) (name hash : String)
    → Keeps t (Users.create driver now fault t name hash).0
unfolding Users.create
create-Keeps driver now fault t name hash =
    let u : User = record {
      id = suc t.sequence;
      username = name;
      password_hash = hash;
      created_at = now;
    } in
    ground (arith, eq_iff name "", eq_iff hash "", Keeps-refl t, insert-Keeps t u refl)

delete-Keeps :
    (fault : Fault) (t : Users) (sessions : Sessions) (id : ℕ)
    → Keeps t (Users.delete fault t sessions id).0
unfolding Users.delete
delete-Keeps none t sessions id = select-Keeps t id
delete-Keeps (some e) t sessions id = Keeps-refl t

create_user-Keeps :
    (format : ℕ → String) (bcrypt : Bcrypt) (driver : Driver) (now : ℕ) (fault : Fault) (e : Error)
    (body : Body) (a : Accounts)
    → Keeps a.users (create_user format bcrypt driver now fault e body a).0.users
unfolding create_user
create_user-Keeps format bcrypt driver now fault e body a =
    let name = (decode_login body).0.username in
    elim (Result-cases (bcrypt.generate (decode_login body).0.password)) [
      | inr (x, bad) ↦ ground (arith, Keeps-refl a.users)
      | inl (hash, good) ↦ elim (Result-cases (Users.create driver now fault a.users name hash).1) [
        | inr (x, bad) ↦
            ground (arith, Keeps-refl a.users, create-Keeps driver now fault a.users name hash)
        | inl (u, made) ↦
            ground (arith, Keeps-refl a.users, create-Keeps driver now fault a.users name hash)
      ]
    ]

remove-Keeps :
    (fault : Fault) (t : Users) (sessions : Sessions) (id : ℤ)
    → Keeps t (remove fault t sessions id).0
unfolding remove
remove-Keeps fault t sessions (pos n) = delete-Keeps fault t sessions n
remove-Keeps (some e) t sessions (negsuc n) = Keeps-refl t
remove-Keeps none t sessions (negsuc n) = Keeps-refl t

delete_user-Keeps :
    (faults : UserFaults) (param : String) (a : Accounts)
    → Keeps a.users (delete_user none faults param a).0.users
unfolding delete_user
delete_user-Keeps faults param a =
    ground
      (arith, Keeps-refl a.users, remove-Keeps faults.user a.users a.sessions (parse_int64 param))

update_password-Keeps :
    (bcrypt : Bcrypt) (fault : Fault) (e : Error) (body : Body) (a : Accounts)
    → Keeps a.users (update_password bcrypt none fault e body a).0.users
unfolding update_password
update_password-Keeps bcrypt fault e body a = ground (arith, Keeps-refl a.users)

module _ (format : ℕ → String) (bcrypt : Bcrypt) (driver : Driver) where
  serve-Keeps :
      (r : Request) (m : Moment) (n : Node)
      → Keeps n.accounts.users (serve format bcrypt driver r m n).0.accounts.users
  unfolding serve
  serve-Keeps get_config_route m n = Keeps-refl _
  serve-Keeps post_rotate_keys m n = Keeps-refl _
  serve-Keeps get_users m n = Keeps-refl _
  serve-Keeps get_partners m n = Keeps-refl _
  serve-Keeps (post_users body) m n =
      create_user-Keeps format bcrypt driver m.now m.fault m.decode_error body n.accounts
  serve-Keeps (put_password body) m n =
      update_password-Keeps bcrypt m.fault m.decode_error body n.accounts
  serve-Keeps (delete_users_id id) m n =
      delete_user-Keeps (record { user = m.fault; session = m.session_fault }) id n.accounts
  serve-Keeps (delete_partners_id id) m n = Keeps-refl _
  serve-Keeps (put_partners_id id body) m n = Keeps-refl _

  run-Keeps :
      (rs : List (Request × Moment)) (n : Node)
      → Keeps n.accounts.users (run format bcrypt driver rs n).accounts.users
  unfolding run
  run-Keeps [] n = Keeps-refl _
  run-Keeps ((r, m) ∷ rest) n =
      Keeps-trans _ _ _ (serve-Keeps r m n) (run-Keeps rest (serve format bcrypt driver r m n).0)

  -- Any sequence of settings requests, with any faults of the database, keeps the table of users
  -- well-formed: no username stands in two rows, no row id is above the sequence, and every row has
  -- a username and a password hash.
  pub run-IsValid :
      (rs : List (Request × Moment)) (n : Node)
      → IsValid n.accounts.users
      → IsValid (run format bcrypt driver rs n).accounts.users
  run-IsValid rs n v = (run-Keeps rs n).valid v

  -- Whatever settings requests are served, PUT /password among them, a user who was there before
  -- and is there afterwards has the row, and so the password hash, of before: on the routes as
  -- they are set up no password can be changed.
  pub run_password_kept :
      (rs : List (Request × Moment)) (n : Node) (id : ℕ) (u : User)
      → id ≤ n.accounts.users.sequence
      → find_where (Users.has_id id) (run format bcrypt driver rs n).accounts.users.rows ≡ some u
      → find_where (Users.has_id id) n.accounts.users.rows ≡ some u
  run_password_kept rs n id u l h = (run-Keeps rs n).kept id u l h
