-- ===== src/Examples/Auth.antt =====
-- The theorems on sessions at concrete inputs.
use fidex_go_node.Common.{◌+◌, ◌≤◌, some, [], ◌∷◌, ◌≡◌, ◌↔◌, ◌==◌, refl}
use fidex_go_node.Errors.{ok}
use fidex_go_node.Json.{Body, json, object, field, end, text, decode, same_key}
use fidex_go_node.Domain.{User, Session}
use fidex_go_node.Store.Table.{find_row, find_where}
use fidex_go_node.Store.Sessions
use fidex_go_node.Store.Sessions.{Sessions}
use fidex_go_node.Store.Users
use fidex_go_node.Store.Users.{Users}
use fidex_go_node.Auth.{
  Bcrypt, session_duration, require_auth, require_auth_api, pass, login, decode_login,
  create_session, welcome,
}
use fidex_go_node.Auth.Laws.{no_faults, login-require_auth}
use fidex_go_node.Examples.{sqlite}

abbrev session : Session
session = record { session_id = "s"; user_id = 1; expires_at = 50; created_at = 1 }

abbrev sessions : Sessions
sessions = session ∷ []

abbrev admin : User
admin = record { id = 1; username = "admin"; password_hash = "h:secret"; created_at = 1 }

abbrev users : Users
users = record { rows = admin ∷ []; sequence = 1 }

abbrev plain_hash : Bcrypt
plain_hash = record { matches = λ hash p. hash == "h:secret"; generate = λ p. ok "h:secret" }

abbrev credentials : Body
credentials = json (object (field "username" (text "admin") (field "password" (text "secret") end)))

abbrev opened : Session
opened = record {
  session_id = "n";
  user_id = 1;
  expires_at = 60 + session_duration;
  created_at = 60;
}

logged_in :
    (login plain_hash sqlite 60 (ok "n") no_faults users sessions credentials).1
    ≡ welcome "admin" opened
unfolding login decode_login decode same_key create_session find_row Users.get_by_username
    Sessions.create
logged_in = refl

known_admin : find_row Users.key_of (decode_login credentials).0.username users.rows ≡ some admin
unfolding find_row decode_login decode same_key
known_admin = refl

known_id : find_where (Users.has_id 1) users.rows ≡ some admin
known_id = refl

login-require_auth_example :
    let t' = (login plain_hash sqlite 60 (ok "n") no_faults users sessions credentials).0 in
    (((require_auth_api 70 no_faults users t' (some "n")).1 ≡ pass admin)
      ↔ (70 ≤ 60 + session_duration))
    × (((require_auth 70 no_faults users t' (some "n")).1 ≡ pass admin)
        ↔ (70 ≤ 60 + session_duration))
login-require_auth_example =
    login-require_auth plain_hash sqlite 60 "n" users sessions credentials "admin" opened admin 70
      logged_in known_admin known_id
