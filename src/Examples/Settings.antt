-- ===== src/Examples/Settings.antt =====
-- The theorems on the settings routes at concrete inputs.
use fidex_go_node.Common.{
  ℕ, String, true, false, none, some, [], ◌∷◌, ◌≡◌, ◌≢◌, ◌↔◌, ◌==◌, refl, arith, eq_iff, eq_refl,
  sprint, decimal,
}
use fidex_go_node.Errors.{plain, ok, err}
use fidex_go_node.Json.{Body, json, object, field, end, text, decode, same_key}
use fidex_go_node.Domain.{User}
use fidex_go_node.Store.Table.{find_row, find_where}
use fidex_go_node.Store.Users
use fidex_go_node.Store.Users.{Users}
use fidex_go_node.Auth.{Bcrypt, require_auth_api, pass, login, decode_login, welcome}
use fidex_go_node.Auth.Laws.{no_faults}
use fidex_go_node.Api.Settings.Ids.{parse_int64-decimal}
use fidex_go_node.Api.Settings.Accounts.{
  Accounts, create_user, delete_user, remove, update_password, decode_change,
}
use fidex_go_node.Api.Settings.Accounts.Laws.{delete_user-require_auth}
use fidex_go_node.Api.Settings.Accounts.Passwords.{MatchesOwn, opened, create_user-login}
use fidex_go_node.Api.Settings.Routes.{put_password, Moment, Node, run}
use fidex_go_node.Api.Settings.Routes.Laws.{IsValid, run-IsValid, run_password_kept}
use fidex_go_node.Examples.{sqlite}

-- A hash that is the password behind a mark.
abbrev marked : Bcrypt
marked = record {
  matches = λ hash p. hash == sprint ("h:" ∷ p ∷ []);
  generate = λ p. ok (sprint ("h:" ∷ p ∷ []));
}

marked-MatchesOwn : MatchesOwn marked
marked-MatchesOwn p h e = ground (arith, e, eq_refl (sprint ("h:" ∷ p ∷ [])))

abbrev admin : User
admin = record { id = 1; username = "admin"; password_hash = "h:old"; created_at = 1 }

abbrev accounts : Accounts
accounts = record {
  users = record { rows = admin ∷ []; sequence = 1 };
  sessions = record { session_id = "s"; user_id = 1; expires_at = 50; created_at = 1 } ∷ [];
}

abbrev no_text : ℕ → String
no_text at = ""

deleted :
    (delete_user none (record { user = none; session = some "busy" }) (decimal 1) accounts).1.status
    ≡ 200
unfolding delete_user remove Users.delete
deleted = rw (parse_int64-decimal 1 (omega arith)) refl

delete_user_example :
    ((require_auth_api 9 no_faults
        (delete_user none
          (record { user = none; session = some "busy" })
          (decimal 1)
          accounts).0.users
        (delete_user none
          (record { user = none; session = some "busy" })
          (decimal 1)
          accounts).0.sessions
        (some "s")).1
      ≡ pass admin)
    ↔ (((require_auth_api 9 no_faults accounts.users accounts.sessions (some "s")).1 ≡ pass admin)
        × (admin.id ≢ 1))
delete_user_example =
    delete_user-require_auth none (some "busy") 1 9 accounts "s" admin (omega arith) (tt, tt)
      deleted

abbrev newcomer : Body
newcomer = json (object (field "username" (text "eve") (field "password" (text "pw") end)))

created : (create_user no_text marked sqlite 9 none (plain "") newcomer accounts).1.status ≡ 201
unfolding create_user decode_login decode same_key Users.create find_row
created = refl

create_user-login_example :
    (login marked sqlite 20
      (ok "n")
      no_faults
      (create_user no_text marked sqlite 9 none (plain "") newcomer accounts).0.users
      (create_user no_text marked sqlite 9 none (plain "") newcomer accounts).0.sessions
      newcomer).1
    ≡ welcome (decode_login newcomer).0.username (opened 20 "n" 2)
unfolding find_row
create_user-login_example =
    create_user-login no_text marked sqlite 9 (plain "") newcomer accounts 20 "n" marked-MatchesOwn
      created (λ h. ground (arith, h, eq_iff "n" "")) refl

abbrev change : Body
change =
    json (object (field "current_password" (text "old") (field "new_password" (text "new") end)))

abbrev with_new : Body
with_new = json (object (field "username" (text "admin") (field "password" (text "new") end)))

known_admin : find_row Users.key_of "admin" accounts.users.rows ≡ some admin
unfolding find_row
known_admin = refl

changed : (update_password marked (some admin) none (plain "") change accounts).1.status ≡ 200
unfolding update_password decode_change decode same_key Users.update_password
changed = refl

decoded : (decode_login with_new).1 ≡ true
unfolding decode_login decode same_key
decoded = refl

decoded_name : (decode_login with_new).0.username ≡ "admin"
unfolding decode_login decode same_key
decoded_name = refl

abbrev node : Node
node = record {
  config = none;
  files = [];
  accounts = accounts;
  partners = record { rows = []; sequence = 0 };
}

abbrev quiet : Moment
quiet = record {
  now = 9;
  stat = λ path. false;
  generated = err (plain "");
  private_fault = none;
  public_fault = none;
  fault = none;
  session_fault = none;
  decode_error = plain "";
}

run-IsValid_example :
    IsValid (run no_text marked sqlite ((put_password change, quiet) ∷ []) node).accounts.users
run-IsValid_example =
    run-IsValid no_text marked sqlite ((put_password change, quiet) ∷ []) node record {
      distinct = (tt, tt);
      numbered = (omega arith, tt);
      complete = (
        (λ h. ground (arith, h, eq_iff "admin" ""), λ h. ground (arith, h, eq_iff "h:old" "")),
        tt,
      );
    }

kept_by_run :
    find_where
      (Users.has_id 1)
      (run no_text marked sqlite ((put_password change, quiet) ∷ []) node).accounts.users.rows
    ≡ some admin
unfolding run update_password decode_change decode same_key
kept_by_run = refl

run_password_kept_example : find_where (Users.has_id 1) accounts.users.rows ≡ some admin
run_password_kept_example =
    run_password_kept no_text marked sqlite ((put_password change, quiet) ∷ []) node 1 admin
      (omega arith) kept_by_run
