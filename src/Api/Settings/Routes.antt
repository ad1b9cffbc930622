-- ===== src/Api/Settings/Routes.antt =====
-- settings_handlers.go, SetupSettingsRouter: the routes of /api/settings. The line that would put
-- auth.RequireAuthAPI before them is a comment, so no handler finds a user in its context.
pub mod Laws
use fidex_go_node.Common.{ℕ, String, Bool, Option, none, List, [], ◌∷◌}
use fidex_go_node.Errors.{Error, Result}
use fidex_go_node.Json.{Body}
use fidex_go_node.Config.{Config}
use fidex_go_node.Store.{Fault, Driver}
use fidex_go_node.Store.Partners.{Partners}
use fidex_go_node.Auth.{Bcrypt}
use fidex_go_node.Api.{Reply}
use fidex_go_node.Api.Settings.{
  Files, KeyPair, get_config, rotate_keys, list_partners_detailed, update_partner, delete_partner,
}
use fidex_go_node.Api.Settings.Accounts.{
  Accounts, list_users, create_user, delete_user, update_password,
}

-- A method and a path, with the `{id}` of the path and the body of the request.
pub data Request : Type 0 where
  get_config_route post_rotate_keys get_users get_partners : Request
  post_users put_password : Body → Request
  delete_users_id delete_partners_id : String → Request
  put_partners_id : String → Body → Request

-- What the clock, the files, the database and the decoder of JSON do during one request.
pub record Moment : Type 0 where
  pub now : ℕ
  pub stat : String → Bool
  pub generated : Result KeyPair
  pub private_fault : Fault
  pub public_fault : Fault
  pub fault : Fault
  pub session_fault : Fault
  pub decode_error : Error

-- What the settings routes read and write.
pub record Node : Type 0 where
  pub config : Option Config
  pub files : Files
  pub accounts : Accounts
  pub partners : Partners

abbrev with_accounts : Node → Accounts × Reply → Node × Reply
with_accounts n (a, r) = (record n { accounts = a }, r)

abbrev with_partners : Node → Partners × Reply → Node × Reply
with_partners n (t, r) = (record n { partners = t }, r)

abbrev with_files : Node → Files × Reply → Node × Reply
with_files n (files, r) = (record n { files = files }, r)

module _ (format : ℕ → String) (bcrypt : Bcrypt) (driver : Driver) where
  unfoldable pub serve : Request → Moment → Node → Node × Reply
  serve get_config_route m n = (n, get_config n.config m.stat)
  serve post_rotate_keys m n =
      with_files n (rotate_keys n.config m.generated m.private_fault m.public_fault n.files)
  serve get_users m n = (n, list_users format m.fault n.accounts.users)
  serve (post_users body) m n =
      with_accounts n
        (create_user format bcrypt driver m.now m.fault m.decode_error body n.accounts)
  serve (delete_users_id id) m n =
      with_accounts n
        (delete_user none (record { user = m.fault; session = m.session_fault }) id n.accounts)
  serve (put_password body) m n =
      with_accounts n (update_password bcrypt none m.fault m.decode_error body n.accounts)
  serve get_partners m n = (n, list_partners_detailed format m.fault n.partners)
  serve (put_partners_id id body) m n =
      with_partners n (update_partner m.now m.fault m.decode_error id body n.partners)
  serve (delete_partners_id id) m n = with_partners n (delete_partner m.fault id n.partners)

  -- The requests of a run, in the order in which they are served.
  unfoldable pub run : List (Request × Moment) → Node → Node
  unfolding serve
  run [] n = n
  run ((r, m) ∷ rest) n = run rest (serve r m n).0
