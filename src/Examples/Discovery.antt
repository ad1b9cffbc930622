-- ===== src/Examples/Discovery.antt =====
-- The theorems on discovery at concrete inputs.
use fidex_go_node.Common.{◌≤◌, String, false, none, List, [], ◌∷◌, ◌≡◌, refl, some}
use fidex_go_node.Errors.{ok, IsErr}
use fidex_go_node.Json.{json, text}
use fidex_go_node.Store.Table.{find_row}
use fidex_go_node.Store.Partners
use fidex_go_node.Store.Partners.{Partners}
use fidex_go_node.Discovery.Tokens.{TokenStore, view}
use fidex_go_node.Discovery.Tokens.SingleUse.{
  Call, generate, validate, cleanup, accepted, issued, token_single_use,
}
use fidex_go_node.Discovery.Config.{
  NodeConfig, Reply, answered, generate_as5_config, encode_as5_config, As5Configuration,
  fetch_as5_config,
}
use fidex_go_node.Discovery.Service.{
  RegistrationRequest, World, fetch_partner_keys, initiate_partner_handshake, registration,
  encode_request,
}
use fidex_go_node.Discovery.Service.Handshake.{Peer, answer_of, handshake_foreign_token, received}
use fidex_go_node.Examples.{toy, sqlite}

abbrev calls : List Call
calls = generate 0 30 (ok "t") ∷ validate 5 "t" ∷ validate 6 "t" ∷ cleanup 9 ∷ []

token_single_use_example : accepted "t" calls [] ≤ issued "t" calls
token_single_use_example = token_single_use "t" calls

abbrev tokens : TokenStore
tokens = record { token = "t"; expires_at = 30; used = false } ∷ []

abbrev config : NodeConfig
config = record {
  node_id = "node-a";
  organization_name = "A";
  base_url = "https://a";
  public_domain = "";
  supported_document_types = "ORDER" ∷ [];
}

abbrev published_at : String → Reply
published_at url = answered 200 (json (encode_as5_config (generate_as5_config config)))

abbrev peer_world : World
peer_world = record {
  get = λ url. answered 200 (json (text "keys"));
  post = λ url body. answered 200 (json body);
  print = λ j. some "keys";
  now = 5;
}

abbrev registration_b : RegistrationRequest
registration_b = record {
  node_id = "node-b";
  organization_name = "B";
  jwks_uri = "https://b/jwks";
  message_endpoint = "https://b/inbound";
  mdn_receipt_endpoint = "https://b/receipt";
  algorithms_supported = [];
  supported_encryption_algorithms = [];
  webhook_registration_endpoint = "";
  security_token = "t";
}

abbrev no_partners : Partners
no_partners = record { rows = []; sequence = 0 }

abbrev peer : Peer
peer = record {
  jose = toy;
  driver = sqlite;
  world = peer_world;
  lookup = none;
  write = none;
  tokens = tokens;
  partners = no_partners;
}

-- A world whose POST requests are answered by the peer.
abbrev world : World
world = record {
  get = λ url. published_at url;
  post = λ url body. answer_of peer body;
  print = λ j. some "keys";
  now = 5;
}

foreign : view peer.tokens "mine" ≡ none
unfolding find_row
foreign = refl

foreign_token_example :
    IsErr
      (initiate_partner_handshake toy sqlite world config
        (ok "mine")
        none
        []
        no_partners
        "https://b").2
    × ((initiate_partner_handshake toy sqlite world config
          (ok "mine")
          none
          []
          no_partners
          "https://b").1
        ≡ no_partners)
    × ((received peer (encode_request (registration toy sqlite world config "mine"))).1
        ≡ no_partners)
    × ((remote : As5Configuration) (jwks : String)
        → fetch_as5_config world.get "https://b" ≡ ok remote
        → fetch_partner_keys toy sqlite world remote.endpoints.jwks ≡ ok jwks
        → view
            (initiate_partner_handshake toy sqlite world config
              (ok "mine")
              none
              []
              no_partners
              "https://b").0
            "mine"
          ≡ some (record { token = "mine"; expires_at = 1800000000005; used = false }))
foreign_token_example =
    handshake_foreign_token toy sqlite world config peer "mine" none [] no_partners "https://b"
      (λ register request. refl) foreign

abbrev spent : TokenStore
spent = []
