-- ===== src/Examples/Crypto.antt =====
-- The theorems on the engine at concrete inputs.
use fidex_go_node.Common.{[], ◌∷◌, ◌≡◌, ◌⊎◌, refl}
use fidex_go_node.Errors.{ok}
use fidex_go_node.Json.{json}
use fidex_go_node.Crypto.{
  alg_rsa_oaep, alg_rsa_oaep_256, jose_key_algorithm, sign_and_encrypt_with_alg, decrypt_and_verify,
}
use fidex_go_node.Crypto.Negotiate.{negotiate, local_supported, IsShared, negotiate_sound}
use fidex_go_node.Crypto.RoundTrip.{sign_and_encrypt-decrypt_and_verify}
use fidex_go_node.Examples.{toy, toy-IsReliable, engine, order}

sealed_order : sign_and_encrypt_with_alg toy engine 7 (json order) tt "RSA-OAEP-256" ≡ ok "order"
unfolding sign_and_encrypt_with_alg jose_key_algorithm
sealed_order = refl

round_trip_example : decrypt_and_verify toy engine "order" tt ≡ ok (json order)
round_trip_example =
    sign_and_encrypt-decrypt_and_verify toy toy-IsReliable engine engine 7 (json order)
      "RSA-OAEP-256" "order" sealed_order

plain_only : negotiate local_supported ("RSA-OAEP" ∷ []) ≡ ok "RSA-OAEP"
unfolding negotiate
plain_only = refl

negotiate_sound_example :
    IsShared local_supported ("RSA-OAEP" ∷ []) "RSA-OAEP"
    × ((alg_rsa_oaep ≡ alg_rsa_oaep_256)
        ⊎ ¬ (IsShared local_supported ("RSA-OAEP" ∷ []) "RSA-OAEP-256"))
negotiate_sound_example = negotiate_sound local_supported ("RSA-OAEP" ∷ []) "RSA-OAEP" plain_only
