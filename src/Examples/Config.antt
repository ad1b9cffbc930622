-- ===== src/Examples/Config.antt =====
-- The theorems on the configuration at concrete inputs.
use fidex_go_node.Common.{String, none, ◌≡◌, refl, arith, eq_iff, pos}
use fidex_go_node.Errors.{plain, ok}
use fidex_go_node.Json.{Body, json}
use fidex_go_node.Config.{Config, default_config, encode_saved, save}
use fidex_go_node.Config.Load.{load}
use fidex_go_node.Config.Saved.{restart, save-load}

abbrev keyed : Config
keyed = record default_config { internal_api_key = "k"; public_api_port = pos 9443 }

saved : save none keyed ≡ ok (encode_saved keyed)
unfolding save
saved = refl

abbrev disk : String → Body
disk path = json (encode_saved keyed)

save-load_example :
    load (restart "c.json" (λ path. ok (disk path)) (plain "bad") (λ i. none)) ≡ ok keyed
save-load_example =
    save-load keyed 8080 9443 (omega arith) (omega arith) refl refl "c.json"
      (λ path. ok (disk path)) (plain "bad") (λ i. none) (encode_saved keyed) saved refl
      (λ h. ground (arith, h, eq_iff "c.json" "")) (λ h. ground (arith, h, eq_iff "k" ""))
