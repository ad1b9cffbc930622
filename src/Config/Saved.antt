-- ===== src/Config/Saved.antt =====
-- config.go: a configuration that was saved is read back.
use fidex_go_node.Common.{
  ℕ, ◌^◌, ◌<◌, String, true, Option, none, some, List, [], ◌∷◌, ◌≡◌, ◌≢◌, ◌∙◌, ap, arith, refl,
  eq_iff, pos,
}
use fidex_go_node.Errors.{Error, Result, ok}
use fidex_go_node.Json.{Json, Body, json, decode, same_key, integer, encode_texts}
use fidex_go_node.Strconv.{integer-decimal}
use fidex_go_node.Config.{
  int_text, Config, default_config, decode_config, decode_texts_onto, encode_saved, save,
  load_from_file,
}
use fidex_go_node.Config.Overrides.{default_flags, load_from_env, load_from_flags}
use fidex_go_node.Config.Load.{with_key, Start, load, from_file}

decode_texts_onto-encode :
    (old ts : List String) → decode_texts_onto old (encode_texts ts) ≡ (ts, true)
unfolding decode_texts_onto encode_texts
decode_texts_onto-encode old [] = refl
decode_texts_onto-encode [] (t ∷ ts) = rw (decode_texts_onto-encode [] ts) refl
decode_texts_onto-encode (o ∷ old) (t ∷ ts) = rw (decode_texts_onto-encode old ts) refl

-- A start with nothing but a config file.
abbrev pub restart : String → (String → Result Body) → Error → (ℕ → Option ℕ) → Start
restart path read parse_error random = record {
  flags = record default_flags { config_file = path };
  environment = λ name. "";
  read = read;
  parse_error = parse_error;
  random = random;
}

module _ (c : Config) (internal public : ℕ) (internal_small : internal < 2 ^ 63)
    (public_small : public < 2 ^ 63) (internal_port : c.internal_api_port ≡ pos internal)
    (public_port : c.public_api_port ≡ pos public) where
  internal_read : integer (int_text c.internal_api_port) ≡ some c.internal_api_port
  internal_read = rw internal_port (integer-decimal internal internal_small)

  public_read : integer (int_text c.public_api_port) ≡ some c.public_api_port
  public_read = rw public_port (integer-decimal public public_small)

  decode_config-encode_saved : decode_config (json (encode_saved c)) default_config ≡ (c, true)
  unfolding decode_config encode_saved decode same_key
  decode_config-encode_saved = ground (
    arith,
    internal_read,
    public_read,
    decode_texts_onto-encode ("127.0.0.1" ∷ "::1" ∷ []) c.allowed_ip_addresses,
  )

  file_read :
      (path : String) (read : String → Result Body) (parse_error : Error)
      → read path ≡ ok (json (encode_saved c))
      → load_from_file parse_error read default_config path ≡ ok c
  unfolding load_from_file
  file_read path read parse_error there = ground (arith, there, decode_config-encode_saved)

  nothing_set :
      (config_file : String) (random : ℕ → Option ℕ)
      → c.internal_api_key ≢ ""
      → with_key random (
          load_from_flags
            (record default_flags { config_file = config_file })
            (load_from_env (λ name. "") c))
        ≡ c
  unfolding load_from_env load_from_flags
  nothing_set config_file random keyed = ground (arith, eq_iff c.internal_api_key "")

  -- A configuration with an API key and ports that fit an int, when it was saved, is the one that
  -- the next start loads from that file, if the environment and the flags set nothing else.
  pub save-load :
      (path : String) (read : String → Result Body) (parse_error : Error) (random : ℕ → Option ℕ)
      (v : Json)
      → save none c ≡ ok v
      → read path ≡ ok (json v)
      → path ≢ ""
      → c.internal_api_key ≢ ""
      → load (restart path read parse_error random) ≡ ok c
  unfolding save load from_file
  save-load path read parse_error random v saved there named keyed =
      let document : v ≡ encode_saved c = ground arith in
      ground (
        arith,
        file_read path read parse_error (there ∙ ap (λ x. ok (json x)) document),
        nothing_set path random keyed,
        eq_iff path "",
      )
