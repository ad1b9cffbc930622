-- ===== src/Config/Load.antt =====
-- internal/config/config.go: Load, and the API key that it makes when no source gives one. The numbers of
-- crypto/rand are an argument.
use Prim.Native.String
use Prim.Native.Nat.{◌%◌}
use fidex_go_node.Common.{ℕ, zero, suc, String, Option, none, some, is_empty, if◌then◌else◌}
use fidex_go_node.Errors.{Error, Result, ok, err, context}
use fidex_go_node.Json.{Body}
use fidex_go_node.Config.{Config, default_config, load_from_file}
use fidex_go_node.Config.Overrides.{Flags, Environment, load_from_env, load_from_flags}

abbrev pub charset : String
charset = "abcdefghijklmnopqrstuvwxyzABCDEFGHIJKLMNOPQRSTUVWXYZ0123456789"

-- The character at an index of a text, as a text; the indices here are below 62.
unfoldable pub char_at : ℕ → String → String
char_at n String.[] = ""
char_at zero (String.◌∷◌ c s) = String.◌∷◌ c String.[]
char_at (suc n) (String.◌∷◌ c s) = char_at n s

abbrev index_of : ℕ → Option ℕ → ℕ
index_of i none = i % 62
index_of i (some r) = r

-- The loop over `key`, of which `left` bytes are still to be set; `random i` is what rand.Int gives at
-- the index i, or its error.
unfoldable pub api_key_from : (ℕ → Option ℕ) → ℕ → ℕ → String
unfolding char_at
api_key_from random zero i = ""
api_key_from random (suc left) i =
    String.◌++◌ (char_at (index_of i (random i)) charset) (api_key_from random left (suc i))

unfoldable pub generate_api_key : (ℕ → Option ℕ) → String
unfolding api_key_from
generate_api_key random = api_key_from random 32 0

abbrev pub with_key : (ℕ → Option ℕ) → Config → Config
with_key random c =
    if is_empty c.internal_api_key
    then record c { internal_api_key = generate_api_key random }
    else c

-- What one start of the program finds.
pub record Start : Type 0 where
  pub flags : Flags
  pub environment : Environment
  pub read : String → Result Body
  pub parse_error : Error
  pub random : ℕ → Option ℕ

module _ (start : Start) where
  unfoldable pub from_file : Result Config
  from_file =
      if is_empty start.flags.config_file
      then ok default_config
      else load_from_file start.parse_error start.read default_config start.flags.config_file

  -- Load
  unfoldable pub load : Result Config
  unfolding from_file
  load = elim from_file [
    | err e ↦ err (context "failed to load config file" e)
    | ok c ↦
        ok (with_key start.random (load_from_flags start.flags (load_from_env start.environment c)))
  ]
