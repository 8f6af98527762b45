-- ===== src/Delivery/Config.antt =====
-- packages/delivery/src/mm_delivery/config.py: the settings that the gates and the send read, and
-- the environment names of the chats. Percentages and thresholds are in hundredths, a time of day
-- is in seconds, and a time zone is the time of day it gives an instant.
pub mod Laws
use Prim.Native.Char.{code}
use Prim.Native.String.{◌++◌ as append}
use market_memory.Prelude.{
  ℕ, Bool, true, false, ◌&&◌, ◌||◌, not, Option, none, some, List, [], ◌∷◌, String, str_eq,
  if◌then◌else◌, strip, upper, truthy, ◌==◌,
}
use market_memory.Prelude.Dict.{Dict, lookup}

pub record DeskRoute : Type 0 where
  pub enabled : Bool
  pub chat_id_env : String
  pub thread_id : Option ℕ

pub record QuietHours : Type 0 where
  pub enabled : Bool
  pub timezone : ℕ → ℕ
  pub start : ℕ
  pub end : ℕ

pub record ThresholdSpec : Type 0 where
  pub name : String
  pub enabled : Bool
  pub params : Dict ℕ

pub record ThresholdSettings : Type 0 where
  pub require_threshold_config : Bool
  pub specs : List ThresholdSpec

find_spec : String → List ThresholdSpec → Option ThresholdSpec
find_spec name [] = none
find_spec name (row ∷ rows) = if str_eq row.name name then some row else find_spec name rows

-- `ThresholdSettings.spec`
unfoldable pub spec : String → ThresholdSettings → Option ThresholdSpec
unfolding find_spec
spec name settings = find_spec name settings.specs

abbrev pub has_params : Dict ℕ → Bool
has_params [] = false
has_params (_ ∷ _) = true

any_numeric : List ThresholdSpec → Bool
any_numeric [] = false
any_numeric (row ∷ rows) = row.enabled && has_params row.params || any_numeric rows

-- `ThresholdSettings.has_numeric` without a name: `load_telegram_settings` keeps numbers only.
unfoldable pub has_numeric : ThresholdSettings → Bool
unfolding any_numeric
has_numeric settings = any_numeric settings.specs

pub record TelegramSettings : Type 0 where
  pub max_message_chars : ℕ
  pub max_requests_per_minute : ℕ
  pub quiet_hours : QuietHours
  pub dedupe_ttl_seconds : ℕ
  pub thresholds : ThresholdSettings
  pub desks : Dict DeskRoute

abbrev pub route : String → TelegramSettings → Option DeskRoute
route slug settings = lookup slug settings.desks

abbrev pub bot_token_env : String
bot_token_env = "TELEGRAM_BOT_TOKEN"

abbrev pub group_env : String
group_env = "TELEGRAM_CHAT_ID"

abbrev pub principal_dm_env : String
principal_dm_env = "TELEGRAM_CHAT_ID_PRINCIPAL_DM"

-- `(env.get(name) or "").strip()`
unfoldable pub env_value : String → Dict String → String
env_value name env = elim (lookup name env) [ none ↦ "" | some v ↦ strip v ]

abbrev pub is_set : String → Dict String → Bool
is_set name env = truthy (some (env_value name env))

-- `value or None`
abbrev pub or_none : String → Option String
or_none value = if truthy (some value) then some value else none

-- `text.replace("-", "_")`
dash_to_underscore : String → String
dash_to_underscore String.[] = String.[]
dash_to_underscore (String.◌∷◌ c s) =
    if code c == b'-'
    then append "_" (dash_to_underscore s)
    else String.◌∷◌ c (dash_to_underscore s)

unfoldable pub desk_env : String → String
unfolding dash_to_underscore
desk_env slug = append "TELEGRAM_CHAT_ID_" (dash_to_underscore (upper slug))

-- The name that the desk's route configures.
unfoldable pub configured_env : String → TelegramSettings → String
configured_env slug settings = elim (route slug settings) [
  | none ↦ group_env
  | some r ↦ r.chat_id_env
]

unfoldable pub resolve_chat_id_env : String → TelegramSettings → Dict String → String
resolve_chat_id_env slug settings env =
    let configured = configured_env slug settings in
    if not (str_eq (desk_env slug) principal_dm_env) && is_set (desk_env slug) env
    then desk_env slug
    else if truthy (some configured)
        && not (str_eq configured group_env || str_eq configured principal_dm_env)
        && is_set configured env
    then configured
    else if is_set group_env env
    then group_env
    else if truthy (some configured) && not (str_eq configured principal_dm_env)
    then configured
    else group_env

unfoldable pub chat_id_from_env : String → TelegramSettings → Dict String → Option String
chat_id_from_env slug settings env =
    let name = resolve_chat_id_env slug settings env in
    if str_eq name principal_dm_env
    then none
    else if is_set name env
    then some (env_value name env)
    else or_none (env_value group_env env)

unfoldable pub principal_dm_chat_id_from_env : Dict String → Option String
principal_dm_chat_id_from_env env = or_none (env_value principal_dm_env env)

unfoldable pub bot_token_from_env : Dict String → Option String
bot_token_from_env env = or_none (env_value bot_token_env env)
