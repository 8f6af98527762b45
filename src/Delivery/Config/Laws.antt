-- ===== src/Delivery/Config/Laws.antt =====
-- A desk's chat is never the Principal's own.
use market_memory.Prelude.{◌≢◌, String, eq_iff, arith}
use market_memory.Prelude.Dict.{Dict}
use market_memory.Delivery.Config.{
  TelegramSettings, resolve_chat_id_env, principal_dm_env, group_env, configured_env, desk_env,
}

-- resolve_chat_id_env never names TELEGRAM_CHAT_ID_PRINCIPAL_DM.
pub resolve_chat_id_env-ne :
    (slug : String) (settings : TelegramSettings) (env : Dict String)
    → resolve_chat_id_env slug settings env ≢ principal_dm_env
unfolding resolve_chat_id_env
resolve_chat_id_env-ne slug settings env h = ground (
  arith,
  eq_iff (desk_env slug) principal_dm_env,
  eq_iff (configured_env slug settings) principal_dm_env,
  eq_iff group_env principal_dm_env,
)
