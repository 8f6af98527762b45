-- ===== src/Delivery/Deliver.antt =====
-- packages/delivery/src/mm_delivery/deliver.py: the gated send of a pack.
pub mod Loop
pub mod Laws
pub mod Sending
use market_memory.Prelude.{
  ℕ, Bool, true, false, ◌&&◌, ◌||◌, not, Option, none, some, List, [], ◌∷◌, String, str_eq, text_in,
  if◌then◌else◌, strip, truthy, is_none, Result, ok, err, suc, zero,
}
use market_memory.Prelude.Dict.{Dict}
use market_memory.Delivery.Config.{
  TelegramSettings, DeskRoute, route, principal_dm_env, group_env, env_value, resolve_chat_id_env,
  chat_id_from_env, principal_dm_chat_id_from_env, bot_token_from_env,
}
use market_memory.Delivery.Format.{chunk_markdown_v2}
use market_memory.Delivery.Dedupe.{DedupeStore, RateLimitBudget, load, seen, remember, allow}
use market_memory.Delivery.Gates.{
  GateDecision, Reason, reason_ok, no_send, dedupe_hit, rate_limited, missing_env, missing_chat_id,
  missing_principal_dm, principal_dm_is_group, retries_exhausted, failed, evaluate_send_gates,
}
use market_memory.Delivery.Payload.{
  Services, World, DeliveryPayload, DeliverRequest, DeliverError, build_payload, is_dm,
}
use market_memory.Delivery.Telegram.{send_chunks, send_media}

-- The token of the client that is given, or of the one made from the environment.
unfoldable pub token_of : DeliverRequest → Option String
token_of r = elim r.client_token [ none ↦ bot_token_from_env r.environ | some given ↦ given ]

-- The steps of `deliver` from the token to the chat: a reason not to send, or the chat.
unfoldable pub choose_chat : DeliverRequest → DeliveryPayload → Result Reason String
choose_chat r payload =
    if is_none r.client_token && is_none (bot_token_from_env r.environ)
    then err missing_env
    else if is_dm r
    then elim (principal_dm_chat_id_from_env r.environ) [
      | none ↦ err missing_principal_dm
      | some chat_id ↦
          let group_id = env_value group_env r.environ in
          if truthy (some group_id) && str_eq chat_id group_id
          then err principal_dm_is_group
          else ok chat_id
    ]
    else elim (chat_id_from_env r.desk r.settings r.environ) [
      | none ↦ err missing_chat_id
      | some chat_id ↦
          if str_eq payload.chat_id_env principal_dm_env
          then err principal_dm_is_group
          else ok chat_id
    ]

abbrev pub with_store : World → DedupeStore → World
with_store w store = record {
  dedupe = store;
  limiter = w.limiter;
  posts = w.posts;
  failed_rows = w.failed_rows;
  written = w.written;
}

-- The send itself, from the limiter to `store.remember`.
unfoldable pub send_payload :
    Services → DeliverRequest → DeliveryPayload → String → World → Reason × World
send_payload services r payload chat_id w =
    let (chunked, w₁) = send_chunks services (token_of r) payload chat_id payload.chunks w in
    elim chunked [
      | err reason ↦ (reason, w₁)
      | ok _ ↦
          let (pictured, w₂) = send_media services (token_of r) payload chat_id r.png w₁ in
          elim pictured [
            | err reason ↦ (reason, w₂)
            | ok _ ↦ (reason_ok, with_store w₂ (remember payload.idempotency_key r.now w₂.dedupe))
          ]
    ]

abbrev route_enabled : Option DeskRoute → Bool
route_enabled none = true
route_enabled (some route) = route.enabled

unfoldable pub gate_of : DeliverRequest → GateDecision
gate_of r =
    evaluate_send_gates r.settings r.kind r.now r.completeness_pct
      (route_enabled (route r.desk r.settings)) (if r.send then r.respect_quiet_hours else false)

-- `write_payload_files`
abbrev pub with_files : DeliverRequest → DeliveryPayload → World → World
with_files r payload w =
    if r.write_files
    then record {
      dedupe = w.dedupe;
      limiter = w.limiter;
      posts = w.posts;
      failed_rows = w.failed_rows;
      written = payload ∷ w.written;
    }
    else w

-- The steps after the files: the reason of the result, which is `reason_ok` where it was sent.
unfoldable pub deliver_payload :
    Services → DeliverRequest → DeliveryPayload → World → Reason × World
deliver_payload services r payload w =
    if not r.send
    then (no_send, w)
    else if not (gate_of r).allow
    then ((gate_of r).reason, w)
    else elim (choose_chat r payload) [
      | err reason ↦ (reason, w)
      | ok chat_id ↦
          let (hit, store) = seen payload.idempotency_key r.now (load w.dedupe) in
          if hit
          then (dedupe_hit, with_store w store)
          else send_payload services r payload chat_id (with_store w store)
    ]

unfoldable pub deliver : Services → DeliverRequest → World → Result DeliverError (Reason × World)
deliver services r w = elim (build_payload services r) [
  | err e ↦ err e
  | ok payload ↦ ok (deliver_payload services r payload (with_files r payload w))
]
