-- ===== src/Delivery/Payload.antt =====
-- packages/delivery/src/mm_delivery/payload.py: the payload of a request. The digests and the
-- transport are operations of `Services`; the answer of the transport may hang on all the posts
-- before.
use market_memory.Prelude.{
  ℕ, Bool, false, not, Option, none, some, List, [], ◌∷◌, String, str_eq, text_in, if◌then◌else◌,
  strip, truthy, Result, ok, err,
}
use market_memory.Prelude.Dict.{Dict}
use market_memory.Delivery.Config.{
  TelegramSettings, DeskRoute, route, principal_dm_env, resolve_chat_id_env,
}
use market_memory.Delivery.Format.{chunk_markdown_v2}
use market_memory.Delivery.Dedupe.{DedupeStore, RateLimitBudget}
use market_memory.Delivery.Gates.{Reason}

pub data Method : Type 0 where
  send_message send_document send_photo : Method

-- The body of a call.
pub record Post : Type 0 where
  pub method : Method
  pub chat_id : String
  pub text : String
  pub message_thread_id : Option ℕ

-- What `http_post` returns: the field "ok" of the payload is none where it is no dict.
pub record HttpResult : Type 0 where
  pub ok : Bool
  pub payload_ok : Option Bool
  pub error_class : String

pub record Services : Type 0 where
  pub sha256_hex : String → String
  pub idempotency_key : String → String → String → String
  pub http_post : List Post → Post → HttpResult

pub record DeliveryPayload : Type 0 where
  pub text : String
  pub content_hash : String
  pub desk : String
  pub as_of : String
  pub idempotency_key : String
  pub chunks : List String
  pub chat_id_env : String
  pub message_thread_id : Option ℕ
  pub kind : String

pub record DeliverRequest : Type 0 where
  pub markdown : String
  pub desk : String
  pub as_of : String
  pub send : Bool
  pub kind : String
  pub completeness_pct : Option ℕ
  pub settings : TelegramSettings
  pub write_files : Bool
  pub client_token : Option (Option String)
  pub now : ℕ
  pub environ : Dict String
  pub respect_quiet_hours : Bool
  pub content_hash_override : Option String
  pub png : Option String
  pub chat_id_env_override : Option String

-- What a delivery changes: the store, the budget, the posts (the last one first), the failed rows
-- of the sink, if one is given, and the payload files.
pub record World : Type 0 where
  pub dedupe : DedupeStore
  pub limiter : RateLimitBudget
  pub posts : List Post
  pub failed_rows : Option (List Reason)
  pub written : List DeliveryPayload

pub data DeliverError : Type 0 where
  unknown_route chunk_limit bad_override : DeliverError

-- `ROUTE_SLUGS` of mm_common.naming
abbrev pub route_slugs : List String
route_slugs = "intel" ∷ "research" ∷ "quant" ∷ "ic_risk" ∷ "ops" ∷ "alerts" ∷ []

abbrev thread_of : Option DeskRoute → Option ℕ
thread_of none = none
thread_of (some r) = r.thread_id

abbrev content_hash_of : Services → DeliverRequest → String
content_hash_of services r = elim r.content_hash_override [
  | none ↦ services.sha256_hex r.markdown
  | some h ↦ if truthy (some h) then h else services.sha256_hex r.markdown
]

abbrev payload_to : Services → DeliverRequest → List String → String → Option ℕ → DeliveryPayload
payload_to services r chunks chat_env thread_id = record {
  text = r.markdown;
  content_hash = content_hash_of services r;
  desk = r.desk;
  as_of = r.as_of;
  idempotency_key = services.idempotency_key r.desk r.as_of (content_hash_of services r);
  chunks = chunks;
  chat_id_env = chat_env;
  message_thread_id = thread_id;
  kind = r.kind;
}

-- `chat_id_env_override == PRINCIPAL_DM_CHAT_ID_ENV`
abbrev pub is_dm : DeliverRequest → Bool
is_dm r = elim r.chat_id_env_override [ none ↦ false | some name ↦ str_eq name principal_dm_env ]

unfoldable pub build_payload : Services → DeliverRequest → Result DeliverError DeliveryPayload
build_payload services r =
    if not (text_in (strip r.desk) route_slugs)
    then err unknown_route
    else elim (chunk_markdown_v2 r.settings.max_message_chars r.markdown) [
      | none ↦ err chunk_limit
      | some chunks ↦
          if is_dm r
          then ok (payload_to services r chunks principal_dm_env none)
          else if truthy r.chat_id_env_override
          then err bad_override
          else ok (
              payload_to services r chunks (resolve_chat_id_env r.desk r.settings r.environ)
                (thread_of (route r.desk r.settings)))
    ]
