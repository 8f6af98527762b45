-- ===== src/Delivery/Telegram.antt =====
-- packages/delivery/src/mm_delivery/telegram.py and the send loop of deliver.py: the call of the
-- Bot API, the chunks and the picture of a payload.
use market_memory.Prelude.{
  ℕ, Bool, true, false, not, Option, none, some, List, [], ◌∷◌, String, text_in, if◌then◌else◌,
  truthy, Result, ok, err, suc, zero,
}
use market_memory.Delivery.Dedupe.{RateLimitBudget, allow}
use market_memory.Delivery.Gates.{Reason, rate_limited, retries_exhausted, failed}
use market_memory.Delivery.Payload.{
  Services, Post, HttpResult, World, DeliveryPayload, send_message, send_document, send_photo,
}

-- `TelegramClient.call` of a client without a limit of its own: the result and the posts.
pub record TelegramApiResult : Type 0 where
  pub ok : Bool
  pub error_class : String

abbrev answered : HttpResult → TelegramApiResult
answered h = elim h.payload_ok [
  | none ↦ record { ok = false; error_class = h.error_class }
  | some true ↦ record { ok = h.ok; error_class = if h.ok then "none" else h.error_class }
  | some false ↦ record {
    ok = false;
    error_class = if h.ok then "telegram_api_error" else h.error_class;
  }
]

unfoldable pub call : Services → Option String → Post → List Post → TelegramApiResult × List Post
call services token post posts =
    if not (truthy token)
    then (record { ok = false; error_class = "missing_env" }, posts)
    else (answered (services.http_post posts post), post ∷ posts)

abbrev pub with_posts : World → RateLimitBudget → List Post → World
with_posts w limiter posts = record {
  dedupe = w.dedupe;
  limiter = limiter;
  posts = posts;
  failed_rows = w.failed_rows;
  written = w.written;
}

-- `_record_failed`: without a sink there is no row.
abbrev pub record_failed : Reason → Option (List Reason) → Option (List Reason)
record_failed why none = none
record_failed why (some rows) = some (why ∷ rows)

-- `_record_failed`, and the reason of the result.
abbrev fail : Reason → World → Result Reason (Unit {0}) × World
fail reason w = (
  err reason,
  record {
    dedupe = w.dedupe;
    limiter = w.limiter;
    posts = w.posts;
    failed_rows = record_failed reason w.failed_rows;
    written = w.written;
  },
)

abbrev failure_reason : String → Reason
failure_reason error_class =
    if text_in error_class ("http_5xx" ∷ "rate_limited" ∷ [])
    then retries_exhausted
    else failed error_class

abbrev pub chunk_post : DeliveryPayload → String → String → Post
chunk_post payload chat_id chunk = record {
  method = send_message;
  chat_id = chat_id;
  text = chunk;
  message_thread_id = payload.message_thread_id;
}

-- The loop over the chunks.
unfoldable pub send_chunks :
    Services
    → Option String
    → DeliveryPayload
    → String
    → List String
    → World
    → Result Reason (Unit {0}) × World
send_chunks services token payload chat_id [] w = (ok tt, w)
send_chunks services token payload chat_id (chunk ∷ chunks) w =
    let (allowed, limiter) = allow w.limiter in
    if not allowed
    then fail rate_limited (with_posts w limiter w.posts)
    else let (result, posts) = call services token (chunk_post payload chat_id chunk) w.posts in
      elim result.ok [
        | true ↦ send_chunks services token payload chat_id chunks (with_posts w limiter posts)
        | false ↦ fail (failure_reason result.error_class) (with_posts w limiter posts)
      ]

longer_than : ℕ → String → Bool
longer_than n String.[] = false
longer_than zero (String.◌∷◌ _ _) = true
longer_than (suc n) (String.◌∷◌ _ s) = longer_than n s

abbrev caption_of : List String → String
caption_of [] = ""
caption_of (chunk ∷ _) = chunk

unfoldable pub media_post : DeliveryPayload → String → Post
unfolding longer_than
media_post payload chat_id =
    if longer_than 1024 (caption_of payload.chunks)
    then record {
      method = send_document;
      chat_id = chat_id;
      text = "";
      message_thread_id = payload.message_thread_id;
    }
    else record {
      method = send_photo;
      chat_id = chat_id;
      text = caption_of payload.chunks;
      message_thread_id = payload.message_thread_id;
    }

unfoldable pub send_media :
    Services
    → Option String
    → DeliveryPayload
    → String
    → Option String
    → World
    → Result Reason (Unit {0}) × World
send_media services token payload chat_id none w = (ok tt, w)
send_media services token payload chat_id (some png) w =
    let (result, posts) = call services token (media_post payload chat_id) w.posts in
    if result.ok
    then (ok tt, with_posts w w.limiter posts)
    else fail retries_exhausted (with_posts w w.limiter posts)
