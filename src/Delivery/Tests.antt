-- ===== src/Delivery/Tests.antt =====
-- The delivery on small inputs.
use Prim.Native.String.{◌++◌ as append}
use market_memory.Prelude.{
  ℕ, ◌≡◌, ◌≢◌, refl, true, false, Bool, Option, none, some, [], ◌∷◌, String, ok, arith, strip,
  upper,
}
use market_memory.Prelude.Dict.{Dict, lookup, insert}
use market_memory.Delivery.Config.{
  TelegramSettings, ThresholdSettings, principal_dm_env, group_env, resolve_chat_id_env,
  principal_dm_chat_id_from_env, env_value, spec, has_numeric, chat_id_from_env, desk_env,
  configured_env, bot_token_from_env,
}
use market_memory.Delivery.Dedupe.{
  StoreFile, no_file, seen, load, remember, prune, keep_fresh, dump, allow,
}
use market_memory.Delivery.Gates.{
  reason_ok, in_quiet_hours, evaluate_threshold, evaluate_send_gates, evaluate_quiet_hours,
  retries_exhausted, dedupe_hit,
}
use market_memory.Delivery.Format.{
  chunk_markdown_v2, escape_markdown_v2, text_length, split_escaped, split_from, next_piece,
  take_text, drop_text, drop_backslash, cut_of, sequence_prefix,
}
use market_memory.Delivery.Format.Laws.{joined, joined-split_escaped}
use market_memory.Delivery.Payload.{
  Services, World, DeliverRequest, DeliveryPayload, HttpResult, build_payload, send_message,
}
use market_memory.Delivery.Deliver.{
  deliver, deliver_payload, gate_of, choose_chat, send_payload, token_of,
}
use market_memory.Delivery.Telegram.{send_chunks, call, send_media}
use market_memory.Delivery.Deliver.Loop.{SentTo}
use market_memory.Delivery.Deliver.Sending.{
  IsTimely, posted_gates, dm_avoids_group, failure_recorded, delivered_once,
}

abbrev thresholds : ThresholdSettings
thresholds = record {
  require_threshold_config = true;
  specs =
      (record { name = "desk_pack"; enabled = true; params = ("min_completeness_pct", 5000) ∷ [] })
      ∷ [];
}

abbrev settings : TelegramSettings
settings = record {
  max_message_chars = 4096;
  max_requests_per_minute = 20;
  quiet_hours = record { enabled = true; timezone = λ t. t; start = 79200; end = 25200 };
  dedupe_ttl_seconds = 86400;
  thresholds = thresholds;
  desks =
      ("ops", record { enabled = true; chat_id_env = "TELEGRAM_CHAT_ID"; thread_id = none }) ∷ [];
}

abbrev environ : Dict String
environ =
    ("TELEGRAM_BOT_TOKEN", "t")
    ∷ ("TELEGRAM_CHAT_ID", "-100")
    ∷ ("TELEGRAM_CHAT_ID_PRINCIPAL_DM", "42")
    ∷ []

-- A transport that answers with ok, or with a server error.
abbrev answering : Bool → HttpResult
answering true = record { ok = true; payload_ok = some true; error_class = "none" }
answering false = record { ok = false; payload_ok = none; error_class = "http_5xx" }

abbrev services : Bool → Services
services up = record {
  sha256_hex = λ text. text;
  idempotency_key = λ desk as_of hash. append desk (append as_of hash);
  http_post = λ posts post. answering up;
}

abbrev request : Option String → ℕ → DeliverRequest
request override now = record {
  markdown = "pack";
  desk = "ops";
  as_of = "2026-01-02";
  send = true;
  kind = "desk_pack";
  completeness_pct = some 9000;
  settings = settings;
  write_files = false;
  client_token = none;
  now = now;
  environ = environ;
  respect_quiet_hours = true;
  content_hash_override = none;
  png = none;
  chat_id_env_override = override;
}

abbrev start : World
start = record {
  dedupe = record { ttl_seconds = 86400; path = no_file; records = [] };
  limiter = record { max_requests_per_minute = 20; used = 0; skipped = 0 };
  posts = [];
  failed_rows = some [];
  written = [];
}

abbrev stored : Dict (Option ℕ)
stored = ("ops2026-01-02pack", some 40000) ∷ []

abbrev sent_to : String → World
sent_to chat_id = record {
  dedupe = record { ttl_seconds = 86400; path = StoreFile.saved stored; records = stored };
  limiter = record { max_requests_per_minute = 20; used = 1; skipped = 0 };
  posts =
      (record { method = send_message; chat_id = chat_id; text = "pack"; message_thread_id = none })
      ∷ [];
  failed_rows = some [];
  written = [];
}

sent_group : deliver (services true) (request none 40000) start ≡ ok (reason_ok, sent_to "-100")
unfolding chunk_markdown_v2 escape_markdown_v2 text_length deliver build_payload deliver_payload
    gate_of evaluate_send_gates evaluate_threshold evaluate_quiet_hours in_quiet_hours has_numeric
    spec lookup choose_chat chat_id_from_env resolve_chat_id_env desk_env configured_env env_value
    bot_token_from_env strip upper load seen prune keep_fresh send_payload send_chunks call allow
    send_media token_of remember dump insert
sent_group = refl

sent_dm :
    deliver (services true) (request (some principal_dm_env) 40000) start
    ≡ ok (reason_ok, sent_to "42")
unfolding chunk_markdown_v2 escape_markdown_v2 text_length deliver build_payload deliver_payload
    gate_of evaluate_send_gates evaluate_threshold evaluate_quiet_hours in_quiet_hours has_numeric
    spec lookup choose_chat principal_dm_chat_id_from_env env_value bot_token_from_env strip load
    seen prune keep_fresh send_payload send_chunks call allow send_media token_of remember dump
    insert
sent_dm = refl

posted_gates_example :
    (true ≡ true)
    × IsTimely (request none 40000)
    × ((chat_id : String) × SentTo chat_id [] (sent_to "-100").posts)
posted_gates_example =
    posted_gates (services true) (request none 40000) start sent_group (λ e. ground arith)

dm_avoids_group_example :
    (chat_id : String) × (principal_dm_chat_id_from_env environ ≡ some chat_id)
    × (chat_id ≢ env_value group_env environ)
    × SentTo chat_id [] (sent_to "42").posts
dm_avoids_group_example =
    dm_avoids_group (services true) (request (some principal_dm_env) 40000) start refl sent_dm
      (λ e. ground arith)

abbrev failed_send : World
failed_send = record {
  dedupe = record { ttl_seconds = 86400; path = no_file; records = [] };
  limiter = record { max_requests_per_minute = 20; used = 1; skipped = 0 };
  posts = (sent_to "-100").posts;
  failed_rows = some (retries_exhausted ∷ []);
  written = [];
}

sent_fails :
    deliver (services false) (request none 40000) start ≡ ok (retries_exhausted, failed_send)
unfolding chunk_markdown_v2 escape_markdown_v2 text_length deliver build_payload deliver_payload
    gate_of evaluate_send_gates evaluate_threshold evaluate_quiet_hours in_quiet_hours has_numeric
    spec lookup choose_chat chat_id_from_env resolve_chat_id_env desk_env configured_env env_value
    bot_token_from_env strip upper load seen prune keep_fresh send_payload send_chunks call allow
    token_of
sent_fails = refl

failure_recorded_example :
    (failed_send.failed_rows ≡ some (retries_exhausted ∷ [])) × (failed_send.dedupe.path ≡ no_file)
failure_recorded_example =
    failure_recorded (services false) (request none 40000) start sent_fails (λ e. ground arith)
      (λ e. ground arith)

sent_again :
    deliver (services true) (request none 50000) (sent_to "-100") ≡ ok (dedupe_hit, sent_to "-100")
unfolding chunk_markdown_v2 escape_markdown_v2 text_length deliver build_payload deliver_payload
    gate_of evaluate_send_gates evaluate_threshold evaluate_quiet_hours in_quiet_hours has_numeric
    spec lookup choose_chat chat_id_from_env resolve_chat_id_env desk_env configured_env env_value
    bot_token_from_env strip upper load seen prune keep_fresh
sent_again = refl

abbrev payload : DeliveryPayload
payload = record {
  text = "pack";
  content_hash = "pack";
  desk = "ops";
  as_of = "2026-01-02";
  idempotency_key = "ops2026-01-02pack";
  chunks = "pack" ∷ [];
  chat_id_env = "TELEGRAM_CHAT_ID";
  message_thread_id = none;
  kind = "desk_pack";
}

built : (now : ℕ) → build_payload (services true) (request none now) ≡ ok payload
unfolding chunk_markdown_v2 escape_markdown_v2 text_length build_payload resolve_chat_id_env
    desk_env configured_env env_value lookup strip upper
built now = refl

delivered_once_example : (sent_to "-100").posts ≡ (sent_to "-100").posts
delivered_once_example =
    delivered_once (services true) (request none 40000) (request none 50000) start (sent_to "-100")
      (sent_to "-100") payload payload dedupe_hit sent_group sent_again (built 40000) (built 50000)
      refl (omega arith)

joined-split_escaped_example : joined (split_escaped 8 "one two three") ≡ "one two three"
joined-split_escaped_example = joined-split_escaped 8 "one two three"

-- Three escaped backslashes, cut inside a pair.
split_pairs : split_escaped 4 "\\\\\\\\\\\\" ≡ "\\\\\\" ∷ "\\\\" ∷ "\\" ∷ []
unfolding split_escaped split_from next_piece take_text drop_text drop_backslash cut_of text_length
split_pairs = refl

-- A fence keeps its bars, a line outside has them escaped.
escaped : escape_markdown_v2 "a|b\n```\nc|d\n```" ≡ "a\\|b\n```\nc|d\n```"
unfolding escape_markdown_v2 strip
escaped = refl

chunked :
    chunk_markdown_v2 32 "aaaa bbbb cccc dddd eeee ffff gggg"
    ≡ some ("\\[1/2\\]\naaaa bbbb cccc dddd " ∷ "\\[2/2\\]\neeee ffff gggg" ∷ [])
unfolding chunk_markdown_v2 escape_markdown_v2 split_escaped split_from next_piece take_text
    drop_text drop_backslash cut_of text_length sequence_prefix strip
chunked = refl
