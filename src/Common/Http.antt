-- ===== src/Common/Http.antt =====
-- packages/common/src/mm_common/http.py: the classification of errors and the retry loop. The
-- transport is a function of the attempt; times are in milliseconds, and the random factor of a
-- wait is in thousandths.
pub mod Laws
use market_memory.Prelude.{
  ℕ, zero, suc, ◌+◌, ◌-◌, ◌*◌, ◌/◌, Bool, true, false, ◌&&◌, ◌||◌, not, Option, none, some, List,
  [], ◌∷◌, if◌then◌else◌, ltb, leb, ◌==◌,
}
use Prim.Native.Nat.{◌^◌}

-- The error classes that a request can end with.
pub data ErrorClass : Type 0 where
  no_error timeout unreachable http_404 http_5xx http_error : ErrorClass
  rate_limited tos_or_blocked parse_error generic : ErrorClass

unfoldable pub classify_http_status : ℕ → ErrorClass
classify_http_status status =
    if status == 404
    then http_404
    else if status == 401 || status == 403 || status == 451
    then tos_or_blocked
    else if status == 429
    then rate_limited
    else if leb 500 status && leb status 599
    then http_5xx
    else if leb 400 status && leb status 499
    then http_error
    else if leb 200 status && leb status 299
    then no_error
    else http_error

-- `RETRYABLE_ERROR_CLASSES`
abbrev pub is_retryable : ErrorClass → Bool
is_retryable timeout = true
is_retryable unreachable = true
is_retryable rate_limited = true
is_retryable http_5xx = true
is_retryable _ = false

-- What one call of the client does: it raises, with the class of the exception, or it answers
-- with a status, whether its body parses, and its Retry-After.
pub data Answer : Type 0 where
  raises : ErrorClass → Answer
  answers : ℕ → Bool → Option ℕ → Answer

pub record HttpGetResult : Type 0 where
  pub error_class : ErrorClass
  pub attempts : ℕ
  pub status_code : Option ℕ
  pub retry_after : Option ℕ

abbrev pub min_ℕ : ℕ → ℕ → ℕ
min_ℕ a b = if leb a b then a else b

abbrev max_ℕ : ℕ → ℕ → ℕ
max_ℕ a b = if leb a b then b else a

abbrev at_least : Option ℕ → ℕ → ℕ
at_least none delay = delay
at_least (some wait) delay = max_ℕ delay wait

-- `compute_backoff_s` with the default jitter ratio, rounded down.
unfoldable pub compute_backoff : ℕ → ℕ → ℕ → Option ℕ → ℕ → ℕ
compute_backoff attempt backoff ceiling retry_after draw =
    at_least retry_after (min_ℕ (backoff * 2 ^ (attempt - 1)) ceiling * min_ℕ draw 1000 / 1000)

-- The keyword arguments of `_request`, the transport and the random draws.
pub record HttpRequest : Type 0 where
  pub max_attempts : ℕ
  pub backoff : ℕ
  pub ceiling : ℕ
  pub parse_json : Bool
  pub transport : ℕ → Answer
  pub draw : ℕ → ℕ

-- What the body of the loop makes of the answer to an attempt.
unfoldable pub result_of : Bool → ℕ → Answer → HttpGetResult
result_of parse_json attempt (raises e) = record {
  error_class = e;
  attempts = attempt;
  status_code = none;
  retry_after = none;
}
result_of parse_json attempt (answers status parses wait) =
    if status == 200
    then record {
      error_class = if parse_json && not parses then parse_error else no_error;
      attempts = attempt;
      status_code = some 200;
      retry_after = none;
    }
    else record {
      error_class = classify_http_status status;
      attempts = attempt;
      status_code = some status;
      retry_after = wait;
    }

abbrev pub tried : HttpRequest → ℕ → HttpGetResult
tried r attempt = result_of r.parse_json attempt (r.transport attempt)

unfoldable pub wait_after : HttpRequest → ℕ → ℕ
wait_after r attempt =
    compute_backoff attempt r.backoff r.ceiling (tried r attempt).retry_after (r.draw attempt)

-- The loop of `_request` at an attempt, by the number of attempts after it: the result, and the
-- waits in their order.
unfoldable pub request_from : HttpRequest → ℕ → ℕ → HttpGetResult × List ℕ
request_from r zero attempt = (tried r attempt, [])
request_from r (suc left) attempt = elim (is_retryable (tried r attempt).error_class) [
  | false ↦ (tried r attempt, [])
  | true ↦
      let (result, waits) = request_from r left (suc attempt) in
      (result, wait_after r attempt ∷ waits)
]

-- `_request`
unfoldable pub request : HttpRequest → HttpGetResult × List ℕ
request r = request_from r (r.max_attempts - 1) 1
