-- ===== src/Common/Http/Laws.antt =====
-- The retry loop stops in time, and only after an answer that it may not retry.
use market_memory.Prelude.{
  ℕ, zero, suc, ◌*◌, ◌/◌, ◌≡◌, ◌≤◌, ◌<◌, ◌+◌, ◌-◌, refl, true, false, Bool, Option, none, some,
  List, [], ◌∷◌, arith, Bool-cases, inl, inr, ap, ◌⊎◌, sym,
}
use Prim.Native.Nat.{◌^◌}
use native.Mathlib.Nat.{mul-le-mul_left}
use market_memory.Common.Http.{
  min_ℕ, HttpRequest, HttpGetResult, Answer, result_of, tried, request_from, request, is_retryable,
  compute_backoff,
}

result_of-attempts : (p : Bool) (n : ℕ) (a : Answer) → (result_of p n a).attempts ≡ n
unfolding result_of
result_of-attempts p n a = ground arith

-- A run of the loop from an attempt.
record IsRun (r : HttpRequest) (left attempt : ℕ) (out : HttpGetResult × List ℕ) : Type 0 where
  pub from : attempt ≤ out.0.attempts
  pub to : out.0.attempts ≤ attempt + left
  pub final : out.0 ≡ tried r out.0.attempts
  pub retried :
      (k : ℕ) → attempt ≤ k → k < out.0.attempts → is_retryable (tried r k).error_class ≡ true
  pub given_up : (out.0.attempts ≡ attempt + left) ⊎ (is_retryable out.0.error_class ≡ false)

stopped :
    (r : HttpRequest) (left attempt : ℕ)
    → (left ≡ 0) ⊎ (is_retryable (tried r attempt).error_class ≡ false)
    → IsRun r left attempt (tried r attempt, [])
stopped r left attempt why =
    let e = result_of-attempts r.parse_json attempt (r.transport attempt) in
    record {
      from = omega (arith, e);
      to = omega (arith, e);
      final = sym (ap (tried r) e);
      retried = λ k a b. ground (arith, e);
      given_up = elim why [ inl z ↦ inl (omega (arith, e, z)) | inr n ↦ inr n ];
    }

here_or_later : (n k : ℕ) → n ≤ k → (k ≡ n) ⊎ (suc n ≤ k)
here_or_later n k h = ground arith

request_from-IsRun :
    (r : HttpRequest) (left attempt : ℕ) → IsRun r left attempt (request_from r left attempt)
unfolding request_from
request_from-IsRun r zero attempt = stopped r zero attempt (inl refl)
request_from-IsRun r (suc left) attempt =
    elim (Bool-cases (is_retryable (tried r attempt).error_class)) [
      | inr h ↦ rw (request_from, h) (stopped r (suc left) attempt (inr h))
      | inl h ↦
          let rest = request_from-IsRun r left (suc attempt) in
          rw (request_from, h)
            (record {
              from = omega (arith, rest.from);
              to = omega (arith, rest.to);
              final = rest.final;
              retried = λ k a b. elim (here_or_later attempt k a) [
                | inl e ↦ rw e h
                | inr l ↦ rest.retried k l b
              ];
              given_up = elim rest.given_up [ inl e ↦ inl (omega (arith, e)) | inr n ↦ inr n ];
            })
    ]

-- What a request returns: it ends at the first answer that may not be retried, or at the last
-- attempt that is allowed.
pub record IsLastAnswer (r : HttpRequest) (result : HttpGetResult) : Type 0 where
  pub at_least_one : 1 ≤ result.attempts
  pub bounded : (result.attempts ≤ r.max_attempts) ⊎ (result.attempts ≡ 1)
  pub final : result ≡ tried r result.attempts
  pub retried : (k : ℕ) → 1 ≤ k → k < result.attempts → is_retryable (tried r k).error_class ≡ true
  pub given_up : (r.max_attempts ≤ result.attempts) ⊎ (is_retryable result.error_class ≡ false)

-- A request makes at least one attempt and at most the allowed number (one, if that is zero);
-- every attempt before the last one ended retryably; the result is what the loop makes of the last
-- one, which is not retryable unless the allowed number is reached.
pub request-IsLastAnswer : (r : HttpRequest) → IsLastAnswer r (request r).0
unfolding request
request-IsLastAnswer r =
    let run = request_from-IsRun r (r.max_attempts - 1) 1 in
    record {
      at_least_one = run.from;
      bounded = ground (arith, run.to);
      final = run.final;
      retried = run.retried;
      given_up = elim run.given_up [ inl e ↦ inl (omega (arith, e)) | inr n ↦ inr n ];
    }

unfoldable pub count : List ℕ → ℕ
count [] = 0
count (_ ∷ waits) = suc (count waits)

request_from-waits :
    (r : HttpRequest) (left attempt : ℕ)
    → count (request_from r left attempt).1 + attempt ≡ (request_from r left attempt).0.attempts
unfolding request_from count
request_from-waits r zero attempt =
    omega (arith, result_of-attempts r.parse_json attempt (r.transport attempt))
request_from-waits r (suc left) attempt =
    elim (Bool-cases (is_retryable (tried r attempt).error_class)) [
      | inr h ↦
          rw (request_from, h)
            (omega (arith, result_of-attempts r.parse_json attempt (r.transport attempt)))
      | inl h ↦
          let rest = request_from-waits r left (suc attempt) in
          rw (request_from, h) (omega (arith, rest))
    ]

-- A request waits exactly once between two attempts.
pub request_waits : (r : HttpRequest) → count (request r).1 + 1 ≡ (request r).0.attempts
unfolding request
request_waits r = request_from-waits r (r.max_attempts - 1) 1

-- The exponential part of a wait is at most the ceiling; a Retry-After may be longer.
scaled_le : (x draw : ℕ) → draw ≤ 1000 → x * draw / 1000 ≤ x
scaled_le x draw h = omega (arith, mul-le-mul_left x h)

capped : (x ceiling draw : ℕ) → min_ℕ x ceiling * min_ℕ draw 1000 / 1000 ≤ ceiling
capped x ceiling draw =
    let s = scaled_le (min_ℕ x ceiling) (min_ℕ draw 1000) (ground arith) in
    let m : min_ℕ x ceiling ≤ ceiling = ground arith in omega (arith, s, m)

-- Without a Retry-After the wait is at most the ceiling, and with one it is no shorter than that.
pub compute_backoff_bounds :
    (attempt backoff ceiling draw : ℕ) (retry_after : Option ℕ)
    → let delay = compute_backoff attempt backoff ceiling retry_after draw in
      (retry_after ≡ none → delay ≤ ceiling) × ((wait : ℕ) → retry_after ≡ some wait → wait ≤ delay)
unfolding compute_backoff
compute_backoff_bounds attempt backoff ceiling draw none =
    (λ _. capped (backoff * 2 ^ (attempt - 1)) ceiling draw, λ wait e. ground arith)
compute_backoff_bounds attempt backoff ceiling draw (some w) =
    (λ e. ground arith, λ wait e. ground arith)
