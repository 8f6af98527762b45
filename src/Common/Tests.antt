-- ===== src/Common/Tests.antt =====
-- A request that fails twice.
use market_memory.Prelude.{ℕ, true, Option, none, some, suc, zero}
use market_memory.Common.Http.{HttpRequest, Answer, answers, raises, timeout, request}
use market_memory.Common.Http.Laws.{IsLastAnswer, request-IsLastAnswer}

abbrev transport : ℕ → Answer
transport zero = raises timeout
transport (suc zero) = raises timeout
transport (suc (suc zero)) = answers 503 true (some 3000)
transport (suc (suc (suc _))) = answers 200 true none

abbrev asked : Option ℕ
asked = some 3000

abbrev flaky : HttpRequest
flaky = record {
  max_attempts = 5;
  backoff = 250;
  ceiling = 8000;
  parse_json = true;
  transport = transport;
  draw = λ k. 500;
}

request-IsLastAnswer_example : IsLastAnswer flaky (request flaky).0
request-IsLastAnswer_example = request-IsLastAnswer flaky
