-- ===== src/Paper/Tests.antt =====
-- A trade that is opened, and one whose thesis lacks evidence.
use market_memory.Prelude.{◌≡◌, refl, false, none, some, List, [], ◌∷◌, ok, err, norm, strip, lower}
use market_memory.Prelude.Int.{pos}
use market_memory.Research.Enums.{parse_status, parse_decision, parse_verdict}
use market_memory.Research.Errors.{GateError}
use market_memory.Research.StateMachine.{
  validate_transition, check_transition, assert_not_self_approve,
}
use market_memory.Research.Markdown.{Document, get_field, set_field, first_token}
use market_memory.Research.Workspace.{
  Workspace, EvidenceLink, read_status, recorded_skeptic_verdict, read_author_role,
  paper_has_invalidation_and_max_loss,
}
use market_memory.Research.Lifecycle.{
  advance_status, write_status, assert_can_mark, assert_paper_ready,
}
use market_memory.Paper.Ledger.{
  Numbers, OpenRequest, PaperTrade, refused, open_paper_trade, check_open, require_invalidation,
  parse_max_loss, blank_or_placeholder, write_paper_artifacts, fill_template, advance_to_paper,
}
use market_memory.Paper.Ledger.Laws.{
  IsBacked, HasTrade, open_paper_trade-IsBacked, refused_open_keeps_trade,
}

-- Numbers that know one text.
abbrev numbers : Numbers
numbers = record { search = λ text. some "250"; decimal = λ n. some (pos 250) }

abbrev template : Document
template =
    record { label = "Thesis id"; value = "" }
    ∷ record { label = "Instrument"; value = "" }
    ∷ record { label = "Size"; value = "" }
    ∷ record { label = "Max loss"; value = "" }
    ∷ record { label = "Invalidation"; value = "" }
    ∷ []

abbrev shop : List EvidenceLink → Workspace
shop links = record {
  name = "THESIS-1";
  intent = some (record { label = "Status"; value = "in_skeptic" } ∷ []);
  thesis = some (
      record { label = "Status / version"; value = "in_skeptic / v2" }
      ∷ record { label = "Author role"; value = "Crypto desk" }
      ∷ []);
  plan = none;
  review = some (record { label = "Verdict"; value = "pass" } ∷ []);
  evidence = links;
  paper_trade = none;
  paper_files = [];
  has_runs = false;
  has_promotion = false;
  has_post_mortem = false;
}

abbrev linked : Workspace
linked =
    shop (record { observation_id = "01J"; role = "supports"; notes = ""; linked_at = "" } ∷ [])

abbrev order : OpenRequest
order = record {
  id = "01K";
  size = " 0.1 ";
  max_loss = "250 USD";
  invalidation = "close below 60k";
  instrument = "BTC";
  side = "long";
}

abbrev trade : PaperTrade
trade = record {
  id = "01K";
  thesis_slug = "THESIS-1";
  instrument = "BTC";
  size = "0.1";
  side = "long";
  invalidation = "close below 60k";
  max_loss = "250 USD";
  max_loss_amount = pos 250;
}

opens : (open_paper_trade numbers template order linked).0 ≡ ok trade
unfolding open_paper_trade check_open require_invalidation parse_max_loss blank_or_placeholder
    write_paper_artifacts fill_template advance_to_paper advance_status write_status set_field
    assert_can_mark assert_paper_ready recorded_skeptic_verdict paper_has_invalidation_and_max_loss
    read_status get_field first_token read_author_role norm strip lower parse_status parse_decision
    parse_verdict validate_transition check_transition assert_not_self_approve
opens = refl

open_paper_trade-IsBacked_example :
    IsBacked order linked trade
    × (read_status (open_paper_trade numbers template order linked).1 ≡ ok (some "paper"))
open_paper_trade-IsBacked_example =
    open_paper_trade-IsBacked numbers template order linked trade opens

refuses :
    (open_paper_trade numbers template order (shop [])).0
    ≡ err (refused GateError.in_skeptic_without_evidence)
unfolding open_paper_trade check_open require_invalidation parse_max_loss blank_or_placeholder
    write_paper_artifacts fill_template advance_to_paper advance_status write_status set_field
    assert_can_mark assert_paper_ready recorded_skeptic_verdict paper_has_invalidation_and_max_loss
    read_status get_field first_token read_author_role norm strip lower parse_status parse_decision
    parse_verdict validate_transition check_transition assert_not_self_approve
refuses = refl

refused_open_keeps_trade_example :
    HasTrade (shop []) (open_paper_trade numbers template order (shop [])).1 trade
unfolding check_open require_invalidation parse_max_loss blank_or_placeholder write_paper_artifacts
    fill_template set_field recorded_skeptic_verdict get_field first_token norm strip lower
    parse_verdict
refused_open_keeps_trade_example =
    refused_open_keeps_trade numbers template order (shop []) trade
      (refused GateError.in_skeptic_without_evidence) refl refl refuses
