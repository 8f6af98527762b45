-- ===== src/Research/Errors.antt =====
-- packages/research_kit/src/mm_research_kit/errors.py: `GateError` by its message, and the two
-- exceptions of Python that the artifact helpers let through.
use market_memory.Prelude.{String}

pub data GateError : Type 0 where
  unknown_status : String → GateError
  unknown_risk_decision : String → GateError
  unknown_fail_mode : String → GateError
  rejected_is_terminal retired_is_terminal paper_live_later status_not_available : GateError
  no_self_approve author_cannot_be_sole_skeptic only_principal_overrides : GateError
  risk_block_terminal illegal_transition : GateError
  no_intent no_research_plan no_thesis in_skeptic_without_evidence : GateError
  paper_requires_skeptic_pass paper_incomplete : GateError
  reviewer_required bad_verdict review_missing workspace_missing : GateError
  unknown_role observation_id_required : GateError
  -- `KeyError` of `set_field`
  field_not_found : String → GateError
  -- `IndexError` of `first_token`
  index_error : GateError
  -- What a transition hook raises.
  hook_raised : String → GateError
