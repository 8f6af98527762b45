-- ===== src/Delivery/Inbound/Laws.antt =====
-- What an answered command is, and what a refused one leaves behind.
use market_memory.Prelude.{◌≡◌, true, false, Option, List, String, text_in, arith}
use market_memory.Delivery.Inbound.{
  AuditRow, handle_inbound, knows_uid, lowered, first_token, trading_commands,
}

-- If handle_inbound answers a command with ok, then the uid is on the list of uids that is given,
-- and the command is on the allowlist and is no trading command.
pub handle_inbound-ok :
    (text : String) (allowlist : List String) (uid : Option String)
    (allow_uids : Option (List String)) (sink : Option (List AuditRow))
    → (handle_inbound text allowlist uid allow_uids sink).0.ok ≡ true
    → (knows_uid uid allow_uids ≡ true)
      × (text_in (first_token text) trading_commands ≡ false)
      × (text_in (first_token text) (lowered allowlist) ≡ true)
unfolding handle_inbound
handle_inbound-ok text allowlist uid allow_uids sink h = ground arith
