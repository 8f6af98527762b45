-- ===== src/Delivery/Inbound.antt =====
-- packages/delivery/src/mm_delivery/inbound.py: the reply to an inbound command, without its text.
pub mod Laws
use market_memory.Prelude.{
  Bool, true, false, ◌&&◌, ◌||◌, not, Option, none, some, List, [], ◌∷◌, ◌++◌, String, str_eq,
  text_in, if◌then◌else◌, strip, lower, truthy, or_default, is_space, map,
}

abbrev pub allowed_commands : List String
allowed_commands = "/status" ∷ "/brief" ∷ "/desk" ∷ "/idea" ∷ "/gaps" ∷ "/halt" ∷ []

abbrev pub trading_commands : List String
trading_commands =
    "/buy" ∷ "/sell" ∷ "/order" ∷ "/trade" ∷ "/flatten" ∷ "/size" ∷ "/close" ∷ "/long" ∷ "/short"
    ∷ "/execute" ∷ []

pub data Audit : Type 0 where
  unknown_uid trading_refused not_allowlisted allowlisted : Audit

pub record InboundReply : Type 0 where
  pub ok : Bool
  pub command : String
  pub trading : Bool
  pub silent : Bool
  pub uid : Option String
  pub audit : Audit

-- A row of the audit sink.
pub record AuditRow : Type 0 where
  pub uid : String
  pub command : String
  pub reason : Audit

-- The text up to the first space.
first_word : String → String
first_word String.[] = String.[]
first_word (String.◌∷◌ c s) =
    let rest = first_word s in if is_space c then String.[] else String.◌∷◌ c rest

unfoldable pub first_token : String → String
unfolding first_word
first_token text = lower (first_word (strip text))

uid_text : Option String → String
uid_text none = ""
uid_text (some u) = u

-- The uid passes where no list is given, or the list has it.
unfoldable pub knows_uid : Option String → Option (List String) → Bool
unfolding uid_text
knows_uid uid none = true
knows_uid uid (some uids) = truthy uid && text_in (uid_text uid) uids

unfoldable pub lowered : List String → List String
lowered [] = []
lowered (a ∷ rest) = lower a ∷ lowered rest

abbrev appended : Option (List AuditRow) → AuditRow → Option (List AuditRow)
appended none row = none
appended (some rows) row = some (rows ++ (row ∷ []))

unfoldable pub handle_inbound :
    String
    → List String
    → Option String
    → Option (List String)
    → Option (List AuditRow)
    → InboundReply × Option (List AuditRow)
unfolding uid_text lowered
handle_inbound text allowlist uid allow_uids sink =
    let cmd = first_token text in
    if not (knows_uid uid allow_uids)
    then (
      record {
        ok = false;
        command = or_default cmd "(empty)";
        trading = false;
        silent = true;
        uid = uid;
        audit = unknown_uid;
      },
      appended sink
          (record { uid = uid_text uid; command = or_default cmd "(empty)"; reason = unknown_uid }),
    )
    else if text_in cmd trading_commands
    then (
      record {
        ok = false;
        command = cmd;
        trading = true;
        silent = false;
        uid = uid;
        audit = trading_refused;
      },
      appended sink (record { uid = uid_text uid; command = cmd; reason = trading_refused }),
    )
    else if not (text_in cmd (lowered allowlist))
    then (
      record {
        ok = false;
        command = or_default cmd "(empty)";
        trading = false;
        silent = false;
        uid = uid;
        audit = not_allowlisted;
      },
      sink,
    )
    else (
      record {
        ok = true;
        command = cmd;
        trading = false;
        silent = false;
        uid = uid;
        audit = allowlisted;
      },
      sink,
    )
