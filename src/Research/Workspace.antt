-- ===== src/Research/Workspace.antt =====
-- A thesis workspace, as far as packages/research_kit/src/mm_research_kit/lifecycle.py reads it:
-- each markdown artifact by its field lines, the rows of evidence/links.md, the paper records.

use Prim.Native.Char.{code}
use market_memory.Prelude.{
  Bool, true, false, ◌&&◌, ◌||◌, not, Option, none, some, List, [], ◌∷◌, ◌++◌, String, str_eq,
  if◌then◌else◌, text_in, norm, strip, Result, ok, ◌>>=◌, truthy, leb,
}
use market_memory.Prelude.Int.{ℤ, pos, ltb_ℤ}
use market_memory.Research.Enums.{SkepticVerdict, parse_verdict}
use market_memory.Research.Errors.{GateError}
use market_memory.Research.Markdown.{Document, get_field, first_token}

-- `EvidenceLink`, a row of the table in evidence/links.md.
pub record EvidenceLink : Type 0 where
  pub observation_id : String
  pub role : String
  pub notes : String
  pub linked_at : String

-- A paper record: a JSON object with its two texts and `float(amount)` where that is a number,
-- a file that is no JSON, or a markdown file.
pub data PaperFile : Type 0 where
  json : String → String → Option ℤ → PaperFile
  unreadable : PaperFile
  markdown : Document → PaperFile

pub record Workspace : Type 0 where
  pub name : String
  pub intent : Option Document
  pub thesis : Option Document
  pub plan : Option Document
  pub review : Option Document
  pub evidence : List EvidenceLink
  -- paper-trade.md, then the files below paper/
  pub paper_trade : Option Document
  pub paper_files : List PaperFile
  -- a file under evidence/ or backtests/, a promotion, a post-mortem
  pub has_runs : Bool
  pub has_promotion : Bool
  pub has_post_mortem : Bool

abbrev pub exists {ℓ} : {A : Type ℓ} → Option A → Bool
exists none = false
exists (some _) = true

abbrev pub nonempty {ℓ} : {A : Type ℓ} → List A → Bool
nonempty [] = false
nonempty (_ ∷ _) = true

abbrev pub has_evidence_links : Workspace → Bool
has_evidence_links w = nonempty w.evidence

-- `_PAPER_PLACEHOLDERS`
abbrev paper_placeholders : List String
paper_placeholders =
    "" ∷ "-" ∷ "n/a" ∷ "na" ∷ "none" ∷ "null" ∷ "tbd" ∷ "todo" ∷ "?" ∷ "unknown" ∷ []

defined_field : Option String → Bool
defined_field none = false
defined_field (some v) = not (text_in (norm v) paper_placeholders)

has_digit : String → Bool
has_digit String.[] = false
has_digit (String.◌∷◌ c s) = (leb b'0' (code c) && leb (code c) b'9') || has_digit s

abbrev text_or_empty : Option String → String
text_or_empty none = ""
text_or_empty (some s) = s

-- `float(amount) > 0`, or the look at the text where the amount is no number.
positive_amount : Option ℤ → String → Bool
unfolding has_digit
positive_amount (some a) max_loss = ltb_ℤ (pos 0) a
positive_amount none max_loss = has_digit max_loss && not (str_eq "0" (strip max_loss))

-- `_paper_file_complete`
paper_file_complete : PaperFile → Bool
unfolding defined_field has_digit positive_amount
paper_file_complete (json invalidation max_loss amount) =
    defined_field (some invalidation)
    && defined_field (some max_loss)
    && positive_amount amount max_loss
paper_file_complete unreadable = false
paper_file_complete (markdown d) =
    let max_loss = get_field d "Max loss" in
    defined_field (get_field d "Invalidation")
    && defined_field max_loss
    && has_digit (text_or_empty max_loss)
    && not (text_in (strip (text_or_empty max_loss)) ("0" ∷ "0.0" ∷ []))

any_complete : List PaperFile → Bool
any_complete [] = false
any_complete (f ∷ fs) = paper_file_complete f || any_complete fs

abbrev as_file : Option Document → List PaperFile
as_file none = []
as_file (some d) = markdown d ∷ []

-- `paper_has_invalidation_and_max_loss`
unfoldable pub paper_has_invalidation_and_max_loss : Workspace → Bool
unfolding any_complete paper_file_complete
paper_has_invalidation_and_max_loss w = any_complete (as_file w.paper_trade ++ w.paper_files)

-- `_has_paper`
abbrev pub has_paper : Workspace → Bool
has_paper w = exists w.paper_trade || nonempty w.paper_files

-- The status of one artifact, under the first of its labels that gives a token.
thesis_token : Document → Result GateError String
thesis_token d = do
  token ← first_token (get_field d "Status / version")
  if truthy (some token) then ok token else first_token (get_field d "Status")

abbrev token_of : Option Document → (Document → Result GateError String) → Result GateError String
token_of none read = ok ""
token_of (some d) read = read d

-- `read_status`
unfoldable pub read_status : Workspace → Result GateError (Option String)
unfolding thesis_token
read_status w = do
  token ← token_of w.thesis thesis_token
  intent_token ←
      if truthy (some token)
      then ok ""
      else token_of w.intent (λ d. first_token (get_field d "Status"))
  if truthy (some token)
      then ok (some token)
      else if truthy (some intent_token)
      then ok (some intent_token)
      else ok none

abbrev field_of : Option Document → String → Option String
field_of none f = none
field_of (some d) f = get_field d f

-- `read_author_role`
unfoldable pub read_author_role : Workspace → String
read_author_role w =
    let author = field_of w.thesis "Author role" in
    let owner = field_of w.intent "Owner" in
    if truthy author
    then text_or_empty author
    else if truthy owner
    then text_or_empty owner
    else "Research"

has_bar : String → Bool
has_bar String.[] = false
has_bar (String.◌∷◌ c s) = (leb b'|' (code c) && leb (code c) b'|') || has_bar s

verdict_token : Option String → Result GateError (Option SkepticVerdict)
unfolding has_bar
verdict_token raw =
    if not (truthy raw) || has_bar (text_or_empty raw)
    then ok none
    else (first_token raw >>= λ token. ok (parse_verdict token))

-- `recorded_skeptic_verdict`
unfoldable pub recorded_skeptic_verdict : Workspace → Result GateError (Option SkepticVerdict)
unfolding verdict_token
recorded_skeptic_verdict w = verdict_token (field_of w.review "Verdict")
