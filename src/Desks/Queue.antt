-- ===== src/Desks/Queue.antt =====
-- packages/desks/src/mm_desks/queue.py: the improvement queue. A line of the file is what its
-- regular expressions find in it: a heading with its token, a row of a field, or neither.
pub mod Laws
use Prim.Native.Char.{code}
use Prim.Native.String.{◌++◌ as append}
use market_memory.Prelude.{
  ℕ, Bool, true, false, ◌&&◌, ◌||◌, not, Option, none, some, List, [], ◌∷◌, ◌++◌, String, str_eq,
  text_in, if◌then◌else◌, strip, lower, norm, truthy, leb, contains, starts_with, is_none,
}
use market_memory.Prelude.Dict.{Dict, lookup, insert}

pub data Kind : Type 0 where
  implementation incident : Kind

pub record QueueItem : Type 0 where
  pub item_id : String
  pub status : String
  pub desk : String
  pub owner : String
  pub fields : Dict String
  pub kind : Kind

pub data Line : Type 0 where
  heading : String → Line
  field : String → String → Line
  other : Line

all_digits : String → Bool
all_digits String.[] = true
all_digits (String.◌∷◌ c s) = (leb b'0' (code c) && leb (code c) b'9') && all_digits s

-- The text behind a prefix.
after : String → String → Option String
after String.[] s = some s
after (String.◌∷◌ c p) String.[] = none
after (String.◌∷◌ c p) (String.◌∷◌ d s) =
    let rest = after p s in if leb (code c) (code d) && leb (code d) (code c) then rest else none

-- `_kind_for`, with `IMP_RE`
unfoldable pub kind_for : String → Kind
unfolding all_digits after
kind_for item_id = elim (after "IMP-" item_id) [
  | none ↦ incident
  | some digits ↦ if truthy (some digits) && all_digits digits then implementation else incident
]

abbrev pub get_text : Dict String → String → String
get_text d k = elim (lookup k d) [ none ↦ "" | some v ↦ strip v ]

-- The item that `flush` appends.
unfoldable pub item_of : String → Dict String → QueueItem
item_of current_id fields = record {
  item_id = current_id;
  status = get_text fields "Status";
  desk = get_text fields "Desk";
  owner = get_text fields "Owner";
  fields = fields;
  kind = kind_for current_id;
}

-- `flush`, at the head of what follows.
abbrev flush : String → Dict String → List QueueItem → List QueueItem
flush current_id fields rest =
    if truthy (some current_id) then item_of current_id fields ∷ rest else rest

abbrev field_id : String → String → String → String
field_id current_id key value = if str_eq key "ID" && truthy (some value) then value else current_id

-- The loop of `parse_queue` with its current id (empty for none) and fields.
parse_from : String → Dict String → List Line → List QueueItem
parse_from current_id fields [] = flush current_id fields []
parse_from current_id fields (heading token ∷ ls) =
    flush current_id fields (parse_from token (insert "ID" token []) ls)
parse_from current_id fields (field key value ∷ ls) =
    parse_from
      (if truthy (some current_id)
        then field_id current_id (strip key) (strip value)
        else current_id)
      (if truthy (some current_id) then insert (strip key) (strip value) fields else fields) ls
parse_from current_id fields (other ∷ ls) = parse_from current_id fields ls

unfoldable pub parse_queue : List Line → List QueueItem
unfolding parse_from
parse_queue ls = parse_from "" [] ls

-- `STATUSES`
abbrev pub statuses : List String
statuses =
    "OPEN" ∷ "ELIGIBLE" ∷ "CLOSED" ∷ "RETIRED" ∷ "BACKLOG" ∷ "READY" ∷ "IN_PROGRESS" ∷ "IN_REVIEW"
    ∷ "DONE" ∷ "PARKED" ∷ "REJECTED" ∷ "INTAKE_ONLY" ∷ []

-- `REQUIRED_FIELDS`
abbrev pub required_fields : List String
required_fields =
    "ID" ∷ "Priority" ∷ "Type" ∷ "Desk" ∷ "Owner" ∷ "Problem" ∷ "Evidence" ∷ "Proposed outcome"
    ∷ "Definition of done" ∷ "Non-goals" ∷ "Dependencies" ∷ "Risk level" ∷ "Status" ∷ "PR"
    ∷ "Lesson learned" ∷ []

abbrev pub is_implementation : Kind → Bool
is_implementation implementation = true
is_implementation incident = false

abbrev pub in_progress : QueueItem → Bool
in_progress i = is_implementation i.kind && str_eq i.status "IN_PROGRESS"

-- `implementation_in_progress`
unfoldable pub implementation_in_progress : List QueueItem → List String
implementation_in_progress [] = []
implementation_in_progress (i ∷ is) =
    let rest = implementation_in_progress is in if in_progress i then i.item_id ∷ rest else rest

-- The errors of `check_queue`.
pub data QueueError : Type 0 where
  duplicate_id unknown_status missing_fields open_implementation closed_without_run_id :
      String → QueueError
  two_in_progress : List String → QueueError

missing_from : Dict String → List String → List String
missing_from d [] = []
missing_from d (f ∷ fs) =
    let rest = missing_from d fs in if truthy (some (get_text d f)) then rest else f ∷ rest

join_values : Dict String → String
join_values [] = ""
join_values ((_, v) ∷ []) = v
join_values ((_, v) ∷ d) = append v (append " " (join_values d))

unfoldable pub cites_run_id : Dict String → Bool
unfolding contains join_values
cites_run_id d = contains "run_id" (lower (join_values d))

abbrev pub report_if : Bool → QueueError → List QueueError
report_if c e = if c then e ∷ [] else []

abbrev pub has_any : List String → Bool
has_any [] = false
has_any (_ ∷ _) = true

-- The errors of one item, after the ids that were seen.
unfoldable pub item_errors : List String → QueueItem → List QueueError
unfolding missing_from
item_errors seen i =
    report_if (text_in i.item_id seen) (QueueError.duplicate_id i.item_id)
    ++ (report_if (not (text_in i.status statuses)) (QueueError.unknown_status i.item_id)
        ++ (report_if (is_implementation i.kind && has_any (missing_from i.fields required_fields))
              (QueueError.missing_fields i.item_id)
            ++ (report_if (is_implementation i.kind && str_eq i.status "OPEN")
                  (QueueError.open_implementation i.item_id)
                ++ report_if
                    (not (is_implementation i.kind)
                      && str_eq i.status "CLOSED"
                      && not (cites_run_id i.fields))
                    (QueueError.closed_without_run_id i.item_id))))

-- The loop of `check_queue`.
unfoldable pub check_items : List String → List QueueItem → List QueueError
check_items seen [] = []
check_items seen (i ∷ is) = item_errors seen i ++ check_items (i.item_id ∷ seen) is

abbrev pub slot_errors : List String → List QueueError
slot_errors [] = []
slot_errors (a ∷ []) = []
slot_errors (a ∷ b ∷ ids) = QueueError.two_in_progress (a ∷ b ∷ ids) ∷ []

-- `QueueReport` without its warnings.
pub record QueueReport : Type 0 where
  pub items : List QueueItem
  pub in_progress_ids : List String
  pub errors : List QueueError

-- `check_queue` on the parsed items.
unfoldable pub check_queue : List QueueItem → QueueReport
unfolding check_items
check_queue items = record {
  items = items;
  in_progress_ids = implementation_in_progress items;
  errors = check_items [] items ++ slot_errors (implementation_in_progress items);
}

-- The answers of `can_start`.
pub data Answer : Type 0 where
  may_start not_in_queue is_incident already_in_progress intake_only : Answer
  only_ready slot_occupied hygiene_failed : Answer

unfoldable pub find_item : String → List QueueItem → Option QueueItem
find_item item_id [] = none
find_item item_id (i ∷ is) = if str_eq i.item_id item_id then some i else find_item item_id is

unfoldable pub other_ids : String → List String → List String
other_ids item_id [] = []
other_ids item_id (j ∷ js) =
    let rest = other_ids item_id js in if str_eq j item_id then rest else j ∷ rest

abbrev pub has_errors : List QueueError → Bool
has_errors [] = false
has_errors (_ ∷ _) = true

-- `can_start`
unfoldable pub can_start : String → QueueReport → Answer
can_start item_id report = elim (find_item item_id report.items) [
  | none ↦ not_in_queue
  | some target ↦
      if not (is_implementation target.kind)
      then is_incident
      else if str_eq target.status "IN_PROGRESS"
      then already_in_progress
      else if str_eq target.status "INTAKE_ONLY"
      then intake_only
      else if not (str_eq target.status "READY")
      then only_ready
      else if has_any (other_ids item_id report.in_progress_ids)
      then slot_occupied
      else if has_errors report.errors
      then hygiene_failed
      else may_start
]

-- `refuse_forbidden`: true where the action is refused.
unfoldable pub refuse_forbidden : Option String → Bool
refuse_forbidden none = false
refuse_forbidden (some action) =
    truthy (some action)
    && text_in (norm action)
        ("merge" ∷ "waive" ∷ "auto-merge" ∷ "auto-waive" ∷ "close-open" ∷ "promote-live" ∷ [])
