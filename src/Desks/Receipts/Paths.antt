-- ===== src/Desks/Receipts/Paths.antt =====
-- packages/desks/src/mm_desks/deliver_receipt.py: the paths of receipts in the repository. A path
-- relative to the root, as_posix, is its parts; pathlib resolves it, and there is none for a path
-- outside the root.
use Prim.Native.String.{◌++◌ as append}
use text.Mathlib.TextLemmas.{nil-append, cons-append}
use market_memory.Prelude.{
  or-true, Bool, true, false, ◌&&◌, ◌||◌, not, Option, none, some, List, [], ◌∷◌, ◌++◌, String,
  str_eq, if◌then◌else◌, Result, ok, err, ◌≡◌, refl,
}
use market_memory.Desks.Receipts.{ReceiptError, outside}

-- `RECEIPTS_REL`
abbrev pub receipts_rel : List String
receipts_rel = "ops" ∷ "reports" ∷ "scheduler" ∷ "completions" ∷ "receipts" ∷ []

-- `rel.startswith(prefix)`, where the prefix ends with a slash.
unfoldable pub under : List String → List String → Bool
under [] [] = false
under [] (x ∷ xs) = true
under (p ∷ ps) [] = false
under (p ∷ ps) (x ∷ xs) = str_eq p x && under ps xs

-- `Path(rel).name`
unfoldable pub last_part : List String → String
last_part [] = ""
last_part (x ∷ []) = x
last_part (x ∷ y ∷ parts) = last_part (y ∷ parts)

-- `endswith(".deliver.json")`, of the last part, as no part has a slash.
unfoldable pub is_deliver : String → Bool
is_deliver String.[] = false
is_deliver (String.◌∷◌ c s) = str_eq (String.◌∷◌ c s) ".deliver.json" || is_deliver s

-- `relative_receipt_path`
unfoldable pub relative_receipt_path : Option (List String) → Result ReceiptError (List String)
relative_receipt_path none = err outside
relative_receipt_path (some rel) =
    if not (under receipts_rel rel) || not (is_deliver (last_part rel)) then err outside else ok rel

is_deliver-append : (s t : String) → is_deliver t ≡ true → is_deliver (append s t) ≡ true
unfolding is_deliver
is_deliver-append String.[] t h = rw (nil-append t) h
is_deliver-append (String.◌∷◌ c s) t h =
    rw (cons-append c s t) (or-true _ (is_deliver-append s t h))

pub deliver_suffix :
    (safe compact : String)
    → is_deliver (append safe (append "__" (append compact ".deliver.json"))) ≡ true
unfolding is_deliver
deliver_suffix safe compact =
    is_deliver-append safe (append "__" (append compact ".deliver.json")) (
      is_deliver-append "__" (append compact ".deliver.json")
        (is_deliver-append compact ".deliver.json" refl))

-- A file of the receipts' directory.
pub in_receipts :
    (name : String)
    → is_deliver name ≡ true
    → relative_receipt_path (some (receipts_rel ++ name ∷ [])) ≡ ok (receipts_rel ++ name ∷ [])
unfolding relative_receipt_path under last_part
in_receipts name h = rw h refl

pub last_of_receipts : (name : String) → last_part (receipts_rel ++ name ∷ []) ≡ name
unfolding last_part
last_of_receipts name = refl
