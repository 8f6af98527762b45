-- ===== src/Desks/Receipts/Names.antt =====
-- The safe part of a file name: `_SAFE_ID.sub("_", text).strip("._")`.
pub mod Laws
use market_memory.Prelude.{ℕ, Bool, true, false, ◌&&◌, ◌||◌, String, ◌==◌, leb, if◌then◌else◌}
use Prim.Native.Char.{Char, code}

-- The class of _SAFE_ID: letters, digits, dot, underline and dash.
unfoldable pub is_safe : Char → Bool
is_safe c =
    (leb b'A' (code c) && leb (code c) b'Z')
    || ((leb b'a' (code c) && leb (code c) b'z')
        || ((leb b'0' (code c) && leb (code c) b'9')
            || (code c == b'.' || (code c == b'_' || code c == b'-'))))

unfoldable pub is_mark : Char → Bool
is_mark c = code c == b'.' || code c == b'_'

-- The substitution; the flag says that a run of other characters has begun.
unfoldable pub sub_from : Bool → String → String
sub_from inside String.[] = String.[]
sub_from inside (String.◌∷◌ c s) =
    let plain = String.◌∷◌ c (sub_from false s) in
    let opened = String.◌∷◌ "_" (sub_from true s) in
    let skipped = sub_from true s in if is_safe c then plain else if inside then skipped else opened

unfoldable pub lstrip_marks : String → String
lstrip_marks String.[] = String.[]
lstrip_marks (String.◌∷◌ c s) =
    let rest = lstrip_marks s in if is_mark c then rest else String.◌∷◌ c s

abbrev pub no_text : String → Bool
no_text String.[] = true
no_text (String.◌∷◌ _ _) = false

unfoldable pub rstrip_marks : String → String
rstrip_marks String.[] = String.[]
rstrip_marks (String.◌∷◌ c s) =
    let rest = rstrip_marks s in if no_text rest && is_mark c then String.[] else String.◌∷◌ c rest

unfoldable pub safe_id : String → String
unfolding sub_from lstrip_marks rstrip_marks is_safe is_mark
safe_id s = rstrip_marks (lstrip_marks (sub_from false s))
