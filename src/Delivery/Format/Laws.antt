-- ===== src/Delivery/Format/Laws.antt =====
-- The split of an escaped text keeps every character.
use Prim.Native.String.{◌++◌ as append}
use Prim.Native.Char.{Char, code}
use text.Mathlib.TextLemmas.{nil-append, cons-append, append-nil, append_assoc}
use market_memory.Prelude.{
  ℕ, zero, suc, ◌+◌, ◌≡◌, ◌≤◌, refl, ap, sym, ◌∙◌, true, List, [], ◌∷◌, String, arith, Bool-cases,
  inl, inr, truthy, some, ltb, ◌==◌,
}
use market_memory.Delivery.Format.{
  text_length, take_text, drop_text, drop_backslash, next_piece, split_from, split_escaped, cut_of,
  window_of,
}

-- A text is the head of another.
record IsHead (p s : String) : Type 0 where
  pub tail : String
  pub whole : append p tail ≡ s

all-IsHead : (s : String) → IsHead s s
all-IsHead s = record { tail = String.[]; whole = append-nil s }

cons-IsHead : (c : _) {p s : String} → IsHead p s → IsHead (String.◌∷◌ c p) (String.◌∷◌ c s)
cons-IsHead c {p} h = record {
  tail = h.tail;
  whole = cons-append c p h.tail ∙ ap (λ t. String.◌∷◌ c t) h.whole;
}

IsHead-trans : {p q s : String} → IsHead p q → IsHead q s → IsHead p s
IsHead-trans {p} h k = record {
  tail = append h.tail k.tail;
  whole = sym (append_assoc p h.tail k.tail) ∙ ap (λ t. append t k.tail) h.whole ∙ k.whole;
}

nil-IsHead : (s : String) → IsHead String.[] s
nil-IsHead s = record { tail = s; whole = nil-append s }

take_text-IsHead : (n : ℕ) (s : String) → IsHead (take_text n s) s
unfolding take_text
take_text-IsHead zero s = nil-IsHead s
take_text-IsHead (suc n) String.[] = nil-IsHead String.[]
take_text-IsHead (suc n) (String.◌∷◌ c s) = cons-IsHead c (take_text-IsHead n s)

drop_backslash-IsHead : (s : String) → IsHead (drop_backslash s) s
unfolding drop_backslash
drop_backslash-IsHead String.[] = nil-IsHead String.[]
drop_backslash-IsHead (String.◌∷◌ c String.[]) = elim (Bool-cases (code c == 92)) [
  | inl h ↦ rw (drop_backslash, h) (nil-IsHead (String.◌∷◌ c String.[]))
  | inr h ↦ rw (drop_backslash, h) (all-IsHead (String.◌∷◌ c String.[]))
]
drop_backslash-IsHead (String.◌∷◌ c (String.◌∷◌ d s)) =
    cons-IsHead c (drop_backslash-IsHead (String.◌∷◌ d s))

window_of-IsHead : (budget : ℕ) (rest : String) → IsHead (window_of budget rest) rest
window_of-IsHead budget rest = elim (Bool-cases (ltb budget (text_length rest))) [
  | inl h ↦
      let window = take_text budget rest in
      rw h (
        IsHead-trans (take_text-IsHead (cut_of budget window) window)
          (take_text-IsHead budget rest))
  | inr h ↦ rw h (all-IsHead rest)
]

next_piece-IsHead : (budget : ℕ) (rest : String) → IsHead (next_piece budget rest) rest
unfolding next_piece
next_piece-IsHead budget rest =
    let piece = drop_backslash (window_of budget rest) in
    elim (Bool-cases (truthy (some piece))) [
      | inl h ↦
          rw (next_piece, h)
            (IsHead-trans (drop_backslash-IsHead (window_of budget rest))
              (window_of-IsHead budget rest))
      | inr h ↦ rw (next_piece, h) (take_text-IsHead 1 rest)
    ]

-- A text with a character.
abbrev IsFull : String → Type 0
IsFull s = truthy (some s) ≡ true

next_piece-IsFull :
    (budget : ℕ) (c : Char) (s : String) → IsFull (next_piece budget (String.◌∷◌ c s))
unfolding next_piece take_text
next_piece-IsFull budget c s =
    let piece = drop_backslash (window_of budget (String.◌∷◌ c s)) in
    elim (Bool-cases (truthy (some piece))) [
      | inl h ↦ rw (next_piece, h) h
      | inr h ↦ rw (next_piece, h) refl
    ]

drop_text-append : (p q : String) → drop_text (text_length p) (append p q) ≡ q
unfolding drop_text text_length
drop_text-append String.[] q = nil-append q
drop_text-append (String.◌∷◌ c p) q =
    ap (drop_text (suc (text_length p))) (cons-append c p q) ∙ drop_text-append p q

text_length-append : (p q : String) → text_length (append p q) ≡ text_length p + text_length q
unfolding text_length
text_length-append String.[] q = ap text_length (nil-append q) ∙ omega arith
text_length-append (String.◌∷◌ c p) q =
    ap text_length (cons-append c p q) ∙ omega (arith, text_length-append p q)

full-pos : (s : String) → IsFull s → 1 ≤ text_length s
unfolding text_length
full-pos String.[] h = ground arith
full-pos (String.◌∷◌ c s) h = omega arith

unfoldable pub joined : List String → String
joined [] = String.[]
joined (piece ∷ pieces) = append piece (joined pieces)

joined-split_from :
    (fuel budget : ℕ) (rest : String)
    → text_length rest ≤ fuel
    → joined (split_from fuel budget rest) ≡ rest
unfolding joined split_from text_length
joined-split_from zero budget String.[] h = refl
joined-split_from zero budget (String.◌∷◌ c s) h = absurd (omega (arith, h))
joined-split_from (suc fuel) budget String.[] h = refl
joined-split_from (suc fuel) budget (String.◌∷◌ c s) h =
    let rest = String.◌∷◌ c s in
    let piece = next_piece budget rest in
    let head = next_piece-IsHead budget rest in
    let dropped : drop_text (text_length piece) rest ≡ head.tail =
      ap (drop_text (text_length piece)) (sym head.whole) ∙ drop_text-append piece head.tail in
    let total = text_length-append piece head.tail in
    let pos = full-pos piece (next_piece-IsFull budget c s) in
    let same = ap text_length head.whole in
    let short : text_length (drop_text (text_length piece) rest) ≤ fuel =
      rw dropped (omega (arith, total, pos, same, h)) in
    ap (append piece)
      (joined-split_from fuel budget (drop_text (text_length piece) rest) short ∙ dropped)
    ∙ head.whole

-- The pieces that _split_escaped makes of a text, joined in their order, are the text.
pub joined-split_escaped :
    (budget : ℕ) (escaped : String) → joined (split_escaped budget escaped) ≡ escaped
unfolding split_escaped
joined-split_escaped budget escaped =
    joined-split_from (text_length escaped) budget escaped (omega arith)
