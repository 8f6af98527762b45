-- ===== src/Desks/Receipts/Checks.antt =====
-- What the checks of a receipt let through.
use market_memory.Prelude.{
  none, some, String, ◌≡◌, refl, arith, inl, inr, Result, ok, err, ◌>>=◌, ◌>>◌, Result-cases,
  Option-cases, ok_injective, sym,
}
use market_memory.Prelude.Dict.{Dict, lookup}
use market_memory.Desks.Receipts.{
  object, text_or_empty, Platform, Json, validate_receipt_payload, validate_deadman, load_receipt,
  anchor_utc, Files, decide_at, already_delivered, proceed,
}

then_ok :
    {E W : Type 0} (m : Result E (Unit {0})) (next : Result E W) {w : W}
    → (m >> next) ≡ ok w
    → next ≡ ok w
then_ok (ok tt) next h = h
then_ok (err e) next h = ground arith

pub bind_ok :
    {E V W : Type 0} (m : Result E V) (next : V → Result E W) {w : W}
    → (m >>= next) ≡ ok w
    → (v : V) × (m ≡ ok v) × (next v ≡ ok w)
bind_ok (ok v) next h = (v, refl, h)
bind_ok (err e) next h = absurd (ground arith)

-- A payload that passes is returned as it is.
pub validated_same :
    (p : Platform) (raw : Dict Json) {raw' : Dict Json}
    → validate_receipt_payload p raw ≡ ok raw'
    → raw' ≡ raw
unfolding validate_receipt_payload
validated_same p raw h =
    let (at, _, k) =
      bind_ok (anchor_utc p (text_or_empty p (lookup "scheduled_anchor_ts" raw))) _
        (then_ok _ _ h) in
    sym (ok_injective (then_ok (validate_deadman p raw) (ok raw) k))

-- A file with a payload that passes says that the anchor was delivered.
pub decided :
    (p : Platform) (files : Files) (name : String) (raw : Dict Json)
    → lookup name files ≡ some (object raw)
    → validate_receipt_payload p raw ≡ ok raw
    → decide_at p files name ≡ ok already_delivered
unfolding decide_at load_receipt
decided p files name raw f v = rw (f, decide_at, v) refl

-- The decision to proceed means that there is no file.
pub proceeded :
    (p : Platform) (files : Files) (name : String)
    → decide_at p files name ≡ ok proceed
    → lookup name files ≡ none
unfolding decide_at
proceeded p files name h = elim (Option-cases (lookup name files)) [
  | inl n ↦ n
  | inr (c, f) ↦ elim (Result-cases (load_receipt p c)) [
    | inl (e, l) ↦ absurd (ground arith)
    | inr (raw, l) ↦ absurd (ground arith)
  ]
]
