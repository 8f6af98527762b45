-- ===== src/Ingest/Licence/Laws.antt =====
-- What may be published, and what the invariants of the settings give.
use market_memory.Prelude.{
  strip, Bool, true, false, ◌&&◌, not, none, some, List, [], ◌∷◌, String, str_eq, text_in, ◌≡◌, ◌≢◌,
  refl, arith, eq_iff, inl, inr, Bool-cases, List-cases, ap, sym, ◌∙◌, lower, contains,
}
use mathlib.Core.Option.{some_inj}
use market_memory.Prelude.Dict.{lookup, lookup-insert_self, lookup-insert_ne}
use market_memory.Prelude.Members.{Memᴰ}
use market_memory.Prelude.Members.Memᴰ
use market_memory.Ingest.Licence.{
  underlined, unaliased, Settings, publishable, required_adapters, normalize_verdict, field,
  adapter_block, block_for, verdict_for, may_publish_value, missing_adapters,
  assert_licence_invariants, rule_of, Cell, null, text, Row, source_of, published,
  filter_published_values,
}

-- A published row's value, and the licence of its source.
pub record IsPublished (source_key value_key : String) (s : Settings) (rows : List Row) (out : Row)
    (v : Cell) : Type 0 where
  pub raw : Row
  pub known : Memᴰ raw rows
  pub value : lookup value_key raw ≡ some v
  pub verdict : String
  pub stamped : lookup "licence_verdict" out ≡ some (text verdict)
  pub own :
      verdict ≡ normalize_verdict (field "licence_verdict" (block_for (source_of source_key raw) s))
  pub licensed : text_in verdict publishable ≡ true

module _ (source_key value_key : String) (s : Settings)
    (plain : text_in value_key ("value_redacted" ∷ "redact_reason" ∷ "licence_verdict" ∷ [])
      ≡ false) where
  published-value :
      (raw : Row) (v : Cell)
      → lookup value_key (published source_key value_key s raw) ≡ some v
      → v ≢ null
      → (may_publish_value (source_of source_key raw) s ≡ true) × (lookup value_key raw ≡ some v)
  unfolding published
  published-value raw v h n =
      let h' = sym (lookup-insert_ne "licence_verdict" _ _ value_key (ground arith)) ∙ h in
      elim (Bool-cases (may_publish_value (source_of source_key raw) s)) [
        | inl p ↦
            (p, sym (lookup-insert_ne "value_redacted" _ raw value_key (ground arith)) ∙ rw p at h')
        | inr p ↦ absurd (
            n (
              some_inj.0 (
                sym (rw p at h')
                ∙ lookup-insert_ne "redact_reason" _ _ value_key (ground arith)
                ∙ lookup-insert_ne "value_redacted" _ _ value_key (ground arith)
                ∙ lookup-insert_self value_key null raw)))
      ]

  -- If the key of the values is none of those that the filter writes, and a row that
  -- filter_published_values returns has a value that is not null, then it is the value of one of
  -- the rows given, the licence verdict in the row is the one that the settings record for that
  -- row's source, and it is ok_gov or ok_attr.
  pub filter_published_values-IsPublished :
      (rows : List Row) (out : Row) (v : Cell)
      → Memᴰ out (filter_published_values source_key value_key s rows)
      → lookup value_key out ≡ some v
      → v ≢ null
      → IsPublished source_key value_key s rows out v
  unfolding filter_published_values may_publish_value verdict_for published
  filter_published_values-IsPublished rows out v m h n =
      let (raw, k, e) = Memᴰ.of_map (published source_key value_key s) rows m in
      let (p, f) = published-value raw v (rw (← e) at h) n in
      record {
        raw = raw;
        known = k;
        value = f;
        verdict = (verdict_for (source_of source_key raw) s).verdict;
        stamped = rw (← e) (lookup-insert_self "licence_verdict" _ _);
        own = refl;
        licensed = p;
      }

none-ne-some : {A : Type 0} {a : A} → none ≡ some a → ⊥
none-ne-some h = ground arith

not-true : ◌≡◌ {A = Bool} false true → ⊥
not-true h = ground arith

missing-recorded :
    (s : Settings) (names : List String) {name : String}
    → missing_adapters s names ≡ []
    → Memᴰ name names
    → str_eq (normalize_verdict (field "licence_verdict" (adapter_block name s))) "missing" ≡ false
unfolding missing_adapters
missing-recorded s [] h m = absurd (Memᴰ.not-nil m)
missing-recorded s (n ∷ names) h (Memᴰ.head e) =
    rw e
      (elim (Bool-cases
        (str_eq (normalize_verdict (field "licence_verdict" (adapter_block n s))) "missing")) [
          | inl t ↦ absurd (ground arith)
          | inr t ↦ t
        ])
missing-recorded s (n ∷ names) h (Memᴰ.tail m) =
    missing-recorded s names
      (elim (Bool-cases
        (str_eq (normalize_verdict (field "licence_verdict" (adapter_block n s))) "missing")) [
          | inl t ↦ absurd (ground arith)
          | inr t ↦ rw t at h
        ])
      m

invariants-recorded :
    (s : Settings) → assert_licence_invariants s ≡ none → missing_adapters s required_adapters ≡ []
unfolding assert_licence_invariants
invariants-recorded s h = elim (List-cases (missing_adapters s required_adapters)) [
  | inl e ↦ e
  | inr (name, names, e) ↦
      elim (Bool-cases (
        not (contains "Sources" (rule_of s))
        && not (contains "prohibit redistribution" (lower (rule_of s))))) [
          | inl r ↦ absurd ((ground arith))
          | inr r ↦ absurd ((ground arith))
        ]
]

unrecorded : str_eq (normalize_verdict (field "licence_verdict" [])) "missing" ≡ false → ⊥
unfolding normalize_verdict field lookup unaliased underlined lower strip
unrecorded h = not-true (sym h)

-- If assert_licence_invariants does not raise, then verdict_for of each required adapter gives the
-- verdict that is recorded next to that adapter, and it is not missing.
pub required_recorded :
    (s : Settings) (name : String)
    → assert_licence_invariants s ≡ none
    → Memᴰ name required_adapters
    → ((verdict_for name s).verdict
        ≡ normalize_verdict (field "licence_verdict" (adapter_block name s)))
      × ((verdict_for name s).verdict ≢ "missing")
unfolding verdict_for block_for
required_recorded s name h m =
    let recorded = missing-recorded s required_adapters (invariants-recorded s h) m in
    elim (List-cases (adapter_block name s)) [
      | inl e ↦ absurd (unrecorded (rw e at recorded))
      | inr (entry, rest, e) ↦
          let same : block_for name s ≡ adapter_block name s = rw (e, block_for) refl in
          (
            ap (λ b. normalize_verdict (field "licence_verdict" b)) same,
            λ q. not-true (
                sym recorded
                ∙ (eq_iff _ "missing").1
                    (sym (ap (λ b. normalize_verdict (field "licence_verdict" b)) same) ∙ q)),
          )
    ]
