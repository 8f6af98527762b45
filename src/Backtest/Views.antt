-- ===== src/Backtest/Views.antt =====
-- packages/backtest/src/mm_backtest/{bars,pit}.py: bars, facts and the view of what is known at an
-- instant. Prices are a parameter; an instant is a number.
pub mod Laws
use market_memory.Prelude.Dict.{Dict}
use market_memory.Prelude.{
  ℕ, Bool, true, false, Option, none, some, List, [], ◌∷◌, String, leb, ltb, if◌then◌else◌, Result,
  ok, err,
}

-- `Bar`, its field `open` under the name open_price.
pub record Bar (D : Type 0) : Type 0 where
  pub instrument : String
  pub market_time : ℕ
  pub available_at : ℕ
  pub open_price : D
  pub high : D
  pub low : D
  pub close : D
  pub volume : D
  pub interval : String

-- `KnowledgeFact`, its payload's values as texts.
pub record KnowledgeFact : Type 0 where
  pub id : String
  pub ingested_at : ℕ
  pub instrument : Option String
  pub claim_text : String
  pub payload : Dict String

pub data PointInTimeError : Type 0 where
  future_bars_hidden future_observations_hidden : PointInTimeError

module _ {D : Type 0} where
  unfoldable pub visible_bars : List (Bar D) → ℕ → List (Bar D)
  visible_bars [] as_of = []
  visible_bars (bar ∷ bars) as_of =
      let rest = visible_bars bars as_of in if leb bar.available_at as_of then bar ∷ rest else rest

unfoldable pub visible_facts : List KnowledgeFact → ℕ → List KnowledgeFact
visible_facts [] as_of = []
visible_facts (fact ∷ facts) as_of =
    let rest = visible_facts facts as_of in if leb fact.ingested_at as_of then fact ∷ rest else rest

-- `PointInTimeView`
pub record View (D : Type 0) : Type 0 where
  pub as_of : ℕ
  pub instrument : String
  pub bars : List (Bar D)
  pub facts : List KnowledgeFact

module _ {D : Type 0} where
  -- `PointInTimeView.at`
  unfoldable pub view_at : ℕ → String → List (Bar D) → List KnowledgeFact → View D
  view_at as_of instrument bars facts = record {
    as_of = as_of;
    instrument = instrument;
    bars = visible_bars bars as_of;
    facts = visible_facts facts as_of;
  }

  unfoldable pub last_bar : List (Bar D) → Option (Bar D)
  last_bar [] = none
  last_bar (bar ∷ []) = some bar
  last_bar (bar ∷ next ∷ bars) = last_bar (next ∷ bars)

  -- `PointInTimeView.last`
  unfoldable pub last : View D → Option (Bar D)
  last view = last_bar view.bars

  -- The loop of bar_at_or_before.
  unfoldable pub choose : ℕ → List (Bar D) → Option (Bar D) → Option (Bar D)
  choose watermark [] chosen = chosen
  choose watermark (bar ∷ bars) chosen =
      choose watermark bars (if leb bar.available_at watermark then some bar else chosen)

  -- `PointInTimeView.bar_at_or_before`
  unfoldable pub bar_at_or_before : View D → ℕ → Result PointInTimeError (Option (Bar D))
  bar_at_or_before view ts =
      if ltb view.as_of ts then err future_bars_hidden else ok (choose ts view.bars none)

  pub future_bars : View D → Result PointInTimeError (List (Bar D))
  future_bars view = err future_bars_hidden

  pub future_observations : View D → Result PointInTimeError (List KnowledgeFact)
  future_observations view = err future_observations_hidden
