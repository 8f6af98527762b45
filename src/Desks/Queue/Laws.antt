-- ===== src/Desks/Queue/Laws.antt =====
-- What an answer of the queue rests on.
use market_memory.Prelude.{
  Bool-cases, inr, inl, ◌≡◌, refl, ap, true, false, Bool, none, some, List, [], ◌∷◌, ◌++◌, String,
  str_eq, not, ◌&&◌, eq_iff, arith, Option-cases, text_in,
}
use market_memory.Desks.Queue.{
  QueueItem, Kind, QueueReport, QueueError, may_start, implementation, find_item, other_ids,
  can_start, check_queue, check_items, item_errors, is_implementation, statuses,
  implementation_in_progress, incident, in_progress, report_if, cites_run_id,
}

-- What can_start finds of an item that may start.
pub record IsReady (item_id : String) (report : QueueReport) : Type 0 where
  pub target : QueueItem
  pub found : find_item item_id report.items ≡ some target
  pub is_work : target.kind ≡ implementation
  pub status : target.status ≡ "READY"
  pub alone : other_ids item_id report.in_progress_ids ≡ []
  pub clean : report.errors ≡ []

pub can_start-IsReady :
    (item_id : String) (report : QueueReport)
    → can_start item_id report ≡ may_start
    → IsReady item_id report
unfolding can_start
can_start-IsReady item_id report h = elim (Option-cases (find_item item_id report.items)) [
  | inl e ↦ ground arith
  | inr (t, e) ↦ record {
    target = t;
    found = e;
    is_work = ground arith;
    status = ground (arith, eq_iff t.status "READY");
    alone = ground arith;
    clean = ground arith;
  }
]

++-nil : (xs ys : List QueueError) → xs ++ ys ≡ [] → (xs ≡ []) × (ys ≡ [])
++-nil [] ys h = (refl, h)
++-nil (x ∷ xs) ys h = ground arith

report_if-nil : (c : Bool) (e : QueueError) → report_if c e ≡ [] → c ≡ false
report_if-nil c e h = ground arith

not-false : (b : Bool) → not b ≡ false → b ≡ true
not-false b h = ground arith

closed_cites :
    (k : Kind) (closed cited : Bool)
    → (not (is_implementation k) && closed && not cited) ≡ false
    → k ≡ incident
    → closed ≡ true
    → cited ≡ true
closed_cites k closed cited h i c = ground arith

-- What an item without errors is.
record IsClean (seen : List String) (i : QueueItem) : Type 0 where
  pub new : text_in i.item_id seen ≡ false
  pub known : text_in i.status statuses ≡ true
  pub cited : i.kind ≡ incident → i.status ≡ "CLOSED" → cites_run_id i.fields ≡ true

item_errors-IsClean :
    (seen : List String) (i : QueueItem) → item_errors seen i ≡ [] → IsClean seen i
unfolding item_errors
item_errors-IsClean seen i h =
    let (a, h₁) = ++-nil _ _ h in
    let (b, h₂) = ++-nil _ _ h₁ in
    let (c, h₃) = ++-nil _ _ h₂ in
    let (d, h₄) = ++-nil _ _ h₃ in
    let b' =
      report_if-nil (not (text_in i.status statuses)) (QueueError.unknown_status i.item_id) b in
    let e' =
      report_if-nil
        (not (is_implementation i.kind) && str_eq i.status "CLOSED" && not (cites_run_id i.fields))
        (QueueError.closed_without_run_id i.item_id) h₄ in
    record {
      new = report_if-nil (text_in i.item_id seen) (QueueError.duplicate_id i.item_id) a;
      known = not-false (text_in i.status statuses) b';
      cited = λ k s.
          closed_cites i.kind (str_eq i.status "CLOSED") (cites_run_id i.fields) e' k
            (ap (λ t. str_eq t "CLOSED") s);
    }

ready_idle : (t : QueueItem) → t.status ≡ "READY" → in_progress t ≡ false
ready_idle t h =
    let e : str_eq t.status "IN_PROGRESS" ≡ false = ap (λ s. str_eq s "IN_PROGRESS") h in
    ground arith

module _ (item_id : String) where
  seen_not_found :
      (seen : List String) (items : List QueueItem)
      → text_in item_id seen ≡ true
      → check_items seen items ≡ []
      → find_item item_id items ≡ none
  unfolding check_items find_item
  seen_not_found seen [] s h = refl
  seen_not_found seen (i ∷ is) s h =
      let (a, b) = ++-nil _ _ h in
      let c = item_errors-IsClean seen i a in
      let rest = seen_not_found (i.item_id ∷ seen) is (ground arith) b in
      ground (arith, c.new, eq_iff i.item_id item_id)

  not_found_slot :
      (items : List QueueItem)
      → find_item item_id items ≡ none
      → other_ids item_id (implementation_in_progress items) ≡ []
      → implementation_in_progress items ≡ []
  unfolding find_item implementation_in_progress other_ids
  not_found_slot [] f o = refl
  not_found_slot (i ∷ is) f o = ground (arith, not_found_slot is, eq_iff i.item_id item_id)

  found_slot :
      (seen : List String) (items : List QueueItem) (t : QueueItem)
      → check_items seen items ≡ []
      → find_item item_id items ≡ some t
      → in_progress t ≡ false
      → other_ids item_id (implementation_in_progress items) ≡ []
      → implementation_in_progress items ≡ []
  unfolding check_items find_item implementation_in_progress other_ids
  found_slot seen [] t h f p o = refl
  found_slot seen (i ∷ is) t h f p o =
      let (a, b) = ++-nil _ _ h in
      ground (
        arith,
        eq_iff i.item_id item_id,
        not_found_slot is,
        found_slot (i.item_id ∷ seen) is t b,
        seen_not_found (i.item_id ∷ seen) is,
      )

  found-IsClean :
      (seen : List String) (items : List QueueItem) (t : QueueItem)
      → check_items seen items ≡ []
      → find_item item_id items ≡ some t
      → IsClean [] t
  unfolding check_items find_item
  found-IsClean seen [] t h f = ground arith
  found-IsClean seen (i ∷ is) t h f =
      let (a, b) = ++-nil _ _ h in
      let c = item_errors-IsClean seen i a in
      elim (Bool-cases (str_eq i.item_id item_id)) [
        | inl e ↦ record {
          new = refl;
          known = ground (arith, c.known);
          cited = ground (arith, c.cited);
        }
        | inr e ↦ found-IsClean (i.item_id ∷ seen) is t b (ground arith)
      ]

  -- If can_start lets an item of a checked queue start, then no implementation item of the queue
  -- is IN_PROGRESS.
  pub can_start_takes_free_slot :
      (items : List QueueItem)
      → can_start item_id (check_queue items) ≡ may_start
      → implementation_in_progress items ≡ []
  unfolding check_queue
  can_start_takes_free_slot items h =
      let r = can_start-IsReady item_id (check_queue items) h in
      let (a, _) = ++-nil _ _ r.clean in
      found_slot [] items r.target a r.found (ready_idle r.target r.status) r.alone

  -- If check_queue reports no error, then an item that is found by its id has a known status, and
  -- a CLOSED incident cites a run_id.
  pub clean_queue :
      (items : List QueueItem) (t : QueueItem)
      → (check_queue items).errors ≡ []
      → find_item item_id items ≡ some t
      → (text_in t.status statuses ≡ true)
        × (t.kind ≡ incident → t.status ≡ "CLOSED" → cites_run_id t.fields ≡ true)
  unfolding check_queue
  clean_queue items t h f =
      let (a, _) = ++-nil _ _ h in let c = found-IsClean [] items t a f in (c.known, c.cited)
