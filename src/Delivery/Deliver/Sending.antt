-- ===== src/Delivery/Deliver/Sending.antt =====
-- When a delivery posts, where to, and how often; what a failed one leaves.
use market_memory.Delivery.Telegram.{record_failed}
use market_memory.Prelude.{
  ℕ, ◌≢◌, ◌∙◌, ◌≡◌, ◌≤◌, ◌+◌, refl, ap, true, false, String, ok, some, arith, inl, inr,
}
use market_memory.Delivery.Config.{principal_dm_chat_id_from_env, env_value, group_env}
use market_memory.Delivery.Dedupe.{DedupeStore, load, seen, remember, prune}
use market_memory.Delivery.Dedupe.Laws.{seen-remember}
use market_memory.Delivery.Gates.{
  Reason, reason_ok, evaluate_send_gates, evaluate_threshold, evaluate_quiet_hours, in_quiet_hours,
}
use market_memory.Delivery.Payload.{
  Services, World, DeliveryPayload, DeliverRequest, build_payload, is_dm,
}
use market_memory.Delivery.Deliver.{deliver, gate_of}
use market_memory.Delivery.Deliver.Loop.{SentTo}
use market_memory.Delivery.Deliver.Laws.{deliver_cases, choose_chat-dm}

-- What the gates found.
pub record IsTimely (r : DeliverRequest) : Type 0 where
  pub threshold : (evaluate_threshold r.settings.thresholds r.kind r.completeness_pct).allow ≡ true
  pub awake :
      r.respect_quiet_hours ≡ true
      → r.settings.quiet_hours.enabled ≡ true
      → let q = r.settings.quiet_hours in in_quiet_hours (q.timezone r.now) q.start q.end ≡ false

gate_of-IsTimely : (r : DeliverRequest) → r.send ≡ true → (gate_of r).allow ≡ true → IsTimely r
unfolding gate_of evaluate_send_gates evaluate_quiet_hours
gate_of-IsTimely r s g = record { threshold = ground arith; awake = λ a b. ground arith }

seen-path : (key : String) (now : ℕ) (s : DedupeStore) → (seen key now (load s)).1.path ≡ s.path
unfolding seen load prune
seen-path key now s = ground arith

module _ (services : Services) (r : DeliverRequest) (w : World) {why : Reason} {w' : World} where
  -- A delivery that posts anything was asked to send, passes the threshold gate, is outside the
  -- enabled quiet hours if it respects them, and posts to a single chat.
  pub posted_gates :
      deliver services r w ≡ ok (why, w')
      → w'.posts ≢ w.posts
      → (r.send ≡ true) × IsTimely r × ((chat_id : String) × SentTo chat_id w.posts w'.posts)
  posted_gates h n = elim (deliver_cases services r w h) [
    | inl held ↦ absurd (n held.0)
    | inr (p, _, c) ↦ (c.asked, gate_of-IsTimely r c.asked c.gated, (c.chat_id, c.posts))
  ]

  -- A delivery with the override TELEGRAM_CHAT_ID_PRINCIPAL_DM that posts anything posts only to
  -- one chat: the id of that variable, which is not the value of TELEGRAM_CHAT_ID.
  pub dm_avoids_group :
      is_dm r ≡ true
      → deliver services r w ≡ ok (why, w')
      → w'.posts ≢ w.posts
      → (chat_id : String) × (principal_dm_chat_id_from_env r.environ ≡ some chat_id)
        × (chat_id ≢ env_value group_env r.environ)
        × SentTo chat_id w.posts w'.posts
  dm_avoids_group dm h n = elim (deliver_cases services r w h) [
    | inl held ↦ absurd (n held.0)
    | inr (p, _, c) ↦ let (a, b) = choose_chat-dm r p dm c.chosen in (c.chat_id, a, b, c.posts)
  ]

  -- A delivery that posts anything and is not reported as sent leaves exactly one more row, which
  -- names its reason, in the sink of failed rows if there is one, and none if there is no sink;
  -- and it does not change the file of the dedupe store.
  pub failure_recorded :
      deliver services r w ≡ ok (why, w')
      → w'.posts ≢ w.posts
      → why ≢ reason_ok
      → (w'.failed_rows ≡ record_failed why w.failed_rows) × (w'.dedupe.path ≡ w.dedupe.path)
  failure_recorded h n f = elim (deliver_cases services r w h) [
    | inl held ↦ absurd (n held.0)
    | inr (p, _, c) ↦ elim c.outcome [
      | inl (e, _) ↦ absurd (f e)
      | inr (_, s, rows) ↦ (rows, ap (λ d. d.path) s ∙ seen-path p.idempotency_key r.now w.dedupe)
    ]
  ]

module _ (key : String) (at now : ℕ) (s : DedupeStore) where
  seen_ttl : (seen key at (load s)).1.ttl_seconds ≡ s.ttl_seconds
  unfolding seen load prune
  seen_ttl = ground arith

  seen_again :
      now ≤ at + s.ttl_seconds
      → (seen key now (load (remember key at (seen key at (load s)).1))).0 ≡ true
  seen_again le = seen-remember key at now (seen key at (load s)).1 (rw seen_ttl le)

-- If one delivery was sent and a second one with the same idempotency key runs in the world it
-- left, no later than the time to live of its dedupe store after it, then the second posts
-- nothing.
pub delivered_once :
    (services : Services) (r r' : DeliverRequest) (w w' w'' : World) (p p' : DeliveryPayload)
    (why : Reason)
    → deliver services r w ≡ ok (reason_ok, w')
    → deliver services r' w' ≡ ok (why, w'')
    → build_payload services r ≡ ok p
    → build_payload services r' ≡ ok p'
    → p'.idempotency_key ≡ p.idempotency_key
    → r'.now ≤ r.now + w.dedupe.ttl_seconds
    → w''.posts ≡ w'.posts
delivered_once services r r' w w' w'' p p' why h h' b b' k le =
    elim (deliver_cases services r' w' h') [
      | inl held ↦ held.0
      | inr (q', d', c') ↦ elim (deliver_cases services r w h) [
        | inl held ↦ absurd (held.1 refl)
        | inr (q, d, c) ↦ elim c.outcome [
          | inl (_, s) ↦
              let e : q'.idempotency_key ≡ q.idempotency_key = ground arith in
              let unseen = rw (s, e) at c'.unseen in
              let again = seen_again q.idempotency_key r.now r'.now w.dedupe le in ground arith
          | inr (n, _, _) ↦ absurd (n refl)
        ]
      ]
    ]
