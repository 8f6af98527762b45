-- ===== src/Delivery/Deliver/Laws.antt =====
-- What a delivery may post, to which chat, and how often.
use market_memory.Prelude.{
  eq_iff, ◌≢◌, ◌∙◌, ◌≡◌, ◌&&◌, if◌then◌else◌, refl, ap, true, false, String, ok, err, arith,
  Bool-cases, Result-cases, inl, inr, ◌⊎◌,
}
use market_memory.Delivery.Dedupe.{load, seen, remember}
use market_memory.Delivery.Config.{principal_dm_chat_id_from_env, env_value, group_env}
use market_memory.Delivery.Gates.{
  evaluate_send_gates, evaluate_threshold, evaluate_quiet_hours, evaluate_quiet_hours,
  evaluate_threshold, Reason, reason_ok, dedupe_hit,
}
use market_memory.Delivery.Deliver.{
  some, evaluate_send_gates, with_files, principal_dm_chat_id_from_env, deliver, choose_chat,
  gate_of, send_payload, deliver_payload, with_store, token_of,
}
use market_memory.Delivery.Payload.{
  is_dm, build_payload, Services, World, DeliveryPayload, DeliverRequest,
}
use market_memory.Delivery.Telegram.{record_failed, send_chunks, send_media}
use market_memory.Delivery.Deliver.Loop.{SentTo, SentTo-trans, chunks-IsRun, media-IsRun}

-- A send posts to its chat, and leaves either the key remembered or one more failed row.
record IsSend (r : DeliverRequest) (payload : DeliveryPayload) (chat_id : String) (w : World)
    (reason : Reason) (w' : World) : Type 0 where
  pub posts : SentTo chat_id w.posts w'.posts
  pub outcome :
      ((reason ≡ reason_ok) × (w'.dedupe ≡ remember payload.idempotency_key r.now w.dedupe))
      ⊎ ((reason ≢ reason_ok)
          × (w'.dedupe ≡ w.dedupe)
          × (w'.failed_rows ≡ record_failed reason w.failed_rows))

send_payload-IsSend :
    (services : Services) (r : DeliverRequest) (payload : DeliveryPayload) (chat_id : String)
    (w : World)
    → let out = send_payload services r payload chat_id w in IsSend r payload chat_id w out.0 out.1
unfolding send_payload
send_payload-IsSend services r payload chat_id w =
    let chunked = send_chunks services (token_of r) payload chat_id payload.chunks w in
    let a = chunks-IsRun services (token_of r) payload chat_id payload.chunks w in
    let pictured = send_media services (token_of r) payload chat_id r.png chunked.1 in
    let b = media-IsRun services (token_of r) payload chat_id r.png chunked.1 in
    elim (Result-cases chunked.0) [
      | inl (e, h) ↦
          rw (send_payload, h)
            (record { posts = a.posts; outcome = inr (a.named e h, a.store, rw h at a.rows) })
      | inr (u, h) ↦ elim (Result-cases pictured.0) [
        | inl (e, k) ↦
            rw (send_payload, h, k)
              (record {
                posts = SentTo-trans a.posts b.posts;
                outcome = inr (
                  b.named e k,
                  b.store ∙ a.store,
                  (rw k at b.rows) ∙ ap (record_failed e) (rw h at a.rows),
                );
              })
        | inr (v, k) ↦
            rw (send_payload, h, k)
              (record {
                posts = SentTo-trans a.posts b.posts;
                outcome =
                    inl (refl, ap (remember payload.idempotency_key r.now) (b.store ∙ a.store));
              })
      ]
    ]

-- What a delivery that reached the send has passed, the chat it posted to, and what it left.
pub record IsCleared (r : DeliverRequest) (payload : DeliveryPayload) (w : World) (reason : Reason)
    (w' : World) : Type 0 where
  pub asked : r.send ≡ true
  pub gated : (gate_of r).allow ≡ true
  pub chat_id : String
  pub chosen : choose_chat r payload ≡ ok chat_id
  pub unseen : (seen payload.idempotency_key r.now (load w.dedupe)).0 ≡ false
  pub posts : SentTo chat_id w.posts w'.posts
  pub outcome :
      let store = (seen payload.idempotency_key r.now (load w.dedupe)).1 in
      ((reason ≡ reason_ok) × (w'.dedupe ≡ remember payload.idempotency_key r.now store))
      ⊎ ((reason ≢ reason_ok)
          × (w'.dedupe ≡ store)
          × (w'.failed_rows ≡ record_failed reason w.failed_rows))

-- A delivery without a send.
abbrev pub IsHeld : World → Reason → World → Type 0
IsHeld w reason w' = (w'.posts ≡ w.posts) × (reason ≢ reason_ok)

gate_reason : (r : DeliverRequest) → (gate_of r).allow ≡ false → (gate_of r).reason ≢ reason_ok
unfolding gate_of evaluate_send_gates evaluate_threshold evaluate_quiet_hours
gate_reason r h e = ground arith

choose_chat-err :
    (r : DeliverRequest) (payload : DeliveryPayload) {e : Reason}
    → choose_chat r payload ≡ err e
    → e ≢ reason_ok
unfolding choose_chat
choose_chat-err r payload c k = ground arith

module _ (services : Services) (r : DeliverRequest) (payload : DeliveryPayload) (w : World) where
  deliver_payload-refused :
      (r.send && (gate_of r).allow) ≡ false
      → IsHeld w (deliver_payload services r payload w).0 (deliver_payload services r payload w).1
  unfolding deliver_payload
  deliver_payload-refused h = (
    ground arith,
    λ e. elim (Bool-cases (gate_of r).allow) [
      | inl g ↦ ground arith
      | inr g ↦ ground (arith, gate_reason r g)
    ],
  )

  deliver_payload-no_chat :
      {e : Reason}
      → choose_chat r payload ≡ err e
      → IsHeld w (deliver_payload services r payload w).0 (deliver_payload services r payload w).1
  unfolding deliver_payload
  deliver_payload-no_chat c = (
    ground arith,
    λ e. elim (Bool-cases (gate_of r).allow) [
      | inl g ↦ ground (arith, choose_chat-err r payload c)
      | inr g ↦ ground (arith, gate_reason r g)
    ],
  )

  deliver_payload-chat :
      {chat_id : String}
      → (r.send && (gate_of r).allow) ≡ true
      → choose_chat r payload ≡ ok chat_id
      → let looked = seen payload.idempotency_key r.now (load w.dedupe) in
        deliver_payload services r payload w ≡ (
          if looked.0
          then (dedupe_hit, with_store w looked.1)
          else send_payload services r payload chat_id (with_store w looked.1))
  unfolding deliver_payload
  deliver_payload-chat h c = ground arith

  deliver_payload-cases :
      let out = deliver_payload services r payload w in
      IsHeld w out.0 out.1 ⊎ IsCleared r payload w out.0 out.1
  deliver_payload-cases = elim (Bool-cases (r.send && (gate_of r).allow)) [
    | inr s ↦ inl (deliver_payload-refused s)
    | inl s ↦ elim (Result-cases (choose_chat r payload)) [
      | inl (e, c) ↦ inl (deliver_payload-no_chat c)
      | inr (chat_id, c) ↦
          let looked = seen payload.idempotency_key r.now (load w.dedupe) in
          elim (Bool-cases looked.0) [
            | inl d ↦ inl (rw (deliver_payload-chat s c, d) (refl, λ e. ground arith))
            | inr d ↦
                let sent = send_payload-IsSend services r payload chat_id (with_store w looked.1) in
                inr (
                  rw (deliver_payload-chat s c, d)
                    (record {
                      asked = ground arith;
                      gated = ground arith;
                      chat_id = chat_id;
                      chosen = c;
                      unseen = d;
                      posts = sent.posts;
                      outcome = sent.outcome;
                    }))
          ]
    ]
  ]

module _ (services : Services) (r : DeliverRequest) (w : World) where
  deliver-payload :
      {out : Reason × World}
      → deliver services r w ≡ ok out
      → (p : DeliveryPayload) × (build_payload services r ≡ ok p)
        × (deliver_payload services r p (with_files r p w) ≡ out)
  unfolding deliver
  deliver-payload h = ground arith

  with_files-posts : (p : DeliveryPayload) → (with_files r p w).posts ≡ w.posts
  with_files-posts p = ground arith

  with_files-dedupe : (p : DeliveryPayload) → (with_files r p w).dedupe ≡ w.dedupe
  with_files-dedupe p = ground arith

  with_files-rows : (p : DeliveryPayload) → (with_files r p w).failed_rows ≡ w.failed_rows
  with_files-rows p = ground arith

  pub deliver_cases :
      {why : Reason} {w' : World}
      → deliver services r w ≡ ok (why, w')
      → IsHeld w why w'
        ⊎ ((p : DeliveryPayload) × (build_payload services r ≡ ok p) × IsCleared r p w why w')
  deliver_cases {why} {w'} h =
      let (p, b, d) = deliver-payload h in
      elim (deliver_payload-cases services r p (with_files r p w)) [
        | inl e ↦ inl ((rw (d, with_files-posts p) at e.0), (rw d at e.1))
        | inr c ↦ inr (
          p,
          b,
          record {
            asked = c.asked;
            gated = c.gated;
            chat_id = c.chat_id;
            chosen = c.chosen;
            unseen = rw (with_files-dedupe p) at c.unseen;
            posts = rw (d, with_files-posts p) at c.posts;
            outcome = rw (d, with_files-dedupe p, with_files-rows p) at c.outcome;
          },
        )
      ]

-- A direct message never goes to the group.
pub choose_chat-dm :
    (r : DeliverRequest) (p : DeliveryPayload) {chat_id : String}
    → is_dm r ≡ true
    → choose_chat r p ≡ ok chat_id
    → (principal_dm_chat_id_from_env r.environ ≡ some chat_id)
      × (chat_id ≢ env_value group_env r.environ)
unfolding choose_chat principal_dm_chat_id_from_env
choose_chat-dm r p {chat_id} dm c =
    (ground arith, λ e. ground (arith, eq_iff chat_id (env_value group_env r.environ)))
