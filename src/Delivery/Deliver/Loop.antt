-- ===== src/Delivery/Deliver/Loop.antt =====
-- What the send of a payload does to the world, for each way it ends.
use market_memory.Prelude.{
  ◌≢◌, ◌≡◌, refl, Option, none, some, List, [], ◌∷◌, String, Result, ok, err, arith, Bool-cases,
  inl, inr, truthy,
}
use market_memory.Delivery.Dedupe.{allow}
use market_memory.Delivery.Gates.{reason_ok, Reason}
use market_memory.Delivery.Payload.{Services, Post, World, DeliveryPayload}
use market_memory.Delivery.Telegram.{
  record_failed, call, chunk_post, media_post, send_chunks, send_media, with_posts,
}

-- Later posts, each to one chat.
pub data SentTo (chat_id : String) (before : List Post) : List Post → Type 0 where
  unsent : SentTo chat_id before before
  one_more :
      {p : Post} {after : List Post}
      → p.chat_id ≡ chat_id
      → SentTo chat_id before after
      → SentTo chat_id before (p ∷ after)

pub SentTo-trans :
    {chat_id : String} {a b c : List Post}
    → SentTo chat_id a b
    → SentTo chat_id b c
    → SentTo chat_id a c
SentTo-trans s unsent = s
SentTo-trans s (one_more e t) = one_more e (SentTo-trans s t)

-- The failed rows after a run.
abbrev rows_after : Result Reason (Unit {0}) → Option (List Reason) → Option (List Reason)
rows_after (ok _) rows = rows
rows_after (err reason) rows = record_failed reason rows

pub record IsRun (chat_id : String) (w : World) (out : Result Reason (Unit {0}) × World)
    : Type 0 where
  pub posts : SentTo chat_id w.posts out.1.posts
  pub store : out.1.dedupe ≡ w.dedupe
  pub named : (e : Reason) → out.0 ≡ err e → e ≢ reason_ok
  pub rows : out.1.failed_rows ≡ rows_after out.0 w.failed_rows

media_post-chat_id :
    (payload : DeliveryPayload) (chat_id : String) → (media_post payload chat_id).chat_id ≡ chat_id
unfolding media_post
media_post-chat_id payload chat_id = ground arith

call-SentTo :
    (services : Services) (token : Option String) (post : Post) (posts : List Post)
    {chat_id : String}
    → post.chat_id ≡ chat_id
    → SentTo chat_id posts (call services token post posts).1
unfolding call
call-SentTo services token post posts e = elim (Bool-cases (truthy token)) [
  | inl h ↦ rw h (one_more e unsent)
  | inr h ↦ rw h unsent
]

module _ (services : Services) (token : Option String) (payload : DeliveryPayload)
    (chat_id : String) where
  pub chunks-IsRun :
      (chunks : List String) (w : World)
      → IsRun chat_id w (send_chunks services token payload chat_id chunks w)
  unfolding send_chunks
  chunks-IsRun [] w = record {
    posts = unsent;
    store = refl;
    named = λ e x y. ground arith;
    rows = refl;
  }
  chunks-IsRun (chunk ∷ chunks) w =
      let post = chunk_post payload chat_id chunk in
      let made = call-SentTo services token post w.posts refl in
      elim (Bool-cases (allow w.limiter).0) [
        | inr h ↦
            rw h
              (record { posts = unsent; store = refl; named = λ e x y. ground arith; rows = refl })
        | inl h ↦ elim (Bool-cases (call services token post w.posts).0.ok) [
          | inr k ↦
              rw (h, k)
                (record { posts = made; store = refl; named = λ e x y. ground arith; rows = refl })
          | inl k ↦
              let rest =
                chunks-IsRun chunks
                  (with_posts w (allow w.limiter).1 (call services token post w.posts).1) in
              rw (h, k)
                (record {
                  posts = SentTo-trans made rest.posts;
                  store = rest.store;
                  named = rest.named;
                  rows = rest.rows;
                })
        ]
      ]

  pub media-IsRun :
      (png : Option String) (w : World)
      → IsRun chat_id w (send_media services token payload chat_id png w)
  unfolding send_media
  media-IsRun none w = record {
    posts = unsent;
    store = refl;
    named = λ e x y. ground arith;
    rows = refl;
  }
  media-IsRun (some png) w =
      let post = media_post payload chat_id in
      let made = call-SentTo services token post w.posts (media_post-chat_id payload chat_id) in
      elim (Bool-cases (call services token post w.posts).0.ok) [
        | inr k ↦
            rw k (record { posts = made; store = refl; named = λ e x y. ground arith; rows = refl })
        | inl k ↦
            rw k (record { posts = made; store = refl; named = λ e x y. ground arith; rows = refl })
      ]
