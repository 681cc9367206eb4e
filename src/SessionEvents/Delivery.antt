-- ===== src/SessionEvents/Delivery.antt =====
-- How often an event is posted, what each post carries, and when it counts as delivered.
use factn_assistant_service.Base.{
  ℕ, String, ◌≡◌, Bool, true, false, ◌||◌, Option, some, List, [], ◌∷◌, arith, count_if,
  if◌then◌else◌, str_eq,
}
use factn_assistant_service.SessionEvents.{
  Status, Totals, Payload, Post, Action, post, retry_sleep, Answer, accepted, attempts,
  closing_event, non_empty, signature, deliver, deliver_session_closed, build_payload,
}

abbrev pub is_post : Action → Bool
is_post (post _) = true
is_post retry_sleep = false

unfoldable pub posts : List Action → ℕ
posts actions = count_if is_post actions

-- Every request among the actions is `p`.
abbrev pub PostsOnly : Post → List Action → Type 0
PostsOnly p [] = Unit
PostsOnly p (post q ∷ rest) = (q ≡ p) × PostsOnly p rest
PostsOnly p (retry_sleep ∷ rest) = PostsOnly p rest

-- A delivery posts once if the first attempt is accepted and twice otherwise, always the same
-- request; it counts as delivered exactly when one of those attempts is accepted.
abbrev pub DeliversOnce : Post → (ℕ → Answer) → List Action × Bool → Type 0
DeliversOnce p server (actions, delivered) =
    (posts actions ≡ (if accepted (server 1) then 1 else 2))
    × PostsOnly p actions
    × (delivered ≡ (accepted (server 1) || accepted (server 2)))

attempts-DeliversOnce :
    (p : Post) (server : ℕ → Answer) → DeliversOnce p server (attempts p server 2 1)
unfolding attempts posts
attempts-DeliversOnce p server = ground arith

abbrev pub closed_post :
    (sign : Payload → String → String)
    → String
    → Option String
    → String
    → String
    → String
    → Status
    → ℕ
    → Totals
    → Option String
    → Post
closed_post sign url secret sid pid tid status started totals message =
    let body =
      build_payload (closing_event status) sid pid tid status started (some totals) message in
    record {
      url = url;
      body = body;
      event_header = closing_event status;
      session_header = sid;
      signature_header = signature sign secret body;
    }

-- With a webhook URL that is not empty, `deliver_session_closed` spawns a delivery that posts the
-- closing event of the status, signed with the secret where that is not empty: once if the first
-- attempt is accepted, else twice; it is delivered exactly when one of the attempts is accepted.
pub deliver_session_closed_once :
    (sign : Payload → String → String) (url sid pid tid : String) (secret message : Option String)
    (status : Status) (started : ℕ) (totals : Totals) (server : ℕ → Answer)
    → str_eq url "" ≡ false
    → (d : List Action × Bool) × (deliver_session_closed sign
          (some url)
          secret
          sid
          pid
          tid
          status
          started
          totals
          message
          server
        ≡ some d)
      × DeliversOnce
          (closed_post sign url secret sid pid tid status started totals message)
          server
          d
unfolding deliver_session_closed non_empty deliver
deliver_session_closed_once sign url sid pid tid secret message status started totals server
      has_url =
    (
      attempts (closed_post sign url secret sid pid tid status started totals message) server 2 1,
      rw (has_url, deliver_session_closed),
      attempts-DeliversOnce (closed_post sign url secret sid pid tid status started totals message)
          server,
    )
