-- ===== src/SessionState/Bounds.antt =====
-- The queues never pass their sizes, and what a full queue does.
use factn_assistant_service.Base.{
  ℕ, ◌≤◌, ◌<◌, ◌≡◌, some, List, [], ◌∷◌, ◌++◌, arith, length, length-append,
}
use factn_assistant_service.SessionState.{
  SessionState, InputFrame, OutputFrame, put_nowait, put_inbox, send_outbox, inbox_max_size,
  outbox_max_size,
}

-- Both queues are within their sizes.
pub record IsBounded (s : SessionState) : Type 0 where
  pub inbox_fits : length s.inbox ≤ inbox_max_size
  pub outbox_fits : length s.outbox ≤ outbox_max_size

pub length-put_nowait {ℓ} :
    {A : Type ℓ} (n : ℕ) (a : A) (queue : List A) {queue' : List A}
    → put_nowait n a queue ≡ some queue'
    → length queue' ≤ n
unfolding put_nowait
length-put_nowait n a queue h = ground (arith, length-append queue (a ∷ []))

pub send_outbox-IsBounded :
    (f : OutputFrame) (s : SessionState) → IsBounded s → IsBounded (send_outbox f s)
unfolding send_outbox put_nowait
send_outbox-IsBounded f s v = ground (arith, length-append s.outbox (f ∷ []))

pub put_inbox-IsBounded :
    (f : InputFrame) (s s' : SessionState) → IsBounded s → put_inbox f s ≡ some s' → IsBounded s'
unfolding put_inbox put_nowait
put_inbox-IsBounded f s s' v h = ground (arith, length-append s.inbox (f ∷ []))

-- A frame is queued last where there is room.
pub outbox-send_outbox :
    (f : OutputFrame) (s : SessionState)
    → length s.outbox < outbox_max_size
    → (send_outbox f s).outbox ≡ s.outbox ++ f ∷ []
unfolding send_outbox put_nowait
outbox-send_outbox f s room = ground arith

-- A frame that finds the outbox full is lost, and nothing else changes.
pub send_outbox_full :
    (f : OutputFrame) (s : SessionState) → outbox_max_size ≤ length s.outbox → send_outbox f s ≡ s
unfolding send_outbox put_nowait
send_outbox_full f s full = ground arith
