-- ===== src/Chat/Sentinel.antt =====
-- What the forward loop sends and how it ends: the sentinel stops it, and a sentinel that a full
-- outbox has lost never comes.
use factn_assistant_service.Base.{
  ap, ◌≤◌, length, none, inr, inl, ◌+◌, Option-cases, String, true, some, [], ◌≡◌, ◌≢◌, ◌∷◌, ◌++◌,
  Bool, ℕ, List, refl,
}
use mathlib.Core.List.{append_assoc}
use factn_assistant_service.GeminiRunner.Finish.{finish_last_frames, finish_full_outbox}
use factn_assistant_service.GeminiRunner.Loop.{finish, Outcome}
use factn_assistant_service.SessionState.{
  outbox_max_size, session_ended, outbox_stop, SessionState, OutputFrame,
}
use factn_assistant_service.Schemas.{ProjectConfig}
use factn_assistant_service.Chat.Forward.{
  waiting, stopped, no_body, send_json, forward_loop, WsMessage, to_message,
}
use factn_assistant_service.SessionEvents as Events

-- No frame is the sentinel.
abbrev pub NoSentinel : List OutputFrame → Type 0
NoSentinel [] = Unit
NoSentinel (f ∷ fs) = (f ≢ outbox_stop) × NoSentinel fs

-- The messages of the frames, in order.
unfoldable pub messages_of : List OutputFrame → List WsMessage
messages_of [] = []
messages_of (f ∷ fs) = elim (to_message f) [ none ↦ messages_of fs | some w ↦ w ∷ messages_of fs ]

to_message-some : (f : OutputFrame) → f ≢ outbox_stop → (w : WsMessage) × (to_message f ≡ some w)
unfolding to_message
to_message-some outbox_stop h = absurd (h refl)
to_message-some _ h = (_, refl)

NoSentinel-ended : (fs : List OutputFrame) → NoSentinel fs → NoSentinel (fs ++ session_ended ∷ [])
NoSentinel-ended [] h = (λ e. cc, tt)
NoSentinel-ended (f ∷ fs) h = (h.0, NoSentinel-ended fs h.1)

messages_of-ended :
    (fs : List OutputFrame)
    → messages_of (fs ++ session_ended ∷ [])
      ≡ messages_of fs ++ send_json "session_ended" no_body ∷ []
unfolding messages_of
messages_of-ended [] = unfold to_message in refl
messages_of-ended (f ∷ fs) = elim (Option-cases (to_message f)) [
  | inl nothing ↦ rw (nothing, messages_of) (messages_of-ended fs)
  | inr (w, is_w) ↦
      rw (is_w, messages_of) (ap (λ (ws : List WsMessage). w ∷ ws) (messages_of-ended fs))
]

module _ (works : ℕ → Bool) (all_work : (n : ℕ) → works n ≡ true) where
  -- Where every send works, the loop sends the frames before the sentinel, each once and in order,
  -- then stops and leaves what follows.
  pub forward_loop_sentinel :
      (n : ℕ) (fs rest : List OutputFrame)
      → NoSentinel fs
      → forward_loop works n (fs ++ outbox_stop ∷ rest)
        ≡ record { messages = messages_of fs; exit = stopped; left = rest }
  unfolding forward_loop messages_of
  forward_loop_sentinel n [] rest h = unfold to_message in refl
  forward_loop_sentinel n (f ∷ fs) rest h =
      let (w, is_w) = to_message-some f h.0 in
      rw (is_w, forward_loop, messages_of)
        (rw (all_work n, forward_loop_sentinel (n + 1) fs rest h.1))

  forward_loop_waits :
      (n : ℕ) (fs : List OutputFrame)
      → NoSentinel fs
      → forward_loop works n fs ≡ record { messages = messages_of fs; exit = waiting; left = [] }
  unfolding forward_loop messages_of
  forward_loop_waits n [] h = refl
  forward_loop_waits n (f ∷ fs) h =
      let (w, is_w) = to_message-some f h.0 in
      rw (is_w, forward_loop, messages_of) (rw (all_work n, forward_loop_waits (n + 1) fs h.1))

  -- Where every send to the client works, the outbox is full when a session finishes, and no sentinel
  -- is queued before, the sentinel is dropped: the forward loop sends all that is queued, each frame
  -- once and in order, and then waits for a frame, although the runner has gone.
  pub lost_sentinel :
      (round2 : ℕ → ℕ) (sign : Events.Payload → String → String) (has_repo : Bool)
      (project : ProjectConfig) (o : Outcome) (ended_at recorded_at : ℕ)
      (server : ℕ → Events.Answer) (s : SessionState)
      → outbox_max_size ≤ length s.outbox
      → NoSentinel s.outbox
      → forward_loop works 0
          (finish round2 sign has_repo project o ended_at recorded_at server s).2.outbox
        ≡ record { messages = messages_of s.outbox; exit = waiting; left = [] }
  lost_sentinel round2 sign has_repo project o ended_at recorded_at server s full none_yet =
      rw (finish_full_outbox round2 sign has_repo project o ended_at recorded_at server s full)
        (forward_loop_waits 0 s.outbox none_yet)

  -- Where every send to the client works, the outbox has room for two frames when a session finishes,
  -- and no sentinel is queued before, the client is sent all that is queued, each frame once and in
  -- order, and then `session_ended`, and the loop stops with nothing left.
  pub session_ends :
      (round2 : ℕ → ℕ) (sign : Events.Payload → String → String) (has_repo : Bool)
      (project : ProjectConfig) (o : Outcome) (ended_at recorded_at : ℕ)
      (server : ℕ → Events.Answer) (s : SessionState)
      → length s.outbox + 2 ≤ outbox_max_size
      → NoSentinel s.outbox
      → forward_loop works 0
          (finish round2 sign has_repo project o ended_at recorded_at server s).2.outbox
        ≡ record {
          messages = messages_of s.outbox ++ send_json "session_ended" no_body ∷ [];
          exit = stopped;
          left = [];
        }
  session_ends round2 sign has_repo project o ended_at recorded_at server s room none_yet = rw (
    finish_last_frames round2 sign has_repo project o ended_at recorded_at server s room,
    ← append_assoc s.outbox (session_ended ∷ []) (outbox_stop ∷ []),
    forward_loop_sentinel 0 (s.outbox ++ session_ended ∷ []) []
        (NoSentinel-ended s.outbox none_yet),
    messages_of-ended s.outbox,
  )
