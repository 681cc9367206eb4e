-- ===== src/Chat/Voice.antt =====
-- How client messages reach the inbox in a voice turn, and which messages end the receive loop.
use factn_assistant_service.Base.{
  arith, ◌++◌, true, [], ◌∷◌, ◌<◌, length, some, false, ◌≡◌, str_eq, List, Bool, ℕ, Option, String,
  refl,
}
use factn_assistant_service.Chat.Receive.{
  touch_session, on_voice_end, on_interrupt, on_decoded, dispatch, stop_loop, on_payload,
  on_message, enqueue, receive_one, on_voice_start, on_json, text_message, receive_loop, Incoming,
  Receiver,
}
use factn_assistant_service.SessionState.{
  put_nowait, inbox_max_size, put_inbox, touch, activity_start,
}
use factn_assistant_service.Json.{Json, obj, str, field, end, get, get_default}

-- The message `{"type": t}`.
abbrev pub typed : String → Json
typed t = obj (field "type" (str t) end)

abbrev pub IsObject : Json → Type 0
IsObject (obj _) = Unit
IsObject _ = ⊥

on_voice_start_room :
    (now : ℕ) (b : Bool) (r : Receiver)
    → r.over ≡ false
    → length r.session.inbox < inbox_max_size
    → ((on_voice_start now b r).session.inbox ≡ r.session.inbox ++ activity_start ∷ [])
      × ((on_voice_start now b r).over ≡ false)
unfolding on_voice_start enqueue put_inbox put_nowait touch_session touch
on_voice_start_room now b r going room = ground arith

module _ (decode : String → Option Json) (strip : String → String) where
  receive_one-json :
      (raw : String) (v : Json) (now : ℕ) (b : Bool) (r : Receiver)
      → str_eq raw "" ≡ false
      → decode raw ≡ some v
      → r.over ≡ false
      → receive_one decode strip (record { message = text_message raw; now = now; can_send = b }) r
        ≡ on_json decode strip v now b r
  unfolding receive_one on_message on_decoded
  receive_one-json raw v now b r s d going = simp (going, s, d)

  receive_loop-over :
      (is : List Incoming) (r : Receiver) → r.over ≡ true → receive_loop decode strip is r ≡ r
  unfolding receive_loop receive_one
  receive_loop-over [] r h = refl
  receive_loop-over (i ∷ is) r h = simp h (receive_loop-over is r h)

  on_json-non_object :
      (v : Json) (now : ℕ) (b : Bool) (r : Receiver)
      → ¬ IsObject v
      → on_json decode strip v now b r ≡ record r { over = true }
  unfolding on_json stop_loop
  on_json-non_object (obj p) now b r h = absurd (h tt)
  on_json-non_object _ now b r h = refl

  on_json-voice_start :
      (now : ℕ) (b : Bool) (r : Receiver)
      → on_json decode strip (typed "voice_start") now b r ≡ on_voice_start now b r
  unfolding on_json on_payload dispatch get_default get
  on_json-voice_start now b r = refl

  on_json-interrupt :
      (now : ℕ) (b : Bool) (r : Receiver)
      → on_json decode strip (typed "interrupt") now b r ≡ record r { voice_active = false }
  unfolding on_json on_payload dispatch get_default get on_interrupt
  on_json-interrupt now b r = refl

  -- a `voice_end` outside a voice turn
  on_json-voice_end :
      (now : ℕ) (b : Bool) (r : Receiver)
      → r.voice_active ≡ false
      → on_json decode strip (typed "voice_end") now b r ≡ r
  unfolding on_json on_payload dispatch get_default get on_voice_end
  on_json-voice_end now b r h = ground arith

  -- A text that is valid JSON but no object, such as a bare number, ends the receive loop: no answer
  -- is sent, nothing is queued, and no later message is read.
  pub receive_non_object :
      (raw : String) (v : Json) (now : ℕ) (can_send : Bool) (later : List Incoming) (r : Receiver)
      → str_eq raw "" ≡ false
      → decode raw ≡ some v
      → ¬ IsObject v
      → r.over ≡ false
      → receive_loop decode strip
          (record { message = text_message raw; now = now; can_send = can_send } ∷ later)
          r
        ≡ record r { over = true }
  receive_non_object raw v now can_send later r not_empty decoded no_object going =
      unfold receive_loop in
      rw
        (
          receive_one-json raw v now can_send r not_empty decoded going,
          on_json-non_object v now can_send r no_object,
        )
        (receive_loop-over later (record r { over = true }) refl)

  -- With room in the inbox, a client that starts a voice turn, interrupts it and ends it has queued
  -- the start of the turn and nothing more: the end is ignored, since the interrupt has already
  -- cleared the flag, and so the turn is never ended for the runner.
  pub interrupt_strands_turn :
      (started interrupted ended : String) (t u v : ℕ) (b : Bool) (r : Receiver)
      → str_eq started "" ≡ false
      → decode started ≡ some (typed "voice_start")
      → str_eq interrupted "" ≡ false
      → decode interrupted ≡ some (typed "interrupt")
      → str_eq ended "" ≡ false
      → decode ended ≡ some (typed "voice_end")
      → r.over ≡ false
      → length r.session.inbox < inbox_max_size
      → let after =
          receive_loop decode strip
            (record { message = text_message started; now = t; can_send = b }
              ∷ record { message = text_message interrupted; now = u; can_send = b }
              ∷ record { message = text_message ended; now = v; can_send = b }
              ∷ [])
            r in
        (after.session.inbox ≡ r.session.inbox ++ activity_start ∷ [])
        × (after.voice_active ≡ false)
        × (after.over ≡ false)
  interrupt_strands_turn started interrupted ended t u v b r s₁ d₁ s₂ d₂ s₃ d₃ going room =
      let r₁ = on_voice_start t b r in
      let r₂ = record r₁ { voice_active = false } in
      let begun = on_voice_start_room t b r going room in
      unfold receive_loop in
      rw
        (
          receive_one-json started (typed "voice_start") t b r s₁ d₁ going,
          on_json-voice_start t b r,
          receive_one-json interrupted (typed "interrupt") u b r₁ s₂ d₂ begun.1,
          on_json-interrupt u b r₁,
          receive_one-json ended (typed "voice_end") v b r₂ s₃ d₃ begun.1,
          on_json-voice_end v b r₂ refl,
        )
        (begun.0, refl, begun.1)
