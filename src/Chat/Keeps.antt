-- ===== src/Chat/Keeps.antt =====
-- What the receive loop keeps, whatever a client sends.
use factn_assistant_service.Chat.Receive.{
  pong, disconnect, text_message, on_interrupt, on_set_speaker, binary, Incoming, receive_one,
  on_voice_start, Message, submit_text, receive_loop, on_text_input, on_payload, on_message,
  on_json, on_decoded, dispatch, Answer, stop_loop, send_busy, touch_session, on_voice_end,
  on_binary, enqueue, answer, Receiver,
}
use factn_assistant_service.SessionState.{
  activity_start, text, audio_chunk, activity_end, inbox_max_size, put_nowait, InputFrame,
  SessionState, put_inbox, touch,
}
use factn_assistant_service.Base.{
  false, [], ◌∷◌, true, none, inr, ◌≡◌, str_eq, some, length-append, inl, arith, List, Bool-cases,
  ◌≤◌, ℕ, if◌then◌else◌, Option, ◌∙◌, length, String, Bool, refl,
}
use factn_assistant_service.Json.{truthy, Fields, Json, obj, str, null, get_default}

-- The loop keeps the inbox within its size and leaves the outbox and the counts alone.
pub record KeepsSession (s s' : SessionState) : Type 0 where
  pub inbox_fits : length s.inbox ≤ inbox_max_size → length s'.inbox ≤ inbox_max_size
  pub outbox_same : s'.outbox ≡ s.outbox
  pub turns_same : s'.turns ≡ s.turns

abbrev Keeps : Receiver → Receiver → Type 0
Keeps r r' = KeepsSession r.session r'.session

Keeps-refl : (r : Receiver) → Keeps r r
Keeps-refl r = record { inbox_fits = λ h. h; outbox_same = refl; turns_same = refl }

Keeps-trans : {s t u : SessionState} → KeepsSession s t → KeepsSession t u → KeepsSession s u
Keeps-trans p q = record {
  inbox_fits = λ h. q.inbox_fits (p.inbox_fits h);
  outbox_same = q.outbox_same ∙ p.outbox_same;
  turns_same = q.turns_same ∙ p.turns_same;
}

If-keeps :
    {s : SessionState} (b : Bool) (r r' : Receiver)
    → KeepsSession s r.session
    → KeepsSession s r'.session
    → KeepsSession s (if b then r else r').session
If-keeps true r r' h k = h
If-keeps false r r' h k = k

answer-Keeps : (a : Answer) (b : Bool) (r : Receiver) → Keeps r (answer a b r)
unfolding answer stop_loop
answer-Keeps a true r = Keeps-refl r
answer-Keeps a false r = Keeps-refl r

enqueue-Keeps : (f : InputFrame) (b : Bool) (r : Receiver) → Keeps r (enqueue f b r)
unfolding enqueue send_busy put_inbox put_nowait
enqueue-Keeps f b r = ground (arith, length-append r.session.inbox (f ∷ []))

-- The same where the loop touches the session and sets the voice flag before.
enqueue-Keeps_touched :
    (f : InputFrame) (now : ℕ) (b v : Bool) (r : Receiver)
    → Keeps r (enqueue f b (touch_session now (record r { voice_active = v })))
unfolding touch_session touch
enqueue-Keeps_touched f now b v r =
    Keeps-trans (record { inbox_fits = λ h. h; outbox_same = refl; turns_same = refl })
      (enqueue-Keeps f b (touch_session now (record r { voice_active = v })))

on_binary-Keeps : (bytes : List ℕ) (now : ℕ) (r : Receiver) → Keeps r (on_binary bytes now r)
unfolding on_binary touch_session touch put_inbox put_nowait
on_binary-Keeps bytes now r = ground (arith, length-append r.session.inbox (audio_chunk bytes ∷ []))

on_voice_end-Keeps : (now : ℕ) (b : Bool) (r : Receiver) → Keeps r (on_voice_end now b r)
unfolding on_voice_end
on_voice_end-Keeps now b r = elim (Bool-cases r.voice_active) [
  | inl on ↦ simp on (enqueue-Keeps_touched activity_end now b false r)
  | inr off ↦ simp off (Keeps-refl r)
]

module _ (decode : String → Option Json) (strip : String → String) where
  submit_text-Keeps :
      (t : String) (now : ℕ) (b : Bool) (r : Receiver)
      → Keeps r (submit_text decode strip t now b r)
  unfolding submit_text
  submit_text-Keeps t now b r = elim (Bool-cases (str_eq t "")) [
    | inl nothing ↦ rw (nothing, submit_text) (Keeps-refl r)
    | inr some_text ↦
        rw (some_text, submit_text) (enqueue-Keeps_touched (text t) now b r.voice_active r)
  ]

  on_text_input-Keeps :
      (v : Json) (now : ℕ) (b : Bool) (r : Receiver)
      → Keeps r (on_text_input decode strip v now b r)
  unfolding on_text_input stop_loop
  on_text_input-Keeps (str t) now b r = submit_text-Keeps (strip t) now b r
  on_text_input-Keeps v now b r = elim (Bool-cases (truthy v)) [
    | inl is_true ↦ rw (is_true, on_text_input) (Keeps-refl r)
    | inr is_false ↦ rw (is_false, on_text_input) (submit_text-Keeps (strip "") now b r)
  ]

  dispatch-Keeps :
      (m : String) (v : Json) (p : Fields) (now : ℕ) (b : Bool) (r : Receiver)
      → Keeps r (dispatch decode strip m v p now b r)
  unfolding dispatch on_voice_start on_set_speaker on_interrupt
  dispatch-Keeps m v p now b r =
      If-keeps (str_eq m "text_input") _ _ (on_text_input-Keeps (get_default "text" null p) now b r)
        (If-keeps (str_eq m "voice_start") _ _ (enqueue-Keeps_touched activity_start now b true r) (
          If-keeps (str_eq m "voice_end") _ _ (on_voice_end-Keeps now b r) (
            If-keeps (str_eq m "set_speaker") _ _ (enqueue-Keeps _ b r) (
              If-keeps (str_eq m "interrupt") _ _ (Keeps-refl r)
                (If-keeps (str_eq m "ping") _ _ (answer-Keeps pong b r) (answer-Keeps _ b r))))))

  on_payload-Keeps :
      (v : Json) (p : Fields) (now : ℕ) (b : Bool) (r : Receiver)
      → Keeps r (on_payload decode strip v p now b r)
  unfolding on_payload
  on_payload-Keeps (str m) p now b r = dispatch-Keeps m (str m) p now b r
  on_payload-Keeps v p now b r = answer-Keeps _ b r

  on_json-Keeps :
      (v : Json) (now : ℕ) (b : Bool) (r : Receiver) → Keeps r (on_json decode strip v now b r)
  unfolding on_json stop_loop
  on_json-Keeps (obj p) now b r = on_payload-Keeps (get_default "type" null p) p now b r
  on_json-Keeps v now b r = Keeps-refl r

  on_decoded-Keeps :
      (o : Option Json) (now : ℕ) (b : Bool) (r : Receiver)
      → Keeps r (on_decoded decode strip o now b r)
  unfolding on_decoded
  on_decoded-Keeps none now b r = answer-Keeps _ b r
  on_decoded-Keeps (some v) now b r = on_json-Keeps v now b r

  on_message-Keeps :
      (m : Message) (now : ℕ) (b : Bool) (r : Receiver)
      → Keeps r (on_message decode strip m now b r)
  unfolding on_message stop_loop
  on_message-Keeps disconnect now b r = Keeps-refl r
  on_message-Keeps (binary []) now b r = Keeps-refl r
  on_message-Keeps (binary (x ∷ bytes)) now b r = on_binary-Keeps (x ∷ bytes) now r
  on_message-Keeps (text_message raw) now b r =
      If-keeps (str_eq raw "") _ _ (Keeps-refl r) (on_decoded-Keeps (decode raw) now b r)

  receive_loop-Keeps :
      (is : List Incoming) (r : Receiver)
      → KeepsSession r.session (receive_loop decode strip is r).session
  unfolding receive_loop receive_one
  receive_loop-Keeps [] r = Keeps-refl r
  receive_loop-Keeps (i ∷ is) r =
      Keeps-trans
        (If-keeps r.over _ _ (Keeps-refl r) (on_message-Keeps i.message i.now i.can_send r))
        (receive_loop-Keeps is (receive_one decode strip i r))

  -- Whatever a client sends, the receive loop keeps an inbox within its size within it, and changes
  -- neither the outbox nor the count of turns.
  pub receive_loop_inbox :
      (is : List Incoming) (r : Receiver)
      → length r.session.inbox ≤ inbox_max_size
      → let s' = (receive_loop decode strip is r).session in
        (length s'.inbox ≤ inbox_max_size)
        × (s'.outbox ≡ r.session.outbox)
        × (s'.turns ≡ r.session.turns)
  receive_loop_inbox is r fits =
      let kept = receive_loop-Keeps is r in
      (kept.inbox_fits fits, kept.outbox_same, kept.turns_same)
