-- ===== src/Tests/Clients.antt =====
-- The two loops of a client's socket.
use factn_assistant_service.Tests.{round2, chat_session, hook, project, sign}
use factn_assistant_service.Chat.Sentinel.{session_ends, lost_sentinel, messages_of, NoSentinel}
use factn_assistant_service.Chat.Forward.{no_body, send_json, waiting, stopped, forward_loop}
use factn_assistant_service.Chat.Voice.{typed, interrupt_strands_turn}
use factn_assistant_service.Chat.Keeps.{receive_loop_inbox}
use factn_assistant_service.Base.{
  ◌++◌, some, str_eq, ◌≤◌, zero, if◌then◌else◌, arith, ◌≡◌, true, false, [], ◌∷◌, suc, none, length,
  Option, List, Bool, ℕ, String, refl,
}
use factn_assistant_service.SessionState.{
  inbox_max_size, turn_complete, activity_start, OutputFrame, assistant_text, SessionState,
}
use factn_assistant_service.Json.{num, Json}
use factn_assistant_service.Chat.Receive.{text_message, Incoming, receive_loop, Receiver}
use factn_assistant_service.GeminiRunner.Loop.{finish, Outcome}
use factn_assistant_service.SessionEvents as Events

abbrev works : ℕ → Bool
works n = true

abbrev closed_outcome : Outcome
closed_outcome = record { status = Events.closed; error_message = none }

hello_NoSentinel : NoSentinel (assistant_text "hello" ∷ [])
hello_NoSentinel = (λ e. cc, tt)

session_ends_example :
    forward_loop works 0
      (finish round2 sign true project closed_outcome 5_000 25_000 hook chat_session).2.outbox
    ≡ record {
      messages =
          messages_of (assistant_text "hello" ∷ []) ++ send_json "session_ended" no_body ∷ [];
      exit = stopped;
      left = [];
    }
session_ends_example =
    session_ends works (λ n. refl) round2 sign true project closed_outcome 5_000 25_000 hook
      chat_session (omega arith) hello_NoSentinel

unfoldable many : ℕ → List OutputFrame
many zero = []
many (suc n) = turn_complete ∷ many n

length-many : (n : ℕ) → length (many n) ≡ n
unfolding many
length-many zero = refl
length-many (suc n) = omega (arith, length-many n)

many-NoSentinel : (n : ℕ) → NoSentinel (many n)
unfolding many
many-NoSentinel zero = tt
many-NoSentinel (suc n) = (λ e. cc, many-NoSentinel n)

abbrev flooded : SessionState
flooded = record chat_session { outbox = many 256 }

lost_sentinel_example :
    forward_loop works 0
      (finish round2 sign true project closed_outcome 5_000 25_000 hook flooded).2.outbox
    ≡ record { messages = messages_of (many 256); exit = waiting; left = [] }
lost_sentinel_example =
    lost_sentinel works (λ n. refl) round2 sign true project closed_outcome 5_000 25_000 hook
      flooded (omega (arith, length-many 256)) (many-NoSentinel 256)

abbrev decode : String → Option Json
decode raw =
    if str_eq raw "5"
    then some (num 5)
    else if str_eq raw "start"
    then some (typed "voice_start")
    else if str_eq raw "interrupt"
    then some (typed "interrupt")
    else if str_eq raw "end"
    then some (typed "voice_end")
    else none

abbrev strip : String → String
strip s = s

abbrev connected : Receiver
connected = record { session = chat_session; voice_active = false; sent = []; over = false }

abbrev says : String → Incoming
says raw = record { message = text_message raw; now = 50; can_send = true }

receive_loop_inbox_example :
    let s' =
      (receive_loop decode strip (says "start" ∷ says "what" ∷ says "5" ∷ []) connected).session in
    (length s'.inbox ≤ inbox_max_size) × (s'.outbox ≡ chat_session.outbox) × (s'.turns ≡ 3)
receive_loop_inbox_example =
    receive_loop_inbox decode strip (says "start" ∷ says "what" ∷ says "5" ∷ []) connected
      (omega arith)

interrupt_strands_turn_example :
    let after =
      receive_loop decode strip (says "start" ∷ says "interrupt" ∷ says "end" ∷ []) connected in
    (after.session.inbox ≡ activity_start ∷ [])
    × (after.voice_active ≡ false)
    × (after.over ≡ false)
interrupt_strands_turn_example =
    interrupt_strands_turn decode strip "start" "interrupt" "end" 50 50 50 true connected refl refl
      refl refl refl refl refl (omega arith)
