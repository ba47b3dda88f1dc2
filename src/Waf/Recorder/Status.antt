-- ===== src/Waf/Recorder/Status.antt =====
-- Which status the statusRecorder keeps, and that it changes nothing on the way.
use wafportal.Base.{
  ℤ, pos, ◌≡◌, refl, ap, sym, ◌∙◌, Bool, true, false, if◌then◌else◌, List, [], ◌∷◌, ◌++◌, arith,
  leb_ℤ, ◌&&◌, eq_ℤ, not,
}
use mathlib.Core.Bool.{false≢true}
use mathlib.Core.Logic.{◌≢◌}
use mathlib.Core.List.{append_assoc, append-nil}
use wafportal.Waf.Http.{Write, set_header, write_header, write_body, flush}
use wafportal.Waf.Recorder.{StatusRecorder, new_recorder, record_write, record_all}

-- The first WriteHeader that no Write stands before, and 200 without one.
abbrev pub first_status : List Write → ℤ
first_status [] = pos 200
first_status (set_header k v ∷ ws) = first_status ws
first_status (write_header code ∷ ws) = code
first_status (write_body b ∷ ws) = pos 200
first_status (flush ∷ ws) = first_status ws

sent-record_all : (s : StatusRecorder) (ws : List Write) → (record_all s ws).sent ≡ s.sent ++ ws
unfolding record_all record_write
sent-record_all s [] = sym (append-nil _)
sent-record_all s (set_header k v ∷ ws) = sent-record_all _ ws ∙ append_assoc s.sent _ ws
sent-record_all s (write_header code ∷ ws) =
    sent-record_all _ ws ∙ ground (arith, append_assoc s.sent (write_header code ∷ []) ws)
sent-record_all s (write_body b ∷ ws) = sent-record_all _ ws ∙ append_assoc s.sent _ ws
sent-record_all s (flush ∷ ws) = sent-record_all _ ws ∙ append_assoc s.sent _ ws

status_once_written :
    (s : StatusRecorder) (ws : List Write)
    → s.wrote_header ≡ true
    → (record_all s ws).status ≡ s.status
unfolding record_all record_write
status_once_written s [] h = refl
status_once_written s (set_header k v ∷ ws) h = status_once_written _ ws h
status_once_written s (write_header code ∷ ws) h =
    status_once_written _ ws (ground arith) ∙ ground arith
status_once_written s (write_body b ∷ ws) h = status_once_written _ ws refl
status_once_written s (flush ∷ ws) h = status_once_written _ ws h

status_before_write :
    (s : StatusRecorder) (ws : List Write)
    → s.wrote_header ≡ false
    → s.status ≡ pos 200
    → (record_all s ws).status ≡ first_status ws
unfolding record_all record_write
status_before_write s [] h e = e
status_before_write s (set_header k v ∷ ws) h e = status_before_write _ ws h e
status_before_write s (write_header code ∷ ws) h e =
    status_once_written _ ws (ground arith) ∙ ground arith
status_before_write s (write_body b ∷ ws) h e = status_once_written _ ws refl ∙ e
status_before_write s (flush ∷ ws) h e = status_before_write _ ws h e

-- A handler's calls reach the real writer unchanged and in order, and the recorded status is the
-- first WriteHeader that no Write stands before, or 200.
pub record_all_lem :
    (ws : List Write)
    → ((record_all new_recorder ws).sent ≡ ws)
      × ((record_all new_recorder ws).status ≡ first_status ws)
record_all_lem ws = (sent-record_all new_recorder ws, status_before_write new_recorder ws refl refl)

-- A status of 1xx other than 101, which net/http sends ahead of the response.
abbrev pub is_informational : ℤ → Bool
is_informational code = leb_ℤ (pos 100) code && leb_ℤ code (pos 199) && not (eq_ℤ code (pos 101))

-- The status of the response that the client gets in the end.
abbrev pub client_status : List Write → ℤ
client_status [] = pos 200
client_status (set_header k v ∷ ws) = client_status ws
client_status (write_header code ∷ ws) = if is_informational code then client_status ws else code
client_status (write_body b ∷ ws) = pos 200
client_status (flush ∷ ws) = pos 200

-- What the handler does first to its status is a final WriteHeader, a Write, or nothing at all.
abbrev pub StartsFinal : List Write → Type 0
StartsFinal [] = Unit
StartsFinal (set_header k v ∷ ws) = StartsFinal ws
StartsFinal (write_header code ∷ ws) = is_informational code ≡ false
StartsFinal (write_body b ∷ ws) = Unit
StartsFinal (flush ∷ ws) = ⊥

first-eq-client : (ws : List Write) → StartsFinal ws → first_status ws ≡ client_status ws
first-eq-client [] h = refl
first-eq-client (set_header k v ∷ ws) h = first-eq-client ws h
first-eq-client (write_header code ∷ ws) h = rw h
first-eq-client (write_body b ∷ ws) h = refl
first-eq-client (flush ∷ ws) h = absurd h

-- If the handler's first WriteHeader or Write is not informational, and no Flush comes before it,
-- the recorded status is the one that the client gets.
pub status-eq-client :
    (ws : List Write) → StartsFinal ws → (record_all new_recorder ws).status ≡ client_status ws
status-eq-client ws h = (record_all_lem ws).1 ∙ first-eq-client ws h

-- An informational status sent first, such as 103, is recorded in place of the final status, which
-- is another one.
pub status-ne-client :
    (code : ℤ) (ws : List Write)
    → is_informational code ≡ true
    → is_informational (client_status ws) ≡ false
    → ((record_all new_recorder (write_header code ∷ ws)).status ≡ code)
      × ((record_all new_recorder (write_header code ∷ ws)).status
          ≢ client_status (write_header code ∷ ws))
status-ne-client code ws h k =
    let kept = (record_all_lem (write_header code ∷ ws)).1 in
    (kept, λ same. false≢true (sym k ∙ ap is_informational (sym (rw h at same) ∙ kept) ∙ h))
