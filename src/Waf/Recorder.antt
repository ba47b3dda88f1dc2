-- ===== src/Waf/Recorder.antt =====
-- The statusRecorder of internal/waf/middleware.go.
pub mod Status
use wafportal.Base.{ℤ, pos, Bool, true, false, if◌then◌else◌, List, [], ◌∷◌, ◌++◌}
use wafportal.Waf.Http.{Write, set_header, write_header, write_body, flush}

-- `sent` is what the wrapped http.ResponseWriter was called with.
pub record StatusRecorder : Type 0 where
  pub status : ℤ
  pub wrote_header : Bool
  pub sent : List Write

abbrev pub new_recorder : StatusRecorder
new_recorder = record { status = pos 200; wrote_header = false; sent = [] }

abbrev pass : Write → StatusRecorder → StatusRecorder
pass w s = record s { sent = s.sent ++ w ∷ [] }

-- One call on the recorder; Header() is the wrapped writer's own.
unfoldable pub record_write : StatusRecorder → Write → StatusRecorder
record_write s (set_header k v) = pass (set_header k v) s
record_write s (write_header code) =
    pass (write_header code)
      (if s.wrote_header then s else record s { status = code; wrote_header = true })
record_write s (write_body b) = pass (write_body b) (record s { wrote_header = true })
record_write s flush = pass flush s

unfoldable pub record_all : StatusRecorder → List Write → StatusRecorder
record_all s [] = s
record_all s (w ∷ ws) = record_all (record_write s w) ws
