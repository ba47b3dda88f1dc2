-- ===== src/Waf/Http.antt =====
-- What the program sees of net/http: a request, and the calls that a handler makes on its
-- http.ResponseWriter.
use wafportal.Base.{Text, text, ℤ, Bool, Option, List, [], ◌∷◌, ◌++◌}

pub record Request : Type 0 where
  pub remote_addr : Text
  pub method : Text
  -- r.URL.String() and r.URL.RequestURI()
  pub url : Text
  pub request_uri : Text
  pub proto : Text
  pub headers : List (Text × List Text)
  pub host : Text
  pub transfer_encoding : List Text
  -- `none` is nil or http.NoBody
  pub body : Option Text
  -- r.TLS != nil
  pub tls : Bool

pub data Write : Type 0 where
  set_header : Text → Text → Write
  write_header : ℤ → Write
  write_body : Text → Write
  flush : Write

-- What a handler does to its writer, and whether it ends by a panic.
pub record Reply : Type 0 where
  pub writes : List Write
  pub panicked : Bool

abbrev pub replies : List Write → Reply
replies ws = record { writes = ws; panicked = Bool.false }

-- http.Error
abbrev pub http_error : Text → ℤ → List Write
http_error msg code =
    set_header (text "Content-Type") (text "text/plain; charset=utf-8")
    ∷ set_header (text "X-Content-Type-Options") (text "nosniff")
    ∷ write_header code
    ∷ write_body (msg ++ 10 ∷ [])
    ∷ []
