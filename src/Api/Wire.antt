-- ===== src/Api/Wire.antt =====
-- Requests and responses of internal/api, after routing and JSON decoding and before encoding.
use wafportal.Base.{Text, ℤ, Bool, Option, List, Result}
use wafportal.Store.Models.{Site, CustomRule, Event, Stats}
use wafportal.Auth.Session.{Cookie}

pub record Credentials : Type 0 where
  pub username : Text
  pub password : Text

pub record PasswordChange : Type 0 where
  pub current : Text
  pub next : Text

-- The query parameters of GET /api/events, "" where one is missing.
pub record EventQuery : Type 0 where
  pub domain : Text
  pub blocked : Text
  pub limit : Text
  pub offset : Text

-- A route of Handler with its path parameter, and with what json.Decoder made of the body.
pub data Endpoint : Type 0 where
  health logout me list_sites list_rules : Endpoint
  login : Result Credentials → Endpoint
  change_password : Result PasswordChange → Endpoint
  create_site : Result Site → Endpoint
  get_site delete_site get_rule delete_rule : Text → Endpoint
  update_site : Text → Result Site → Endpoint
  create_rule : Result CustomRule → Endpoint
  update_rule : Text → Result CustomRule → Endpoint
  list_events : EventQuery → Endpoint
  -- the parameter `window`, if there is one, as time.ParseDuration reads it
  stats : Option (Result ℤ) → Endpoint

pub record Call : Type 0 where
  pub endpoint : Endpoint
  -- the value of the session cookie, if there is one
  pub session : Option Text
  pub tls : Bool

pub data Body : Type 0 where
  nothing status_ok : Body
  error : Text → Body
  user : Text → Body
  site : Site → Body
  sites : List Site → Body
  rule : CustomRule → Body
  rules : List CustomRule → Body
  events : List Event → Body
  stats : Stats → Body

pub record Response : Type 0 where
  pub status : ℤ
  pub body : Body
  pub cookie : Option Cookie
