-- ===== src/Server/Startup.antt =====
-- main and startServers of cmd/wafportal/main.go, up to the point where the servers listen; log.Fatalf
-- is the error that ends it. What the operating system and the embedded files answer is a record.
pub mod Ready
pub mod Broken
pub mod Sound
pub mod States
pub mod Plaintext
use wafportal.Base.{
  Text, text, is_empty, ℕ, ℤ, ◌*◌, Bool, true, false, if◌then◌else◌, Option, none, some, List, [],
  ◌∷◌, ◌++◌, Result, ok, err, Error, continue, ◌>>=◌, ◌>>◌, pure, raise,
}
use wafportal.Store.Models.{Time}
use wafportal.Store.Db.{Db, Call, exec}
use wafportal.Waf.Coraza.{Coraza}
use wafportal.Waf.Manager.{new_manager}
use wafportal.Proxy.{new_proxy}
use wafportal.Proxy.Network.{Net}
use wafportal.Auth
use wafportal.Auth.{Authenticator, username}
use wafportal.Auth.Primitives.{Crypto, Entropy}
use wafportal.Auth.Session.{second}
use wafportal.Config.{Config, FileRead, load}
use wafportal.Server.{Plane, Reloaded, reload}
use wafportal.Server.ClientIp.{ForwardedConfig}

pub record Host (Rate : Type 0) : Type 0 where
  pub config_path : Text
  pub config_file : FileRead
  pub unmarshal : Text → Config Rate → Option Error × Config Rate
  -- the error of sql.Open, and of Dist of web/embed.go
  pub sql_open : Option Error
  pub dist : Option Error
  -- os.Getenv("WAFPORTAL_ADMIN_PASSWORD")
  pub env_password : Text
  pub entropy : Entropy

-- The handlers of the listeners: the API, the proxy behind its redirects, and the proxy itself.
pub data Serves : Type 0 where
  portal plain tls : Serves

-- The fields of http.Server that are set; a time of 0 is no limit.
pub record Listener : Type 0 where
  pub addr : Text
  pub serves : Serves
  pub read_header_timeout : Time
  pub read_timeout : Time
  pub write_timeout : Time
  pub idle_timeout : Time

abbrev pub portal_server : Text → Listener
portal_server addr = record {
  addr = addr;
  serves = Serves.portal;
  read_header_timeout = 10 * second;
  read_timeout = 30 * second;
  write_timeout = 60 * second;
  idle_timeout = 120 * second;
}

-- A server after setProxyTimeouts.
abbrev pub proxy_server : Text → Serves → Listener
proxy_server addr handler = record {
  addr = addr;
  serves = handler;
  read_header_timeout = 10 * second;
  read_timeout = 0;
  write_timeout = 0;
  idle_timeout = 120 * second;
}

unfoldable pub start_servers : {Rate : Type 0} → Config Rate → List Listener
start_servers cfg =
    portal_server cfg.admin.addr
    ∷ proxy_server cfg.proxy.http_addr Serves.plain
    ∷ (if is_empty cfg.proxy.https_addr
        then []
        else proxy_server cfg.proxy.https_addr Serves.tls ∷ [])

-- log.Fatalf(what + "%v", err)
abbrev pub fatal : {A : Type 0} → Text → Result A × Db → Result A × Db
fatal what (ok a, db) = (ok a, db)
fatal what (err e, db) = (err (what ++ e), db)

abbrev pub fails_with : Option Error → Call (Unit {0})
fails_with none db = (ok tt, db)
fails_with (some e) db = (err e, db)

-- The statement creates what is missing, and a database always has its tables here.
unfoldable pub migrate : Call (Unit {0})
migrate db = fatal (text "migrate: ") (exec (λ t. ok (tt, t)) db)

-- A new file has empty tables.
unfoldable pub open_store : Option Error → Call (Unit {0})
open_store sql_open db = continue (fatal (text "open db: ") (fails_with sql_open db)) (λ _. migrate)

module _ {Rate : Type 0} (rate : ℕ → Rate) where
  abbrev pub loaded : Option Error × Config Rate → Call (Config Rate)
  loaded (none, cfg) db = (ok cfg, db)
  loaded (some e, cfg) db = (err e, db)

  abbrev pub configured : Host Rate → Option Error × Config Rate
  configured h = load rate h.unmarshal h.config_path h.config_file

  abbrev pub admin_password : Host Rate → Config Rate → Text
  admin_password h cfg = if is_empty h.env_password then cfg.admin.password else h.env_password

  -- The two fields that clientIPFunc reads.
  abbrev pub forwarded_of : Config Rate → ForwardedConfig
  forwarded_of cfg = record {
    trust_forwarded_header = cfg.rate_limit.trust_forwarded_header;
    forwarded_header = cfg.rate_limit.forwarded_header;
  }

  module _ (c : Coraza) (n : Net) (k : Crypto) where
    pub record Started : Type 0 where
      pub plane : Plane c n
      pub authenticator : Authenticator
      -- whether there is a limiter, and its rate and burst
      pub limiter : Option (Rate × ℤ)
      pub forwarded : ForwardedConfig
      pub servers : List Listener

    abbrev pub first_plane : Plane c n
    first_plane = record { engines = new_manager c; routing = new_proxy c n }

    abbrev pub plane_of : Reloaded c n → Result (Plane c n) × Db
    plane_of (none, s) = (ok s.plane, s.db)
    plane_of (some e, s) = (err e, s.db)

    unfoldable pub first_reload : Call (Plane c n)
    first_reload db = plane_of (reload c n (record { db = db; plane = first_plane }))

    -- The log lines with the password that New generated name the stored user.
    abbrev pub announce : Authenticator → Call (Unit {0})
    announce a db = if is_empty a.generated_password then (ok tt, db) else (ok tt, (username db).1)

    -- From the log lines on.
    unfoldable pub serve : Host Rate → Config Rate → Plane c n → Authenticator → Call Started
    serve h cfg plane authn = do
      announce authn
      λ db. fatal (text "embedded SPA: ") (fails_with h.dist db)
      pure (record {
        plane = plane;
        authenticator = authn;
        limiter =
            if cfg.rate_limit.enabled
            then some (cfg.rate_limit.requests_per_second, cfg.rate_limit.burst)
            else none;
        forwarded = forwarded_of cfg;
        servers = start_servers cfg;
      })

    -- From the administrator's account on.
    unfoldable pub open_portal : Host Rate → Config Rate → Plane c n → Call Started
    open_portal h cfg plane = do
      authn ← λ db.
          fatal (text "auth: ") (Auth.new k h.entropy cfg.admin.username (admin_password h cfg) db)
      serve h cfg plane authn

    -- From the store on.
    unfoldable pub boot_with : Host Rate → Config Rate → Call Started
    boot_with h cfg = do
      λ db. fatal (text "store: ") (open_store h.sql_open db)
      plane ← λ db. fatal (text "initial WAF load: ") (first_reload db)
      open_portal h cfg plane

    unfoldable pub boot : Host Rate → Call Started
    boot h = do cfg ← λ db. fatal (text "config: ") (loaded (configured h) db); boot_with h cfg
