-- ===== src/Config.antt =====
-- internal/config/config.go. A rate of requests is a floating-point number of the type `Rate`, whose
-- numbers are a parameter.
use wafportal.Base.{
  Text, text, quoted, ℕ, ℤ, pos, Bool, true, false, Option, none, some, [], ◌++◌, Error,
}

pub record RateLimitConfig (Rate : Type 0) : Type 0 where
  pub enabled : Bool
  pub requests_per_second : Rate
  pub burst : ℤ
  pub trust_forwarded_header : Bool
  pub forwarded_header : Text

pub record ProxyConfig : Type 0 where
  pub http_addr : Text
  pub https_addr : Text

pub record AdminConfig : Type 0 where
  pub addr : Text
  pub username : Text
  pub password : Text

pub record TlsConfig : Type 0 where
  pub email : Text
  pub cache_dir : Text

pub record DatabaseConfig : Type 0 where
  pub path : Text

pub record Config (Rate : Type 0) : Type 0 where
  pub proxy : ProxyConfig
  pub admin : AdminConfig
  pub tls : TlsConfig
  pub database : DatabaseConfig
  pub rate_limit : RateLimitConfig Rate

-- What os.ReadFile gives.
pub data FileRead : Type 0 where
  contents : Text → FileRead
  not_exist : FileRead
  failed : Error → FileRead

module _ {Rate : Type 0} (rate : ℕ → Rate) where
  unfoldable pub default : Config Rate
  default = record {
    proxy = record { http_addr = text ":80"; https_addr = text ":443" };
    admin = record { addr = text "127.0.0.1:9090"; username = []; password = [] };
    tls = record { email = []; cache_dir = text "./certs" };
    database = record { path = text "./wafportal.db" };
    rate_limit = record {
      enabled = true;
      requests_per_second = rate 20;
      burst = pos 40;
      trust_forwarded_header = false;
      forwarded_header = text "X-Forwarded-For";
    };
  }

  -- yaml.Unmarshal writes the fields that the document names, also where it then fails.
  module _ (unmarshal : Text → Config Rate → Option Error × Config Rate) where
    abbrev parsed : Text → Option Error × Config Rate → Option Error × Config Rate
    parsed path (none, cfg) = (none, cfg)
    parsed path (some e, cfg) =
        (some (text "parse config " ++ (quoted path ++ (text ": " ++ e))), cfg)

    unfoldable pub load : Text → FileRead → Option Error × Config Rate
    load path not_exist = (none, default)
    load path (failed e) =
        (some (text "read config " ++ (quoted path ++ (text ": " ++ e))), default)
    load path (contents doc) = parsed path (unmarshal doc default)
