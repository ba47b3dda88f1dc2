-- ===== src/Tests/Fixtures.antt =====
-- Concrete data, and stand-ins for the packages that the model takes as parameters.
use wafportal.Base.{
  ◌++◌, ap, Text, text, text_eq, text_eq_refl, ℕ, ◌+◌, leb, pos, ◌==◌, any, not, ◌≡◌, refl, sym,
  ◌∙◌, Bool, true, false, ◌&&◌, if◌then◌else◌, Option, none, some, [], ◌∷◌, Result, ok, err, arith,
}
use mathlib.Core.List.{append-nil}
use wafportal.Store.Models.{Time, Site, CustomRule, Event}
use wafportal.Store.Db.{Db, Tables, empty_tables}
use wafportal.Waf.Coraza.{Coraza, Interruption, MatchedRule}
use wafportal.Waf.Http.{Request, write_header, write_body, Reply, replies}
use wafportal.Waf.Inspect.Body.{KeepsBytes}
use wafportal.Proxy.Network.{Net}
use wafportal.RateLimit.{Buckets, ten_minutes}
use wafportal.RateLimit.Eviction.{Refills}
use wafportal.Auth.Primitives.{Crypto, Entropy}
use wafportal.Auth.Account.{Matches}
use wafportal.Api.State.{Moment}

abbrev pub shop : Site
shop = record {
  id = pos 0;
  domain = text "Shop.example";
  upstream_url = text "app";
  waf_mode = text "on";
  tls_mode = text "auto";
  cert_file = [];
  key_file = [];
  enabled = true;
  created_at = 0;
  updated_at = 0;
}

abbrev pub stored_shop : Site
stored_shop = record shop { id = pos 1; created_at = 5; updated_at = 5 }

abbrev pub bad_rule : CustomRule
bad_rule = record {
  id = pos 0;
  name = text "r";
  directive = text "!";
  description = [];
  enabled = true;
  created_at = 0;
  updated_at = 0;
}

abbrev pub good_rule : CustomRule
good_rule = record bad_rule { id = pos 1; directive = text "SecRule" }

abbrev pub an_event : Event
an_event = record {
  id = pos 0;
  timestamp = 9;
  tx_id = text "t";
  domain = text "shop";
  client_ip = text "1";
  method = text "GET";
  uri = text "/";
  blocked = true;
  status_code = pos 403;
  rule_id = pos 7;
  message = text "m";
  severity = pos 2;
  anomaly_score = pos 5;
  matched_rules = pos 7 ∷ [];
}

abbrev pub empty_db : Db
empty_db = record { tables = empty_tables; faults = [] }

-- The shop and one rule are stored.
abbrev pub shop_tables : Tables
shop_tables = record empty_tables {
  sites = record { rows = stored_shop ∷ []; last_id = 1 };
  rules = record { rows = good_rule ∷ []; last_id = 1 };
}

abbrev pub shop_db : Db
shop_db = record { tables = shop_tables; faults = [] }

abbrev pub has : ℕ → Text → Bool
has b s = any (λ c. c == b) s

-- A transaction knows whether it blocks, whether it saw an attack, its body and its id.
pub record Tx : Type 0 where
  pub blocks : Bool
  pub attacked : Bool
  pub body : Text
  pub nonce : Text

abbrev pub sqli : MatchedRule
sqli = record { message = text "SQLi (Total Score: 5)"; severity = pos 2; id = pos 942100 }

abbrev pub deny : Interruption
deny = record { rule_id = pos 942100; status = pos 403 }

-- A rule with "!" does not compile; a URL with a quote is an attack.
abbrev pub toy_coraza : Coraza
toy_coraza = record {
  Engine = Bool;
  Transaction = Tx;
  new_waf = λ directives.
      if has b'!' directives then err (text "syntax") else ok (not (has b'D' directives));
  new_transaction = λ e nonce. record { blocks = e; attacked = false; body = []; nonce = nonce };
  process_connection = λ ip port tx. tx;
  process_uri = λ uri method proto tx. record tx { attacked = has 39 uri };
  add_request_header = λ k v tx. tx;
  set_server_name = λ host tx. tx;
  process_request_headers = λ tx. (none, tx);
  is_request_body_accessible = λ tx. true;
  read_request_body_from = λ b tx. (ok none, [], record tx { body = tx.body ++ b });
  request_body_reader = λ tx. ok tx.body;
  process_request_body = λ tx. (if tx.blocks && tx.attacked then ok (some deny) else ok none, tx);
  process_response_headers = λ status proto tx. tx;
  process_logging = λ tx. tx;
  matched_rules = λ tx. if tx.attacked then sqli ∷ [] else [];
  interruption = λ tx. if tx.blocks && tx.attacked then some deny else none;
  transaction_id = λ tx. tx.nonce;
}

unwrap : {a b : Text} → ◌≡◌ {A = Result Text} (ok a) (ok b) → a ≡ b
unwrap h = cc

pub toy_coraza-KeepsBytes : KeepsBytes toy_coraza
toy_coraza-KeepsBytes = record {
  fresh = λ e nonce. refl;
  connection = λ ip port tx. refl;
  uri = λ url method proto tx. refl;
  header = λ k v tx. refl;
  server = λ host tx. refl;
  headers = λ tx. refl;
  read = λ b tx before after h k. append-nil after ∙ sym (unwrap k) ∙ ap (λ s. s ++ b) (unwrap h);
}

abbrev pub served_ok : Reply
served_ok = replies (write_header (pos 200) ∷ write_body (text "ok") ∷ [])

abbrev pub toy_net : Net
toy_net = record {
  Url = Text;
  parse_url = ok;
  url_host = λ u. u;
  round_trip = λ u r. ok served_ok;
  Certificate = Text;
  load_key_pair = λ cert key. ok cert;
  acme_challenge = λ policy r. none;
  acme_certificate = λ name. err (text "no account");
}

-- One token, back a nanosecond after the last request.
abbrev pub toy_take : Time → Option Time → Bool × Option Time
toy_take now none = (true, some now)
toy_take now (some last) = (leb (last + 1) now, some now)

abbrev pub toy_buckets : Buckets
toy_buckets = record { Bucket = Option Time; fresh = none; take_token = toy_take }

pub toy_buckets-Refills : Refills toy_buckets ten_minutes
toy_buckets-Refills none t now h = ground arith
toy_buckets-Refills (some x) t now h = ground arith

-- A hash is the password, and a signature the message.
abbrev pub toy_crypto : Crypto
toy_crypto = record {
  hash_password = λ salt pw. ok pw;
  compare_hash = λ hash pw. text_eq hash pw;
  mac = λ secret message. message;
}

pub toy_crypto-Matches : Matches toy_crypto
toy_crypto-Matches salt pw hash h = rw (← unwrap h) (text_eq_refl pw)

abbrev pub a_moment : Moment
a_moment = record { secret = text "s"; now = 1; salt = []; bare = λ g. g.0 }

abbrev pub attack : Request
attack = record {
  remote_addr = text "10.0.0.1:5";
  method = text "POST";
  url = text "/?q='";
  request_uri = text "/?q='";
  proto = text "HTTP/1.1";
  headers = [];
  host = text "SHOP.example:443";
  transfer_encoding = [];
  body = some (text "hi");
  tls = true;
}

abbrev pub visit : Request
visit = record attack { url = text "/"; request_uri = text "/" }

abbrev pub draws : Entropy
draws = record {
  secret_bytes = ok (text "key");
  password_bytes = err (text "no entropy");
  salt = [];
}
