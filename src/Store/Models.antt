-- ===== src/Store/Models.antt =====
-- internal/store/models.go. A time is the number of nanoseconds since the Unix epoch.
use wafportal.Base.{Text, text, ℕ, ℤ, Bool, List}

abbrev pub Time : Type 0
Time = ℕ

abbrev pub WafMode : Type 0
WafMode = Text

abbrev pub waf_mode_on : WafMode
waf_mode_on = text "on"

abbrev pub waf_mode_detection : WafMode
waf_mode_detection = text "detection"

abbrev pub waf_mode_off : WafMode
waf_mode_off = text "off"

abbrev pub TlsMode : Type 0
TlsMode = Text

abbrev pub tls_mode_auto : TlsMode
tls_mode_auto = text "auto"

abbrev pub tls_mode_manual : TlsMode
tls_mode_manual = text "manual"

abbrev pub tls_mode_off : TlsMode
tls_mode_off = text "off"

pub record Site : Type 0 where
  pub id : ℤ
  pub domain : Text
  pub upstream_url : Text
  pub waf_mode : WafMode
  pub tls_mode : TlsMode
  pub cert_file : Text
  pub key_file : Text
  pub enabled : Bool
  pub created_at : Time
  pub updated_at : Time

pub record CustomRule : Type 0 where
  pub id : ℤ
  pub name : Text
  pub directive : Text
  pub description : Text
  pub enabled : Bool
  pub created_at : Time
  pub updated_at : Time

pub record Event : Type 0 where
  pub id : ℤ
  pub timestamp : Time
  pub tx_id : Text
  pub domain : Text
  pub client_ip : Text
  pub method : Text
  pub uri : Text
  pub blocked : Bool
  pub status_code : ℤ
  pub rule_id : ℤ
  pub message : Text
  pub severity : ℤ
  pub anomaly_score : ℤ
  pub matched_rules : List ℤ

pub record RuleCount : Type 0 where
  pub rule_id : ℤ
  pub message : Text
  pub count : ℕ

pub record ClientCount : Type 0 where
  pub client_ip : Text
  pub count : ℕ

pub record TimelinePoint : Type 0 where
  pub bucket : Time
  pub total : ℕ
  pub blocked : ℕ

pub record Stats : Type 0 where
  pub total_events : ℕ
  pub blocked_events : ℕ
  pub top_rules : List RuleCount
  pub top_clients : List ClientCount
  pub timeline : List TimelinePoint
