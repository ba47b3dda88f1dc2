-- ===== src/Api/Validate.antt =====
-- validateSite, idParam and atoiDefault of internal/api/api.go.
pub mod Accepted
use wafportal.Base.{
  Text, text, text_eq, is_empty, ℤ, parse_int, Bool, ◌&&◌, ◌||◌, if◌then◌else◌, Result, ok, err,
}
use wafportal.Store.Models.{
  Site, waf_mode_on, waf_mode_detection, waf_mode_off, tls_mode_auto, tls_mode_manual, tls_mode_off,
}

abbrev pub known_waf_mode : Text → Bool
known_waf_mode m = text_eq m waf_mode_on || text_eq m waf_mode_detection || text_eq m waf_mode_off

abbrev pub known_tls_mode : Text → Bool
known_tls_mode m = text_eq m tls_mode_auto || text_eq m tls_mode_manual || text_eq m tls_mode_off

-- The last test.
unfoldable pub check_files : Site → Result Site
check_files site =
    if text_eq site.tls_mode tls_mode_manual && (is_empty site.cert_file || is_empty site.key_file)
    then err (text "cert_file and key_file are required for manual TLS")
    else ok site

-- The switch on site.TLSMode, and what follows.
unfoldable pub check_tls_mode : Site → Result Site
check_tls_mode site =
    if known_tls_mode site.tls_mode
    then check_files site
    else if is_empty site.tls_mode
    then check_files (record site { tls_mode = tls_mode_auto })
    else err (text "invalid tls_mode")

-- The switch on site.WAFMode, and what follows.
unfoldable pub check_waf_mode : Site → Result Site
check_waf_mode site =
    if known_waf_mode site.waf_mode
    then check_tls_mode site
    else if is_empty site.waf_mode
    then check_tls_mode (record site { waf_mode = waf_mode_on })
    else err (text "invalid waf_mode")

-- The site with its defaults filled in, or the message.
unfoldable pub validate_site : Site → Result Site
validate_site site =
    if is_empty site.domain
    then err (text "domain is required")
    else if is_empty site.upstream_url
    then err (text "upstream_url is required")
    else check_waf_mode site

unfoldable pub id_param : Text → ℤ
id_param s = (parse_int s).value

unfoldable pub atoi_default : Text → ℤ → ℤ
atoi_default s def = if (parse_int s).valid then (parse_int s).value else def
