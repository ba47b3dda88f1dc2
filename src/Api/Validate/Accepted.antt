-- ===== src/Api/Validate/Accepted.antt =====
-- Which sites validateSite accepts, and in what form.
use wafportal.Base.{
  Text, text_eq, is_empty, ◌≡◌, ◌↔◌, ◌∙◌, ap, refl, sym, inl, inr, Bool, true, false, not, ◌&&◌,
  ◌||◌, Bool-cases, if◌then◌else◌, Result, ok, [], ◌∷◌, arith,
}
use wafportal.Store.Models.{Site, waf_mode_on, tls_mode_auto, tls_mode_manual}
use wafportal.Api.Validate.{
  known_waf_mode, known_tls_mode, check_files, check_tls_mode, check_waf_mode, validate_site,
}

-- An empty mode stands for the default.
abbrev pub with_tls : Site → Site
with_tls site = record site {
  tls_mode = if is_empty site.tls_mode then tls_mode_auto else site.tls_mode;
}

abbrev pub with_waf : Site → Site
with_waf site = record site {
  waf_mode = if is_empty site.waf_mode then waf_mode_on else site.waf_mode;
}

abbrev pub has_files : Site → Bool
has_files site =
    not (text_eq site.tls_mode tls_mode_manual)
    || (not (is_empty site.cert_file) && not (is_empty site.key_file))

-- What the store may hold: the required fields are there, the modes are known, and a site with
-- manual TLS names both files.
pub record IsComplete (site : Site) : Type 0 where
  pub domain : is_empty site.domain ≡ false
  pub upstream_url : is_empty site.upstream_url ≡ false
  pub waf_mode : known_waf_mode site.waf_mode ≡ true
  pub tls_mode : known_tls_mode site.tls_mode ≡ true
  pub files : has_files site ≡ true

tls_mode_nonempty : (m : Text) → known_tls_mode m ≡ true → is_empty m ≡ false
unfolding text_eq
tls_mode_nonempty [] h = cc
tls_mode_nonempty (c ∷ m) h = refl

waf_mode_nonempty : (m : Text) → known_waf_mode m ≡ true → is_empty m ≡ false
unfolding text_eq
waf_mode_nonempty [] h = cc
waf_mode_nonempty (c ∷ m) h = refl

default_tls_known : known_tls_mode tls_mode_auto ≡ true
unfolding text_eq
default_tls_known = refl

default_waf_known : known_waf_mode waf_mode_on ≡ true
unfolding text_eq
default_waf_known = refl

files-ok : (site out : Site) → check_files site ≡ ok out → (out ≡ site) × (has_files out ≡ true)
unfolding check_files
files-ok site out h =
    elim (Bool-cases (
      text_eq site.tls_mode tls_mode_manual
      && (is_empty site.cert_file || is_empty site.key_file))) [
        | inl lacking ↦ cc (rw lacking at h)
        | inr there ↦ let same = same_site (rw there at h) in (sym same, rw (← same) (ground arith))
      ]
  where
    same_site : ◌≡◌ {A = Result Site} (ok site) (ok out) → site ≡ out
    same_site e = cc

tls-ok :
    (site out : Site)
    → check_tls_mode site ≡ ok out
    → (out ≡ with_tls site)
      × (known_tls_mode (with_tls site).tls_mode ≡ true)
      × (has_files out ≡ true)
unfolding check_tls_mode
tls-ok site out h = elim (Bool-cases (known_tls_mode site.tls_mode)) [
  | inl known ↦
      let (same, files) = files-ok site out (rw known at h) in
      rw (tls_mode_nonempty site.tls_mode known) (same, known, files)
  | inr unknown ↦ elim (Bool-cases (is_empty site.tls_mode)) [
    | inl blank ↦
        let (same, files) =
          files-ok (record site { tls_mode = tls_mode_auto }) out (rw (unknown, blank) at h) in
        rw blank (same, default_tls_known, files)
    | inr bad ↦ cc (rw (unknown, bad) at h)
  ]
]

waf-ok :
    (site out : Site)
    → check_waf_mode site ≡ ok out
    → (out ≡ with_waf (with_tls site))
      × (known_waf_mode (with_waf site).waf_mode ≡ true)
      × (known_tls_mode (with_tls site).tls_mode ≡ true)
      × (has_files out ≡ true)
unfolding check_waf_mode
waf-ok site out h = elim (Bool-cases (known_waf_mode site.waf_mode)) [
  | inl known ↦
      let (same, tls, files) = tls-ok site out (rw known at h) in
      rw (waf_mode_nonempty site.waf_mode known) (same, known, tls, files)
  | inr unknown ↦ elim (Bool-cases (is_empty site.waf_mode)) [
    | inl blank ↦
        let (same, tls, files) =
          tls-ok (record site { waf_mode = waf_mode_on }) out (rw (unknown, blank) at h) in
        rw blank (same, default_waf_known, tls, files)
    | inr bad ↦ cc (rw (unknown, bad) at h)
  ]
]

-- A site that passes has its empty modes replaced by the defaults, "auto" and "on", and no other
-- field changed; and it is complete.
validate_site-ok :
    (site out : Site)
    → validate_site site ≡ ok out
    → (out ≡ with_waf (with_tls site)) × IsComplete out
unfolding validate_site
validate_site-ok site out h = elim (Bool-cases (is_empty site.domain)) [
  | inl bad ↦ cc (rw bad at h)
  | inr domain ↦ elim (Bool-cases (is_empty site.upstream_url)) [
    | inl bad ↦ cc (rw (domain, bad) at h)
    | inr upstream ↦
        let (same, waf, tls, files) = waf-ok site out (rw (domain, upstream) at h) in
        (
          same,
          record {
            domain = rw same domain;
            upstream_url = rw same upstream;
            waf_mode = rw same waf;
            tls_mode = rw same tls;
            files = files;
          },
        )
  ]
]

blank_waf_mode : (m : Text) → is_empty m ≡ true → known_waf_mode m ≡ false
unfolding text_eq
blank_waf_mode [] h = refl
blank_waf_mode (c ∷ m) h = cc

blank_tls_mode : (m : Text) → is_empty m ≡ true → known_tls_mode m ≡ false
unfolding text_eq
blank_tls_mode [] h = refl
blank_tls_mode (c ∷ m) h = cc

files-accepts : (site : Site) → has_files site ≡ true → check_files site ≡ ok site
unfolding check_files
files-accepts site h =
    elim (Bool-cases (
      text_eq site.tls_mode tls_mode_manual
      && (is_empty site.cert_file || is_empty site.key_file))) [
        | inl lacking ↦ ground (arith, lacking)
        | inr there ↦ rw there refl
      ]

tls-accepts :
    (site : Site)
    → known_tls_mode (with_tls site).tls_mode ≡ true
    → has_files (with_tls site) ≡ true
    → check_tls_mode site ≡ ok (with_tls site)
unfolding check_tls_mode
tls-accepts site known files = elim (Bool-cases (is_empty site.tls_mode)) [
  | inl blank ↦
      rw (blank_tls_mode site.tls_mode blank, blank)
        (files-accepts (record site { tls_mode = tls_mode_auto }) (rw blank at files))
  | inr given ↦ rw (rw given at known) (rw given (files-accepts site (rw given at files)))
]

waf-accepts :
    (site : Site)
    → known_waf_mode (with_waf site).waf_mode ≡ true
    → known_tls_mode (with_tls site).tls_mode ≡ true
    → has_files (with_tls site) ≡ true
    → check_waf_mode site ≡ ok (with_waf (with_tls site))
unfolding check_waf_mode
waf-accepts site waf tls files = elim (Bool-cases (is_empty site.waf_mode)) [
  | inl blank ↦
      rw (blank_waf_mode site.waf_mode blank, blank)
        (tls-accepts (record site { waf_mode = waf_mode_on }) tls files)
  | inr given ↦ rw (rw given at waf) (rw given (tls-accepts site tls files))
]

accepts :
    (site : Site)
    → IsComplete (with_waf (with_tls site))
    → validate_site site ≡ ok (with_waf (with_tls site))
unfolding validate_site
accepts site whole =
    rw (whole.domain, whole.upstream_url)
      (waf-accepts site whole.waf_mode whole.tls_mode whole.files)

-- validateSite accepts a site exactly where the site with its empty modes replaced by the defaults,
-- "auto" and "on", is complete, and it gives that site back.
pub validate_site_lem :
    (site out : Site)
    → (validate_site site ≡ ok out) ↔ ((out ≡ with_waf (with_tls site)) × IsComplete out)
validate_site_lem site out =
    (validate_site-ok site out, λ (same, whole). accepts site (rw same at whole) ∙ ap ok (sym same))
