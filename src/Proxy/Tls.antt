-- ===== src/Proxy/Tls.antt =====
-- TLS is set up only for hosts that are served.
pub mod Auto
use wafportal.Base.{
  Text, text_eq, to_lower, get, get-put, ◌≡◌, ◌≢◌, refl, sym, ap, ◌∙◌, inl, inr, Bool, true, false,
  Bool-cases, ◌||◌, Option, none, some, List, [], ◌∷◌, if◌then◌else◌, Result, ok, err, arith,
}
use wafportal.Store.Models.{Site}
use wafportal.Waf.Coraza.{Coraza}
use wafportal.Waf.Manager.{Engines}
use wafportal.Proxy.{
  host_key, Routing, no_routes, upstream_of, handler_of, put_loaded, add_tls, add_target, add_site,
  add_sites, reload, handler_for, is_auto, has_cert, uses_tls, host_policy,
}
use wafportal.Proxy.Network.{Net}

module _ (c : Coraza) (n : Net) where
  open n use {Url, Certificate, load_key_pair}

  -- A key of one of the TLS tables.
  abbrev pub has_tls : Routing c n → Text → Bool
  has_tls t key = is_auto c n t key || has_cert c n (get key t.manual_certs)

  -- Every key with TLS has a handler.
  pub record TlsIsServed (t : Routing c n) : Type 0 where
    pub at : (key : Text) → has_tls t key ≡ true → get key t.handlers ≢ none

  get-put_loaded :
      (d key : Text) (r : Result Certificate) (t : Routing c n)
      → text_eq d key ≡ false
      → get key (put_loaded c n d r t.manual_certs) ≡ get key t.manual_certs
  get-put_loaded d key (err e) t h = refl
  get-put_loaded d key (ok cert) t h = ground (arith, get-put d key cert t.manual_certs)

  -- The switch on the TLS mode changes the tables at the site's own key only.
  has_tls-add_tls :
      (site : Site) (t : Routing c n) (key : Text)
      → text_eq (to_lower site.domain) key ≡ false
      → has_tls (add_tls c n site t) key ≡ has_tls t key
  unfolding add_tls
  has_tls-add_tls site t key h = ground (
    arith,
    get-put (to_lower site.domain) key true t.auto_domains,
    get-put_loaded (to_lower site.domain) key (load_key_pair site.cert_file site.key_file) t h,
  )

  handlers-add_tls : (site : Site) (t : Routing c n) → (add_tls c n site t).handlers ≡ t.handlers
  unfolding add_tls
  handlers-add_tls site t = ground arith

  add_target-TlsIsServed :
      (es : Engines c) (site : Site) (o : Option Url) (t : Routing c n)
      → TlsIsServed t
      → TlsIsServed (add_target c n es site o t)
  unfolding add_target
  add_target-TlsIsServed es site none t s = s
  add_target-TlsIsServed es site (some u) t s = record {
    at = λ key tls none_here.
        let found =
          sym (
            ap (get key) (handlers-add_tls site _)
            ∙ get-put (to_lower site.domain) key (handler_of c n es site u) t.handlers)
          ∙ none_here in
        elim (Bool-cases (text_eq (to_lower site.domain) key)) [
          | inl y ↦ cc (rw y at found)
          | inr z ↦ s.at key (sym (has_tls-add_tls site _ key z) ∙ tls) (rw z at found)
        ];
  }

  pub add_sites-TlsIsServed :
      (es : Engines c) (sites : List Site) (t : Routing c n)
      → TlsIsServed t
      → TlsIsServed (add_sites c n es sites t)
  unfolding add_sites add_site
  add_sites-TlsIsServed es [] t s = s
  add_sites-TlsIsServed es (site ∷ sites) t s =
      add_sites-TlsIsServed es sites _ (served site.enabled s)
    where
      served :
          (b : Bool)
          → TlsIsServed t
          → TlsIsServed (if b then add_target c n es site (upstream_of c n site) t else t)
      served true h = add_target-TlsIsServed es site (upstream_of c n site) t h
      served false h = h

  pub no_routes-TlsIsServed : TlsIsServed (no_routes c n)
  unfolding no_routes get
  no_routes-TlsIsServed = record { at = λ key h. cc }

  -- After a reload every host that is redirected to HTTPS has a handler.
  pub uses_tls-reload :
      (es : Engines c) (sites : List Site) (host : Text)
      → uses_tls c n (reload c n es sites) host ≡ true
      → handler_for c n (reload c n es sites) host ≢ none
  unfolding uses_tls handler_for reload
  uses_tls-reload es sites host =
      (add_sites-TlsIsServed es sites (no_routes c n) no_routes-TlsIsServed).at (host_key host)

  -- After a reload autocert is allowed to request a certificate only for a name that has a handler.
  pub host_policy-reload :
      (es : Engines c) (sites : List Site) (host : Text)
      → host_policy c n (reload c n es sites) host ≡ none
      → get (to_lower host) (reload c n es sites).handlers ≢ none
  unfolding host_policy reload
  host_policy-reload es sites host free =
      (add_sites-TlsIsServed es sites (no_routes c n) no_routes-TlsIsServed).at (to_lower host)
        (ground arith)
