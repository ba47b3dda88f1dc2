-- ===== src/Proxy/Tls/Auto.antt =====
-- Which hosts the table of automatic TLS has after a reload.
use wafportal.Base.{
  Text, text_eq, text_eq_refl, to_lower, get-put, ◌≡◌, refl, Bool, true, false, Option, none, some,
  List, [], ◌∷◌, ◌++◌, if◌then◌else◌, arith,
}
use wafportal.Store.Models.{Site, tls_mode_auto}
use wafportal.Waf.Coraza.{Coraza}
use wafportal.Waf.Manager.{Engines}
use wafportal.Proxy.{
  host_key, Routing, no_routes, upstream_of, add_tls, add_target, add_site, add_sites, reload,
  is_auto, uses_tls,
}
use wafportal.Proxy.Network.{Net}

module _ (c : Coraza) (n : Net) where
  open n use {Url}

  add_target-is_auto :
      (es : Engines c) (site : Site) (o : Option Url) (t : Routing c n) (key : Text)
      → is_auto c n t key ≡ true
      → is_auto c n (add_target c n es site o t) key ≡ true
  unfolding add_target add_tls
  add_target-is_auto es site none t key h = h
  add_target-is_auto es site (some u) t key h =
      ground (arith, get-put (to_lower site.domain) key true t.auto_domains)

  add_site-is_auto :
      (es : Engines c) (site : Site) (t : Routing c n) (key : Text)
      → is_auto c n t key ≡ true
      → is_auto c n (add_site c n es site t) key ≡ true
  unfolding add_site
  add_site-is_auto es site t key h = added site.enabled
    where
      added :
          (b : Bool)
          → is_auto c n (if b then add_target c n es site (upstream_of c n site) t else t) key
            ≡ true
      added true = add_target-is_auto es site (upstream_of c n site) t key h
      added false = h

  add_sites-is_auto :
      (es : Engines c) (sites : List Site) (t : Routing c n) (key : Text)
      → is_auto c n t key ≡ true
      → is_auto c n (add_sites c n es sites t) key ≡ true
  unfolding add_sites
  add_sites-is_auto es [] t key h = h
  add_sites-is_auto es (site ∷ sites) t key h =
      add_sites-is_auto es sites (add_site c n es site t) key (add_site-is_auto es site t key h)

  -- A site that is enabled, in mode "auto" and with a usable upstream.
  pub record IsAuto (site : Site) : Type 0 where
    pub enabled : site.enabled ≡ true
    pub mode : text_eq site.tls_mode tls_mode_auto ≡ true
    pub target : Url
    pub usable : upstream_of c n site ≡ some target

  own-is_auto :
      (es : Engines c) (site : Site) (t : Routing c n)
      → IsAuto site
      → is_auto c n (add_site c n es site t) (to_lower site.domain) ≡ true
  unfolding add_site add_target add_tls
  own-is_auto es site t auto = added site.enabled auto.enabled
    where
      routed :
          (o : Option Url)
          → o ≡ some auto.target
          → is_auto c n (add_target c n es site o t) (to_lower site.domain) ≡ true
      routed none none_here = cc
      routed (some u) same = ground (
        arith,
        auto.mode,
        get-put (to_lower site.domain) (to_lower site.domain) true t.auto_domains,
        text_eq_refl (to_lower site.domain),
      )

      added :
          (b : Bool)
          → b ≡ true
          → is_auto c n
              (if b then add_target c n es site (upstream_of c n site) t else t)
              (to_lower site.domain)
            ≡ true
      added true on = routed (upstream_of c n site) auto.usable
      added false off = cc

  found-is_auto :
      (es : Engines c) (xs ys : List Site) (site : Site) (t : Routing c n)
      → IsAuto site
      → is_auto c n (add_sites c n es (xs ++ site ∷ ys) t) (to_lower site.domain) ≡ true
  unfolding add_sites
  found-is_auto es [] ys site t auto =
      add_sites-is_auto es ys (add_site c n es site t) (to_lower site.domain)
        (own-is_auto es site t auto)
  found-is_auto es (x ∷ xs) ys site t auto = found-is_auto es xs ys site (add_site c n es x t) auto

  -- After a reload the host of such a site is redirected to HTTPS.
  pub uses_tls-auto :
      (es : Engines c) (xs ys : List Site) (site : Site) (host : Text)
      → IsAuto site
      → host_key host ≡ to_lower site.domain
      → uses_tls c n (reload c n es (xs ++ site ∷ ys)) host ≡ true
  unfolding uses_tls reload
  uses_tls-auto es xs ys site host auto meant =
      rw (meant, found-is_auto es xs ys site (no_routes c n) auto) refl
