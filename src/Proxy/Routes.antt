-- ===== src/Proxy/Routes.antt =====
-- The routing table that Reload builds, against a description by sites.
pub mod Sole
use wafportal.Base.{
  Text, text_eq, to_lower, get, get-put, ◌≡◌, refl, ap, ◌∙◌, Bool, true, false, Option, none, some,
  List, [], ◌∷◌, if◌then◌else◌, arith,
}
use wafportal.Store.Models.{Site}
use wafportal.Waf.Coraza.{Coraza}
use wafportal.Waf.Manager.{Engines}
use wafportal.Proxy.{
  host_key, Handler, Routing, no_routes, upstream_of, handler_of, add_tls, add_target, add_site,
  add_sites, reload, handler_for,
}
use wafportal.Proxy.Network.{Net}

module _ (c : Coraza) (n : Net) where
  open n use {Url, Certificate, load_key_pair}

  -- The handler of a site that Reload does not skip.
  abbrev pub active : Engines c → Site → Option (Handler c n)
  active es site =
      if site.enabled
      then elim (upstream_of c n site) [ none ↦ none | some u ↦ some (handler_of c n es site u) ]
      else none

  -- The handler that a site gives a key, if it has that domain.
  abbrev pub offers : Engines c → Text → Site → Option (Handler c n)
  offers es key site = if text_eq (to_lower site.domain) key then active es site else none

  abbrev pub or_else : Option (Handler c n) → Option (Handler c n) → Option (Handler c n)
  or_else none o = o
  or_else (some h) o = some h

  -- Of several sites for one key the last one counts.
  abbrev pub route : Engines c → List Site → Text → Option (Handler c n)
  route es [] key = none
  route es (site ∷ sites) key = or_else (route es sites key) (offers es key site)

  handlers-add_tls : (site : Site) (t : Routing c n) → (add_tls c n site t).handlers ≡ t.handlers
  unfolding add_tls
  handlers-add_tls site t = ground arith

  abbrev handler_if : Engines c → Site → Bool → Option Url → Option (Handler c n)
  handler_if es site false o = none
  handler_if es site true none = none
  handler_if es site true (some u) = some (handler_of c n es site u)

  get-add_target :
      (es : Engines c) (site : Site) (t : Routing c n) (key : Text) (b : Bool) (o : Option Url)
      → get key (if b then add_target c n es site o t else t).handlers
        ≡ or_else
            (if text_eq (to_lower site.domain) key then handler_if es site b o else none)
            (get key t.handlers)
  unfolding add_target
  get-add_target es site t key false o = ground arith
  get-add_target es site t key true none = ground arith
  get-add_target es site t key true (some u) =
      ap (get key) (handlers-add_tls site _)
      ∙ get-put (to_lower site.domain) key (handler_of c n es site u) t.handlers
      ∙ ground arith

  get-add_site :
      (es : Engines c) (site : Site) (t : Routing c n) (key : Text)
      → get key (add_site c n es site t).handlers
        ≡ or_else (offers es key site) (get key t.handlers)
  unfolding add_site
  get-add_site es site t key =
      get-add_target es site t key site.enabled (upstream_of c n site) ∙ ground arith

  or_else_assoc : (x y z : Option (Handler c n)) → or_else x (or_else y z) ≡ or_else (or_else x y) z
  or_else_assoc none y z = refl
  or_else_assoc (some h) y z = refl

  get-add_sites :
      (es : Engines c) (sites : List Site) (t : Routing c n) (key : Text)
      → get key (add_sites c n es sites t).handlers
        ≡ or_else (route es sites key) (get key t.handlers)
  unfolding add_sites
  get-add_sites es [] t key = refl
  get-add_sites es (site ∷ sites) t key =
      get-add_sites es sites (add_site c n es site t) key
      ∙ ap (or_else (route es sites key)) (get-add_site es site t key)
      ∙ or_else_assoc (route es sites key) (offers es key site) (get key t.handlers)

  or_else-none : (x : Option (Handler c n)) → or_else x none ≡ x
  or_else-none none = refl
  or_else-none (some h) = refl

  -- After a reload a host is served by the last site in the list that is enabled, has a usable
  -- upstream and whose domain is the host without case and port; by none if there is no such site.
  pub handler_for-reload :
      (es : Engines c) (sites : List Site) (host : Text)
      → handler_for c n (reload c n es sites) host ≡ route es sites (host_key host)
  unfolding handler_for reload no_routes get
  handler_for-reload es sites host =
      get-add_sites es sites (no_routes c n) (host_key host) ∙ or_else-none _
