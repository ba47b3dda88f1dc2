-- ===== src/Proxy/Unreached.antt =====
-- Sites that Reload puts in the table and no request finds.
use wafportal.Base.{
  Text, text_eq, text_eq_iff, to_lower, before, ◌≡◌, ◌==◌, refl, sym, ap, ◌∙◌, inl, inr, Bool, true,
  false, Bool-cases, any, Option, none, some, List, [], ◌∷◌, ◌++◌, arith,
}
use wafportal.Store.Models.{Site}
use wafportal.Waf.Coraza.{Coraza}
use wafportal.Waf.Manager.{Engines}
use wafportal.Proxy.{host_key, Handler, reload, handler_for}
use wafportal.Proxy.Routes.{active, offers, or_else, route, handler_for-reload}
use wafportal.Proxy.Network.{Net}

abbrev pub has_colon : Text → Bool
has_colon s = any (λ x. x == b':') s

has_colon-before : (s : Text) → has_colon (before b':' s) ≡ false
unfolding before
has_colon-before [] = refl
has_colon-before (x ∷ s) = ground (arith, has_colon-before s)

has_colon-to_lower : (s : Text) → has_colon (to_lower s) ≡ has_colon s
unfolding to_lower
has_colon-to_lower [] = refl
has_colon-to_lower (x ∷ s) = ground (arith, has_colon-to_lower s)

-- A host's key is never a domain with a colon.
port_apart :
    (domain host : Text)
    → has_colon domain ≡ true
    → text_eq (to_lower domain) (host_key host) ≡ false
unfolding host_key
port_apart domain host port = elim (Bool-cases (text_eq (to_lower domain) (host_key host))) [
  | inr apart ↦ apart
  | inl same ↦
      let eq = (text_eq_iff (to_lower domain) (host_key host)).0 same in
      cc (has_colon-to_lower domain, port, ap has_colon eq, has_colon-before (to_lower host))
]

module _ (c : Coraza) (n : Net) where
  -- A site that offers a key nothing that the sites behind it do not offer.
  route-skip :
      (es : Engines c) (xs : List Site) (site : Site) (ys : List Site) (key : Text)
      → or_else c n (route c n es ys key) (offers c n es key site) ≡ route c n es ys key
      → route c n es (xs ++ site ∷ ys) key ≡ route c n es (xs ++ ys) key
  route-skip es [] site ys key h = h
  route-skip es (x ∷ xs) site ys key h =
      ap (λ o. or_else c n o (offers c n es key x)) (route-skip es xs site ys key h)

  or_else-none : (o : Option (Handler c n)) → or_else c n o none ≡ o
  or_else-none none = refl
  or_else-none (some h) = refl

  -- A site whose domain has a colon in it, as "shop.example:8080" does, serves no request: with or without
  -- it a reload gives every host the same handler.
  pub handler_for-port :
      (es : Engines c) (xs ys : List Site) (site : Site) (host : Text)
      → has_colon site.domain ≡ true
      → handler_for c n (reload c n es (xs ++ site ∷ ys)) host
        ≡ handler_for c n (reload c n es (xs ++ ys)) host
  handler_for-port es xs ys site host port =
      handler_for-reload c n es (xs ++ site ∷ ys) host
      ∙ (route-skip es xs site ys (host_key host)
            (rw (port_apart site.domain host port) (or_else-none (route c n es ys (host_key host))))
          ∙ sym (handler_for-reload c n es (xs ++ ys) host))

  or_else-some :
      (o : Option (Handler c n)) (h : Handler c n)
      → (h' : Handler c n) × (or_else c n o (some h) ≡ some h')
  or_else-some none h = (h, refl)
  or_else-some (some h') h = (h', refl)

  -- Whoever stands behind a usable site, its key has a handler.
  route-some :
      (es : Engines c) (ys : List Site) (twin : Site) (zs : List Site) (key : Text)
      (h : Handler c n)
      → offers c n es key twin ≡ some h
      → (h' : Handler c n) × (route c n es (ys ++ twin ∷ zs) key ≡ some h')
  route-some es [] twin zs key h offered = rw offered (or_else-some (route c n es zs key) h)
  route-some es (y ∷ ys) twin zs key h offered =
      let (h', found) = route-some es ys twin zs key h offered in
      (h', ap (λ o. or_else c n o (offers c n es key y)) found)

  -- The twin's handler comes before the site's own.
  covered :
      (es : Engines c) (ys zs : List Site) (site twin : Site) (h : Handler c n) (key : Text)
      → to_lower site.domain ≡ to_lower twin.domain
      → active c n es twin ≡ some h
      → or_else c n (route c n es (ys ++ twin ∷ zs) key) (offers c n es key site)
        ≡ route c n es (ys ++ twin ∷ zs) key
  covered es ys zs site twin h key same usable =
      elim (Bool-cases (text_eq (to_lower twin.domain) key)) [
        | inr apart ↦ rw (same, apart) (or_else-none (route c n es (ys ++ twin ∷ zs) key))
        | inl meant ↦
            let offered : offers c n es key twin ≡ some h = rw meant usable in
            let (h', found) = route-some es ys twin zs key h offered in rw found refl
      ]

  -- Of two sites whose domains are the same but for case, the first serves no request while the
  -- second is enabled and has a usable upstream: with or without it a reload gives every host the same
  -- handler.
  pub handler_for-twin :
      (es : Engines c) (xs ys zs : List Site) (site twin : Site) (h : Handler c n) (host : Text)
      → to_lower site.domain ≡ to_lower twin.domain
      → active c n es twin ≡ some h
      → handler_for c n (reload c n es (xs ++ site ∷ (ys ++ twin ∷ zs))) host
        ≡ handler_for c n (reload c n es (xs ++ (ys ++ twin ∷ zs))) host
  handler_for-twin es xs ys zs site twin h host same usable =
      handler_for-reload c n es (xs ++ site ∷ (ys ++ twin ∷ zs)) host
      ∙ (route-skip es xs site (ys ++ twin ∷ zs) (host_key host)
            (covered es ys zs site twin h (host_key host) same usable)
          ∙ sym (handler_for-reload c n es (xs ++ (ys ++ twin ∷ zs)) host))
