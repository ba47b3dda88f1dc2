-- ===== src/Proxy/Routes/Sole.antt =====
-- A site whose key no other site has gives that key its handler, wherever it stands in the list.
use wafportal.Base.{
  Text, text_eq, to_lower, ◌≡◌, refl, ap, ◌∙◌, ◌⊎◌, inl, inr, Bool, true, false, All, Option, none,
  some, List, [], ◌∷◌, if◌then◌else◌,
}
use mathlib.Core.Logic.{∥∥₁_elim}
use mathlib.Core.HLevel.{⊥_prop}
use mathlib.Core.List.{Mem, Memᴰ}
use mathlib.Core.List.Memᴰ.{head, tail}
use wafportal.Store.Models.{Site}
use wafportal.Waf.Coraza.{Coraza}
use wafportal.Waf.Manager.{Engines}
use wafportal.Proxy.{Handler, upstream_of, handler_of}
use wafportal.Proxy.Routes.{active, offers, or_else, route}
use wafportal.Proxy.Network.{Net}

-- No other site in the list has the key.
abbrev pub IsSole : Text → Site → Site → Type 0
IsSole key row x = (text_eq (to_lower x.domain) key ≡ false) ⊎ (x ≡ row)

module _ (c : Coraza) (n : Net) where
  open n use {Url}

  pub active-usable :
      (es : Engines c) (site : Site) (u : Url)
      → site.enabled ≡ true
      → upstream_of c n site ≡ some u
      → active c n es site ≡ some (handler_of c n es site u)
  active-usable es site u enabled usable = by_flag site.enabled enabled
    where
      by_target :
          (o : Option Url)
          → o ≡ some u
          → (elim o as (λ _. Option (Handler c n)) [
            | none ↦ none
            | some u' ↦ some (handler_of c n es site u')
          ])
            ≡ some (handler_of c n es site u)
      by_target o same = rw same refl

      by_flag :
          (b : Bool)
          → b ≡ true
          → (if b
              then (elim (upstream_of c n site) as (λ _. Option (Handler c n)) [
                | none ↦ none
                | some u' ↦ some (handler_of c n es site u')
              ])
              else none)
            ≡ some (handler_of c n es site u)
      by_flag true on = by_target (upstream_of c n site) usable
      by_flag false off = cc

  module _ (es : Engines c) (key : Text) (row : Site) (h : Handler c n)
      (offered : offers c n es key row ≡ some h) where
    sole-offers :
        (x : Site)
        → IsSole key row x
        → (offers c n es key x ≡ none) ⊎ (offers c n es key x ≡ some h)
    sole-offers x (inl apart) = inl (rw apart refl)
    sole-offers x (inr same) = inr (ap (offers c n es key) same ∙ offered)

    either :
        (a o : Option (Handler c n))
        → (a ≡ none) ⊎ (a ≡ some h)
        → (o ≡ none) ⊎ (o ≡ some h)
        → (or_else c n a o ≡ none) ⊎ (or_else c n a o ≡ some h)
    either a o (inl e) y = rw e y
    either a o (inr e) y = inr (rw e refl)

    sole-route :
        (xs : List Site)
        → All (IsSole key row) xs
        → (route c n es xs key ≡ none) ⊎ (route c n es xs key ≡ some h)
    sole-route [] all = inl refl
    sole-route (x ∷ xs) (one, all) =
        either (route c n es xs key) (offers c n es key x) (sole-route xs all) (sole-offers x one)

    or_else-first : (a o : Option (Handler c n)) → or_else c n a o ≡ none → (a ≡ none) × (o ≡ none)
    or_else-first none o e = (refl, e)
    or_else-first (some a) o e = cc

    -- A list that gives the key nothing does not hold the site.
    lacks : (xs : List Site) → Memᴰ row xs → route c n es xs key ≡ none → ⊥
    lacks [] m e = elim m [ ]
    lacks (x ∷ xs) (head same) e =
        let silent = (or_else-first (route c n es xs key) (offers c n es key x) e).1 in
        let named : offers c n es key row ≡ offers c n es key x = ap (offers c n es key) same in cc
    lacks (x ∷ xs) (tail m) e =
        lacks xs m (or_else-first (route c n es xs key) (offers c n es key x) e).0

    pub route-sole :
        (xs : List Site) → All (IsSole key row) xs → Mem row xs → route c n es xs key ≡ some h
    route-sole xs all here = elim (sole-route xs all) [
      | inr found ↦ found
      | inl silent ↦ absurd (∥∥₁_elim here ⊥_prop (λ m. lacks xs m silent))
    ]
