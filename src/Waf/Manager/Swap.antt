-- ===== src/Waf/Manager/Swap.antt =====
-- What Reload of internal/waf/manager.go leaves in the engine map.
use wafportal.Base.{
  Text, text, text_eq, text_eq_iff, get, put, get-put, ◌≡◌, refl, ap, ◌≢◌, ◌⊎◌, inl, inr, Option,
  none, some, List, [], ◌∷◌, Result, ok, err, Error, if◌then◌else◌, arith,
}
use wafportal.Store.Models.{WafMode, waf_mode_on, waf_mode_detection}
use wafportal.Waf.Coraza.{Coraza}
use wafportal.Waf.Manager.{
  Engines, build, wrap, custom_text, swap_engines, new_manager, reload, engine,
}

module _ (c : Coraza) where
  open c use {Engine}

  -- The build of one engine for a list of custom directives.
  abbrev pub build_on : List Text → Result Engine
  build_on ds = build c (custom_text c ds) (text "On")

  abbrev pub build_detect : List Text → Result Engine
  build_detect ds = build c (custom_text c ds) (text "DetectionOnly")

  abbrev pub Fails : Result Engine → Type 0
  Fails r = (e : Error) × (r ≡ err e)

  swap-err :
      (on detect : Result Engine) (es es' : Engines c) (e : Error)
      → swap_engines c
          (wrap c (text "build blocking engine: ") on)
          (wrap c (text "build detection engine: ") detect)
          es
        ≡ (err e, es')
      → (es' ≡ es) × (Fails on ⊎ Fails detect)
  unfolding swap_engines
  swap-err (err d) detect es es' e h = (ground arith, inl (d, refl))
  swap-err (ok on) (err d) es es' e h = (ground arith, inr (d, refl))
  swap-err (ok on) (ok detect) es es' e h = cc

  -- A reload that fails leaves the engines as they were, and fails only because one of the two
  -- engines does not compile.
  pub reload-err :
      (ds : List Text) (es es' : Engines c) (e : Error)
      → reload c ds es ≡ (err e, es')
      → (es' ≡ es) × (Fails (build_on ds) ⊎ Fails (build_detect ds))
  unfolding reload
  reload-err ds es es' e h = swap-err (build_on ds) (build_detect ds) es es' e h

  swap-same :
      (on detect : Result Engine) (es fs : Engines c) (r : Result (Unit {0}))
      → (swap_engines c on detect es).0 ≡ r
      → (swap_engines c on detect fs).0 ≡ r
  unfolding swap_engines
  swap-same (err d) detect es fs r h = h
  swap-same (ok on) (err d) es fs r h = h
  swap-same (ok on) (ok detect) es fs r h = h

  -- What a reload answers does not depend on the engines that stood before.
  pub reload-same :
      (ds : List Text) (es fs : Engines c) (r : Result (Unit {0}))
      → (reload c ds es).0 ≡ r
      → (reload c ds fs).0 ≡ r
  unfolding reload
  reload-same ds es fs r h = swap-same _ _ es fs r h

  swap-fresh :
      (on detect : Result Engine) (es fs : Engines c)
      → (swap_engines c on detect es).0 ≡ ok tt
      → (swap_engines c on detect es).1 ≡ (swap_engines c on detect fs).1
  unfolding swap_engines
  swap-fresh (err d) detect es fs h = cc
  swap-fresh (ok on) (err d) es fs h = cc
  swap-fresh (ok on) (ok detect) es fs h = refl

  -- Nor do the engines that a reload which succeeds installs.
  pub reload-fresh :
      (ds : List Text) (es fs : Engines c)
      → (reload c ds es).0 ≡ ok tt
      → (reload c ds es).1 ≡ (reload c ds fs).1
  unfolding reload
  reload-fresh ds es fs h = swap-fresh _ _ es fs h

  abbrev pub engine_spec : Engine → Engine → WafMode → Option Engine
  engine_spec on detect m =
      if text_eq waf_mode_on m
      then some on
      else if text_eq waf_mode_detection m
      then some detect
      else none

  swap-ok :
      (on detect : Result Engine) (es es' : Engines c)
      → swap_engines c
          (wrap c (text "build blocking engine: ") on)
          (wrap c (text "build detection engine: ") detect)
          es
        ≡ (ok tt, es')
      → (x : Engine) × (y : Engine) × (on ≡ ok x)
        × (detect ≡ ok y)
        × ((m : WafMode) → engine c m es' ≡ engine_spec x y m)
  unfolding swap_engines engine get
  swap-ok (err d) detect es es' h = cc
  swap-ok (ok on) (err d) es es' h = cc
  swap-ok (ok on) (ok detect) es es' h = (
    on,
    detect,
    refl,
    refl,
    λ m. rw (← ap (λ (p : Result (Unit {0}) × Engines c). p.1) h) (
        simp get-put (ground (arith, text_eq_iff waf_mode_on m, text_eq_iff waf_mode_detection m))),
  )

  -- After a reload that succeeds, "on" and "detection" have the engines built from these directives
  -- in the two modes, and no other mode has an engine.
  pub reload-ok :
      (ds : List Text) (es es' : Engines c)
      → reload c ds es ≡ (ok tt, es')
      → (x : Engine) × (y : Engine) × (build_on ds ≡ ok x)
        × (build_detect ds ≡ ok y)
        × ((m : WafMode) → engine c m es' ≡ engine_spec x y m)
  unfolding reload
  reload-ok ds es es' h = swap-ok (build_on ds) (build_detect ds) es es' h

  -- Any reloads in turn, from a new manager.
  pub reloads : List (List Text) → Engines c
  reloads [] = new_manager c
  reloads (ds ∷ history) = (reload c ds (reloads history)).1

  get_nil : (m : WafMode) → get {V = Engine} m [] ≡ none
  unfolding get
  get_nil m = refl

  pub swap-bypass :
      (on detect : Result Engine) (es : Engines c) (m : WafMode)
      → m ≢ waf_mode_on
      → m ≢ waf_mode_detection
      → engine c m es ≡ none
      → engine c m
          (swap_engines c
            (wrap c (text "build blocking engine: ") on)
            (wrap c (text "build detection engine: ") detect)
            es).1
        ≡ none
  unfolding swap_engines engine
  swap-bypass (err d) detect es m p q h = h
  swap-bypass (ok on) (err d) es m p q h = h
  swap-bypass (ok on) (ok detect) es m p q h = ground (
    arith,
    get-put waf_mode_on m on (put waf_mode_detection detect []),
    get-put waf_mode_detection m detect [],
    text_eq_iff waf_mode_on m,
    text_eq_iff waf_mode_detection m,
    get_nil m,
  )

  -- Whatever was reloaded, in failure or success, a mode other than "on" and "detection" has no
  -- engine, so that its sites bypass the firewall.
  pub engine-reloads :
      (history : List (List Text)) (m : WafMode)
      → m ≢ waf_mode_on
      → m ≢ waf_mode_detection
      → engine c m (reloads history) ≡ none
  unfolding reloads reload
  engine-reloads [] m p q = unfold engine new_manager in get_nil m
  engine-reloads (ds ∷ history) m p q =
      swap-bypass (build_on ds) (build_detect ds) (reloads history) m p q
        (engine-reloads history m p q)
