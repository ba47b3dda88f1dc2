-- ===== src/Waf/Manager.antt =====
-- internal/waf/manager.go
pub mod Swap
use wafportal.Base.{
  Text, text, is_empty, trim_space, join, if◌then◌else◌, ◌++◌, [], ◌∷◌, Option, none, some, List,
  Result, ok, err, Error, Exec, Assoc, get, put,
}
use wafportal.Store.Models.{WafMode, waf_mode_on, waf_mode_detection}
use wafportal.Waf.Coraza.{Coraza}

-- A line feed stands where the literal of the source breaks a line.
abbrev newline : Text
newline = 10 ∷ []

abbrev pub base_directives : Text
base_directives =
    newline
    ++ (text "Include @coraza.conf-recommended"
        ++ (newline
            ++ (text "Include @crs-setup.conf.example"
                ++ (newline ++ (text "Include @owasp_crs/*.conf" ++ newline)))))

-- The text that `build` compiles: the base, the custom part unless it is blank, and the mode last.
unfoldable pub directives : Text → Text → Text
directives custom engine_mode =
    (if is_empty (trim_space custom)
      then base_directives
      else base_directives ++ (newline ++ custom))
    ++ (newline ++ (text "SecRuleEngine " ++ (engine_mode ++ newline)))

module _ (c : Coraza) where
  open c use {Engine, new_waf}

  abbrev pub Engines : Type 0
  Engines = Assoc Engine

  unfoldable pub build : Text → Text → Result Engine
  build custom engine_mode = new_waf (directives custom engine_mode)

  unfoldable pub new_manager : Engines
  new_manager = []

  abbrev pub wrap {ℓ} : {A : Type ℓ} → Text → Result A → Result A
  wrap what (ok a) = ok a
  wrap what (err e) = err (what ++ e)

  abbrev pub custom_text : List Text → Text
  custom_text custom_directives = join newline custom_directives

  unfoldable pub swap_engines : Result Engine → Result Engine → Exec Engines (Unit {0})
  swap_engines (err e) detect engines = (err e, engines)
  swap_engines (ok on) (err e) engines = (err e, engines)
  swap_engines (ok on) (ok detect) engines =
      (ok tt, put waf_mode_on on (put waf_mode_detection detect []))

  -- Both engines are compiled before the map is swapped.
  unfoldable pub reload : List Text → Exec Engines (Unit {0})
  unfolding swap_engines
  reload custom_directives =
      swap_engines
        (wrap (text "build blocking engine: ") (build (custom_text custom_directives) (text "On")))
        (wrap (text "build detection engine: ")
          (build (custom_text custom_directives) (text "DetectionOnly")))

  unfoldable pub engine : WafMode → Engines → Option Engine
  engine mode engines = get mode engines
