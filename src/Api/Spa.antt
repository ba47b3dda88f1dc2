-- ===== src/Api/Spa.antt =====
-- SPAHandler of internal/api/api.go, which the router asks for every path outside /api. The embedded
-- files are a parameter: `has_file` is fs.Stat(dist, name) == nil, and `serve` what http.FileServer
-- answers to the request with a given URL path.
use wafportal.Base.{Text, text, text_eq, Bool, true, if◌then◌else◌, [], ◌∷◌}
use wafportal.Waf.Http.{Reply}

abbrev pub panics : Reply
panics = record { writes = []; panicked = true }

module _ (has_file : Text → Bool) (serve : Text → Reply) where
  -- `path[1:]` panics on the empty path.
  abbrev pub file_or_root : Text → Reply
  file_or_root [] = panics
  file_or_root (c ∷ name) = if has_file name then serve (c ∷ name) else serve (text "/")

  abbrev spa_handler : Text → Reply
  spa_handler path = if text_eq path (text "/") then serve path else file_or_root path
