-- ===== src/Store/Settings.antt =====
-- The settings of internal/store/store.go: GetSetting and SetSetting.
use wafportal.Base.{Result, Text, Option, ok, get, put}
use wafportal.Store.Db.{Tables, Call, query, exec}

-- `none` is the answer ("", false).
unfoldable pub get_setting : Text → Call (Option Text)
get_setting key = query (λ t. get key t.settings)

abbrev pub write_setting : Text → Text → Tables → Result (Unit {0} × Tables)
write_setting key value t = ok (tt, record t { settings = put key value t.settings })

unfoldable pub set_setting : Text → Text → Call (Unit {0})
set_setting key value = exec (write_setting key value)
