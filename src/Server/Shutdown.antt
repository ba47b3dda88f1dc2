-- ===== src/Server/Shutdown.antt =====
-- waitForShutdown of cmd/wafportal/main.go, once a signal has come. What http.Server.Shutdown does to a server
-- is a parameter, and its errors are dropped.
use wafportal.Base.{Option, List, [], ◌∷◌, All, Error}
use wafportal.Server.Startup.{Listener}

module _ {Net : Type 0} (shutdown : Listener → Net → Option Error × Net) where
  unfoldable pub wait_for_shutdown : List Listener → Net → Net
  wait_for_shutdown [] w = w
  wait_for_shutdown (srv ∷ servers) w = wait_for_shutdown servers (shutdown srv w).1

  module _ (IsClosed : Listener → Net → Type 0)
      (closes : (srv : Listener) (w : Net) → IsClosed srv (shutdown srv w).1)
      (stays : (srv other : Listener) (w : Net)
        → IsClosed srv w
        → IsClosed srv (shutdown other w).1) where
    still_closed :
        (srv : Listener) (servers : List Listener) (w : Net)
        → IsClosed srv w
        → IsClosed srv (wait_for_shutdown servers w)
    unfolding wait_for_shutdown
    still_closed srv [] w h = h
    still_closed srv (other ∷ servers) w h =
        still_closed srv servers (shutdown other w).1 (stays srv other w h)

    -- Where Shutdown closes its server, whether it reports an error or not, and opens none, every server
    -- is closed in the end.
    pub wait_for_shutdown-IsClosed :
        (servers : List Listener) (w : Net)
        → All (λ srv. IsClosed srv (wait_for_shutdown servers w)) servers
    unfolding wait_for_shutdown
    wait_for_shutdown-IsClosed [] w = tt
    wait_for_shutdown-IsClosed (srv ∷ servers) w = (
      still_closed srv servers (shutdown srv w).1 (closes srv w),
      wait_for_shutdown-IsClosed servers (shutdown srv w).1,
    )
