-- ===== src/Tests/Firewall.antt =====
-- The theorems about internal/waf on two requests and a few rules.
use wafportal.Base.{join, trim_space, text, pos, ◌≡◌, ◌≢◌, refl, ◌⊎◌, All, true, List, [], ◌∷◌}
use wafportal.Waf.Coraza.{MatchedRule}
use wafportal.Waf.Http.{Write, write_header, write_body}
use wafportal.Waf.Manager.{new_manager, reload, swap_engines, build, directives}
use wafportal.Waf.Manager.Swap.{Fails, build_on, build_detect, reload-err}
use wafportal.Waf.Recorder.{new_recorder, record_all}
use wafportal.Waf.Recorder.Status.{client_status, status-eq-client, status-ne-client}
use wafportal.Waf.Summary.{start_summary, summarize}
use wafportal.Waf.Summary.Severity.{AtLeast, AnyOf, IsWorst, worst_of, summarize-IsWorst}
use wafportal.Waf.Inspect.{
  add_headers, add_host, add_values, feed, finish, rebuild_body, after_read, read_body,
  inspect_body, after_headers, process_request_phase,
}
use wafportal.Waf.Inspect.Body.{process_request_phase-request}
use wafportal.Waf.Middleware.Verdicts.{Treated, inspected, middleware_lem}
use wafportal.Tests.Fixtures.{toy_coraza, toy_coraza-KeepsBytes, sqli, served_ok, attack, visit}

reload-err_example :
    (new_manager toy_coraza ≡ new_manager toy_coraza)
    × (Fails toy_coraza (build_on toy_coraza (text "!" ∷ []))
        ⊎ Fails toy_coraza (build_detect toy_coraza (text "!" ∷ [])))
unfolding reload swap_engines build directives trim_space join
reload-err_example =
    reload-err toy_coraza (text "!" ∷ []) (new_manager toy_coraza) (new_manager toy_coraza)
      (text "build blocking engine: syntax") refl

middleware_lem_example :
    Treated toy_coraza
      (λ r. served_ok)
      (text "shop")
      3
      true
      (text "n")
      attack
      (inspected toy_coraza (λ r. served_ok) (text "shop") 3 true (text "n") attack).0
middleware_lem_example =
    middleware_lem toy_coraza (λ r. served_ok) (text "shop") 3 true (text "n") attack

process_request_phase-request_example :
    (process_request_phase toy_coraza (toy_coraza.new_transaction true (text "n")) visit).1.request
    ≡ visit
unfolding process_request_phase after_headers inspect_body read_body after_read rebuild_body finish
    feed add_values add_host add_headers
process_request_phase-request_example =
    process_request_phase-request toy_coraza toy_coraza-KeepsBytes true (text "n") visit refl

abbrev usual : List Write
usual = write_header (pos 404) ∷ write_body (text "no") ∷ []

status-eq-client_example : (record_all new_recorder usual).status ≡ client_status usual
status-eq-client_example = status-eq-client usual refl

status-ne-client_example :
    ((record_all new_recorder (write_header (pos 103) ∷ usual)).status ≡ pos 103)
    × ((record_all new_recorder (write_header (pos 103) ∷ usual)).status
        ≢ client_status (write_header (pos 103) ∷ usual))
status-ne-client_example = status-ne-client (pos 103) usual refl refl

abbrev two_matches : List MatchedRule
two_matches = sqli ∷ record { message = text "x"; severity = pos 3; id = pos 920350 } ∷ []

summarize-IsWorst_example :
    All (AtLeast (summarize start_summary two_matches).best_sev) two_matches
    × ((worst_of (summarize start_summary two_matches) ≡ worst_of start_summary)
        ⊎ AnyOf (IsWorst (worst_of (summarize start_summary two_matches))) two_matches)
summarize-IsWorst_example = summarize-IsWorst two_matches
