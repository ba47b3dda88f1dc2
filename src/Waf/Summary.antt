-- ===== src/Waf/Summary.antt =====
-- buildEvent of internal/waf/middleware.go, and the status of an interruption.
pub mod Detections
pub mod Reports
pub mod Severity
use wafportal.Base.{
  Text, text, is_empty, is_digit, parse_int, ℕ, ℤ, pos, eq_ℤ, ltb_ℤ, Bool, true, false, not, ◌&&◌,
  ◌||◌, ◌==◌, if◌then◌else◌, Option, none, some, List, [], ◌∷◌, ◌++◌,
}
use wafportal.Store.Models.{Time, Event}
use wafportal.Waf.Coraza.{Coraza, Interruption, MatchedRule}
use wafportal.Waf.Http.{Request}
use wafportal.Waf.Address.{split_host}

-- The regular expression `Total Score:\s*(\d+)`. Its `\s` is one of \t \n \f \r and the blank.
abbrev is_re_space : ℕ → Bool
is_re_space c = c == 32 || c == 9 || c == 10 || c == 12 || c == 13

leading_digits : Text → Text
leading_digits [] = []
leading_digits (c ∷ s) = let rest = leading_digits s in if is_digit c then c ∷ rest else []

skip_re_spaces : Text → Text
skip_re_spaces [] = []
skip_re_spaces (c ∷ s) = let rest = skip_re_spaces s in if is_re_space c then rest else c ∷ s

after_prefix : Text → Text → Option Text
after_prefix [] s = some s
after_prefix (p ∷ ps) [] = none
after_prefix (p ∷ ps) (c ∷ s) = let rest = after_prefix ps s in if p == c then rest else none

-- The group of a match that begins at the first byte.
score_here : Text → Option Text
score_here s = elim (after_prefix (text "Total Score:") s) [
  | none ↦ none
  | some rest ↦
      let ds = leading_digits (skip_re_spaces rest) in if is_empty ds then none else some ds
]

-- FindStringSubmatch: the group of the leftmost match
unfoldable pub total_score : Text → Option Text
unfolding leading_digits skip_re_spaces after_prefix score_here
total_score [] = none
total_score (c ∷ s) = elim (score_here (c ∷ s)) [ none ↦ total_score s | some ds ↦ some ds ]

-- The loop's variables.
pub record Summary : Type 0 where
  pub matched : List ℤ
  pub best_sev : ℤ
  pub best_msg : Text
  pub best_id : ℤ
  pub anomaly : ℤ

abbrev pub unset : ℤ
unset = pos 99

abbrev pub start_summary : Summary
start_summary = record {
  matched = [];
  best_sev = unset;
  best_msg = [];
  best_id = pos 0;
  anomaly = pos 0;
}

-- `anomaly == 0` and the message names a score
unfoldable pub note_score : MatchedRule → Summary → Summary
note_score mr s = elim (total_score mr.message) [
  | none ↦ s
  | some ds ↦ if eq_ℤ s.anomaly (pos 0) then record s { anomaly = (parse_int ds).value } else s
]

unfoldable pub note_id : MatchedRule → Summary → Summary
note_id mr s = if eq_ℤ mr.id (pos 0) then s else record s { matched = s.matched ++ mr.id ∷ [] }

unfoldable pub note_severity : MatchedRule → Summary → Summary
note_severity mr s =
    if ltb_ℤ mr.severity s.best_sev
    then record s { best_sev = mr.severity; best_msg = mr.message; best_id = mr.id }
    else s

-- One round of the loop; a rule with no severity is passed over after its score is read.
unfoldable pub note : Summary → MatchedRule → Summary
note s mr =
    if ltb_ℤ mr.severity (pos 0)
    then note_score mr s
    else note_severity mr (note_id mr (note_score mr s))

unfoldable pub summarize : Summary → List MatchedRule → Summary
summarize s [] = s
summarize s (mr ∷ mrs) = summarize (note s mr) mrs

abbrev pub is_nil : List ℤ → Bool
is_nil [] = true
is_nil (x ∷ xs) = false

abbrev pub fallback_rule : ℤ → Option Interruption → ℤ
fallback_rule id none = id
fallback_rule id (some it) = if eq_ℤ id (pos 0) then it.rule_id else id

unfoldable pub event_of :
    Summary → Time → Text → Option Interruption → Request → Text → Bool → ℤ → Option Event
event_of s now tx_id it r domain blocked status =
    if not blocked && is_nil s.matched
    then none
    else some (record {
      id = pos 0;
      timestamp = now;
      tx_id = tx_id;
      domain = domain;
      client_ip = split_host r.remote_addr;
      method = r.method;
      uri = r.request_uri;
      blocked = blocked;
      status_code = status;
      rule_id = fallback_rule s.best_id it;
      message = s.best_msg;
      severity = if eq_ℤ s.best_sev unset then pos 0 else s.best_sev;
      anomaly_score = s.anomaly;
      matched_rules = s.matched;
    })

module _ (c : Coraza) where
  open c use {Transaction, matched_rules, interruption, transaction_id}

  unfoldable pub build_event : Transaction → Time → Request → Text → Bool → ℤ → Option Event
  build_event tx now r domain blocked status =
      event_of (summarize start_summary (matched_rules tx)) now (transaction_id tx)
        (interruption tx) r domain blocked status

unfoldable pub status_from_interruption : Interruption → ℤ
status_from_interruption it = if ltb_ℤ (pos 0) it.status then it.status else pos 403
