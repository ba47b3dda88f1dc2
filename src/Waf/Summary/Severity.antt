-- ===== src/Waf/Summary/Severity.antt =====
-- The severity, rule and score that buildEvent reports.
use wafportal.Base.{
  Text, ℤ, pos, negsuc, ltb_ℤ, leb_ℤ, eq_ℤ, ◌≡◌, refl, ◌∙◌, ap, ◌⊎◌, inl, inr, true, false,
  Bool-cases, none, some, List, [], ◌∷◌, All, if◌then◌else◌, parse_int, arith, eq_ℤ_iff,
}
use wafportal.Waf.Coraza.{MatchedRule}
use wafportal.Waf.Summary.{
  Summary, start_summary, note, note_score, note_id, note_severity, summarize, total_score,
}
use wafportal.Waf.Summary.Detections.{is_detection}

leb_ℤ_trans : (a b c : ℤ) → leb_ℤ a b ≡ true → leb_ℤ b c ≡ true → leb_ℤ a c ≡ true
leb_ℤ_trans (pos a) (pos b) (pos c) h k = ground arith
leb_ℤ_trans (pos a) (pos b) (negsuc c) h k = cc
leb_ℤ_trans (pos a) (negsuc b) c h k = cc
leb_ℤ_trans (negsuc a) (pos b) (pos c) h k = refl
leb_ℤ_trans (negsuc a) (pos b) (negsuc c) h k = cc
leb_ℤ_trans (negsuc a) (negsuc b) (pos c) h k = refl
leb_ℤ_trans (negsuc a) (negsuc b) (negsuc c) h k = ground arith

leb_ℤ_refl : (a : ℤ) → leb_ℤ a a ≡ true
leb_ℤ_refl (pos a) = ground arith
leb_ℤ_refl (negsuc a) = ground arith

leb_of_ltb : (a b : ℤ) → ltb_ℤ a b ≡ true → leb_ℤ a b ≡ true
leb_of_ltb (pos a) (pos b) h = ground arith
leb_of_ltb (pos a) (negsuc b) h = cc
leb_of_ltb (negsuc a) (pos b) h = refl
leb_of_ltb (negsuc a) (negsuc b) h = ground arith

leb_of_not_ltb : (a b : ℤ) → ltb_ℤ a b ≡ false → leb_ℤ b a ≡ true
leb_of_not_ltb (pos a) (pos b) h = ground arith
leb_of_not_ltb (pos a) (negsuc b) h = refl
leb_of_not_ltb (negsuc a) (pos b) h = cc
leb_of_not_ltb (negsuc a) (negsuc b) h = ground arith

-- What the summary says of the worst rule.
pub record Worst : Type 0 where
  pub severity : ℤ
  pub id : ℤ
  pub message : Text

abbrev pub worst_of : Summary → Worst
worst_of s = record { severity = s.best_sev; id = s.best_id; message = s.best_msg }

abbrev pub as_worst : MatchedRule → Worst
as_worst mr = record { severity = mr.severity; id = mr.id; message = mr.message }

IsWorst-note :
    (s : Summary) (mr : MatchedRule)
    → worst_of (note s mr) ≡ (
        if ltb_ℤ mr.severity (pos 0)
        then worst_of s
        else if ltb_ℤ mr.severity s.best_sev
        then as_worst mr
        else worst_of s)
unfolding note note_score note_id note_severity
IsWorst-note s mr = ground arith

-- Some element has the property.
abbrev pub AnyOf : {A : Type 0} → (A → Type 0) → List A → Type 0
AnyOf P [] = ⊥
AnyOf P (x ∷ xs) = P x ⊎ AnyOf P xs

best-note-le : (s : Summary) (mr : MatchedRule) → leb_ℤ (note s mr).best_sev s.best_sev ≡ true
best-note-le s mr = ground (
  arith,
  ap (λ (w : Worst). w.severity) (IsWorst-note s mr),
  leb_ℤ_refl s.best_sev,
  leb_of_ltb mr.severity s.best_sev,
)

best-summarize-le :
    (s : Summary) (mrs : List MatchedRule) → leb_ℤ (summarize s mrs).best_sev s.best_sev ≡ true
unfolding summarize
best-summarize-le s [] = leb_ℤ_refl s.best_sev
best-summarize-le s (mr ∷ mrs) =
    leb_ℤ_trans _ (note s mr).best_sev _ (best-summarize-le (note s mr) mrs) (best-note-le s mr)

best-note-le_rule :
    (s : Summary) (mr : MatchedRule)
    → is_detection mr ≡ true
    → leb_ℤ (note s mr).best_sev mr.severity ≡ true
best-note-le_rule s mr h = ground (
  arith,
  ap (λ (w : Worst). w.severity) (IsWorst-note s mr),
  leb_ℤ_refl mr.severity,
  leb_of_not_ltb mr.severity s.best_sev,
)

abbrev pub AtLeast : ℤ → MatchedRule → Type 0
AtLeast sev mr = is_detection mr ≡ true → leb_ℤ sev mr.severity ≡ true

best-summarize-least :
    (s : Summary) (mrs : List MatchedRule) → All (AtLeast (summarize s mrs).best_sev) mrs
unfolding summarize
best-summarize-least s [] = tt
best-summarize-least s (mr ∷ mrs) = (
  λ h.
      leb_ℤ_trans _ (note s mr).best_sev _ (best-summarize-le (note s mr) mrs)
        (best-note-le_rule s mr h),
  best-summarize-least (note s mr) mrs,
)

abbrev pub IsWorst : Worst → MatchedRule → Type 0
IsWorst w mr = (is_detection mr ≡ true) × (w ≡ as_worst mr)

IsWorst-note_cases :
    (s : Summary) (mr : MatchedRule)
    → (worst_of (note s mr) ≡ worst_of s) ⊎ IsWorst (worst_of (note s mr)) mr
IsWorst-note_cases s mr = elim (Bool-cases (ltb_ℤ mr.severity (pos 0))) [
  | inl skipped ↦ inl (rw skipped at (IsWorst-note s mr))
  | inr detected ↦ elim (Bool-cases (ltb_ℤ mr.severity s.best_sev)) [
    | inl worse ↦ inr (rw detected refl, rw (detected, worse) at (IsWorst-note s mr))
    | inr milder ↦ inl (rw (detected, milder) at (IsWorst-note s mr))
  ]
]

IsWorst-summarize_cases :
    (s : Summary) (mrs : List MatchedRule)
    → (worst_of (summarize s mrs) ≡ worst_of s) ⊎ AnyOf (IsWorst (worst_of (summarize s mrs))) mrs
unfolding summarize
IsWorst-summarize_cases s [] = inl refl
IsWorst-summarize_cases s (mr ∷ mrs) = elim (IsWorst-summarize_cases (note s mr) mrs) [
  | inl same ↦ elim (IsWorst-note_cases s mr) [
    | inl kept ↦ inl (same ∙ kept)
    | inr (d, e) ↦ inr (inl (d, same ∙ e))
  ]
  | inr found ↦ inr (inr found)
]

-- No detection rule among the matches is more severe than what the loop of buildEvent keeps, and
-- the severity, rule id and message that it keeps are together those of one detection rule, or the
-- initial values.
pub summarize-IsWorst :
    (mrs : List MatchedRule)
    → All (AtLeast (summarize start_summary mrs).best_sev) mrs
      × ((worst_of (summarize start_summary mrs) ≡ worst_of start_summary)
          ⊎ AnyOf (IsWorst (worst_of (summarize start_summary mrs))) mrs)
summarize-IsWorst mrs =
    (best-summarize-least start_summary mrs, IsWorst-summarize_cases start_summary mrs)

-- The first score other than 0 that a message names, whether or not its rule carries a severity.
abbrev pub first_score : List MatchedRule → ℤ
first_score [] = pos 0
first_score (mr ∷ mrs) =
    let rest = first_score mrs in
    elim (total_score mr.message) [
      | none ↦ rest
      | some ds ↦ if eq_ℤ (parse_int ds).value (pos 0) then rest else (parse_int ds).value
    ]

anomaly-note : (s : Summary) (mr : MatchedRule) → (note s mr).anomaly ≡ (note_score mr s).anomaly
unfolding note note_id note_severity
anomaly-note s mr = ground arith

anomaly-summarize_from :
    (s : Summary) (mrs : List MatchedRule)
    → (summarize s mrs).anomaly ≡ (if eq_ℤ s.anomaly (pos 0) then first_score mrs else s.anomaly)
unfolding summarize note_score
anomaly-summarize_from s [] = ground (arith, eq_ℤ_iff s.anomaly (pos 0))
anomaly-summarize_from s (mr ∷ mrs) =
    anomaly-summarize_from (note s mr) mrs ∙ rw (anomaly-note s mr) (ground arith)

-- The anomaly score is the first one other than 0 that a matched rule's message names.
pub anomaly-summarize :
    (mrs : List MatchedRule) → (summarize start_summary mrs).anomaly ≡ first_score mrs
anomaly-summarize mrs = anomaly-summarize_from start_summary mrs
