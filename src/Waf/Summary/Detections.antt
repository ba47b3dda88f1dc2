-- ===== src/Waf/Summary/Detections.antt =====
-- What the loop of buildEvent finds among the matched rules, against an independent description.
use wafportal.Base.{
  ℤ, pos, ltb_ℤ, eq_ℤ, ◌≡◌, refl, sym, ◌∙◌, ap, inl, inr, Bool, not, ◌&&◌, Bool-cases, List, [],
  ◌∷◌, ◌++◌, filter, map, arith,
}
use mathlib.Core.List.{append_assoc, append-nil}
use wafportal.Waf.Coraza.{MatchedRule}
use wafportal.Waf.Summary.{Summary, note, note_score, note_id, note_severity, summarize}

-- A rule that carries a severity, and not only sets up or scores.
abbrev pub is_detection : MatchedRule → Bool
is_detection mr = not (ltb_ℤ mr.severity (pos 0))

abbrev pub has_id : MatchedRule → Bool
has_id mr = not (eq_ℤ mr.id (pos 0))

abbrev pub detected_ids : List MatchedRule → List ℤ
detected_ids mrs = map (λ mr. mr.id) (filter (λ mr. is_detection mr && has_id mr) mrs)

matched-note_score : (mr : MatchedRule) (s : Summary) → (note_score mr s).matched ≡ s.matched
unfolding note_score
matched-note_score mr s = ground arith

matched-note_severity : (mr : MatchedRule) (s : Summary) → (note_severity mr s).matched ≡ s.matched
unfolding note_severity
matched-note_severity mr s = ground arith

matched-note :
    (s : Summary) (mr : MatchedRule) → (note s mr).matched ≡ s.matched ++ detected_ids (mr ∷ [])
unfolding note note_id
matched-note s mr = ground (
  arith,
  matched-note_score mr s,
  append-nil s.matched,
  matched-note_severity mr (note_id mr (note_score mr s)),
)

detected_ids-cons :
    (mr : MatchedRule) (mrs : List MatchedRule)
    → detected_ids (mr ∷ mrs) ≡ detected_ids (mr ∷ []) ++ detected_ids mrs
detected_ids-cons mr mrs = elim (Bool-cases (is_detection mr && has_id mr)) [
  | inl y ↦ rw y refl
  | inr n ↦ rw n refl
]

-- The loop collects the ids of the detection rules, in the order of the matches.
pub matched-summarize :
    (s : Summary) (mrs : List MatchedRule)
    → (summarize s mrs).matched ≡ s.matched ++ detected_ids mrs
unfolding summarize
matched-summarize s [] = sym (append-nil _)
matched-summarize s (mr ∷ mrs) =
    matched-summarize (note s mr) mrs
    ∙ ap (λ l. l ++ detected_ids mrs) (matched-note s mr)
    ∙ append_assoc s.matched (detected_ids (mr ∷ [])) (detected_ids mrs)
    ∙ ap (λ l. s.matched ++ l) (sym (detected_ids-cons mr mrs))
