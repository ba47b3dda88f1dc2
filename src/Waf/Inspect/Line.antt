-- ===== src/Waf/Inspect/Line.antt =====
-- The inspection leaves a request's client, method and URI, whatever its outcome.
use wafportal.Base.{Text, ◌≡◌, refl, Bool-cases, inl, inr, Option, none, some, Result, ok, err}
use wafportal.Waf.Coraza.{Coraza, Interruption}
use wafportal.Waf.Http.{Request}
use wafportal.Waf.Inspect.{
  Phase, finish, rebuild_body, after_read, read_body, inspect_body, after_headers,
  process_request_phase, feed,
}

abbrev pub HasLineOf : Request → Request → Type 0
HasLineOf r s =
    (s.remote_addr ≡ r.remote_addr) × (s.method ≡ r.method) × (s.request_uri ≡ r.request_uri)

module _ (c : Coraza) where
  open c use {Transaction, is_request_body_accessible, process_request_headers}

  rebuild-HasLineOf :
      (res : Result Text) (rest : Text) (p : Phase c)
      → HasLineOf p.request (rebuild_body c res rest p).1.request
  unfolding rebuild_body finish
  rebuild-HasLineOf (err e) rest p = (refl, refl, refl)
  rebuild-HasLineOf (ok buffered) rest p = (refl, refl, refl)

  after_read-HasLineOf :
      (res : Result (Option Interruption)) (rest : Text) (p : Phase c)
      → HasLineOf p.request (after_read c res rest p).1.request
  unfolding after_read
  after_read-HasLineOf (err e) rest p = (refl, refl, refl)
  after_read-HasLineOf (ok (some it)) rest p = (refl, refl, refl)
  after_read-HasLineOf (ok none) rest p = rebuild-HasLineOf _ rest p

  inspect-HasLineOf :
      (body : Option Text) (p : Phase c) → HasLineOf p.request (inspect_body c body p).1.request
  unfolding inspect_body finish read_body
  inspect-HasLineOf none p = (refl, refl, refl)
  inspect-HasLineOf (some b) p = elim (Bool-cases (is_request_body_accessible p.tx)) [
    | inl y ↦ rw y (after_read-HasLineOf _ _ _)
    | inr n ↦ rw n (refl, refl, refl)
  ]

  headers-HasLineOf :
      (it : Option Interruption) (p : Phase c)
      → HasLineOf p.request (after_headers c it p).1.request
  unfolding after_headers
  headers-HasLineOf (some it) p = (refl, refl, refl)
  headers-HasLineOf none p = inspect-HasLineOf p.request.body p

  pub phase-HasLineOf :
      (tx : Transaction) (r : Request) → HasLineOf r (process_request_phase c tx r).1.request
  unfolding process_request_phase
  phase-HasLineOf tx r = headers-HasLineOf (process_request_headers (feed c r tx)).0 _
