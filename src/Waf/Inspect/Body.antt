-- ===== src/Waf/Inspect/Body.antt =====
-- The inspection hands the request on as it came, its body included.
use wafportal.Base.{
  Text, text, is_empty, ℤ, List, [], ◌∷◌, ◌≡◌, refl, ap, sym, ◌∙◌, Bool-cases, inl, inr, Option,
  none, some, ◌++◌, Result, ok, err,
}
use wafportal.Waf.Coraza.{Coraza, Interruption}
use wafportal.Waf.Http.{Request}
use wafportal.Waf.Inspect.{
  Phase, finish, rebuild_body, after_read, read_body, inspect_body, after_headers,
  process_request_phase, feed, add_values, add_headers, add_host,
}

-- What Coraza documents of the buffer of a transaction's request body: it is empty at first, the calls
-- before the body leave it, and ReadRequestBodyFrom appends to it what it does not leave in the reader.
pub record KeepsBytes (c : Coraza) : Type 0 where
  pub fresh :
      (e : c.Engine) (nonce : Text) → c.request_body_reader (c.new_transaction e nonce) ≡ ok []
  pub connection :
      (client : Text) (port : ℤ) (tx : c.Transaction)
      → c.request_body_reader (c.process_connection client port tx) ≡ c.request_body_reader tx
  pub uri :
      (url method proto : Text) (tx : c.Transaction)
      → c.request_body_reader (c.process_uri url method proto tx) ≡ c.request_body_reader tx
  pub header :
      (k v : Text) (tx : c.Transaction)
      → c.request_body_reader (c.add_request_header k v tx) ≡ c.request_body_reader tx
  pub server :
      (host : Text) (tx : c.Transaction)
      → c.request_body_reader (c.set_server_name host tx) ≡ c.request_body_reader tx
  pub headers :
      (tx : c.Transaction)
      → c.request_body_reader (c.process_request_headers tx).1 ≡ c.request_body_reader tx
  pub read :
      (b : Text) (tx : c.Transaction) (before after : Text)
      → c.request_body_reader tx ≡ ok before
      → c.request_body_reader (c.read_request_body_from b tx).2 ≡ ok after
      → after ++ (c.read_request_body_from b tx).1 ≡ before ++ b

with_body : (r : Request) (b b' : Text) → b ≡ b' → r.body ≡ some b' → record r { body = some b } ≡ r
with_body r b b' e h = λ i. record r { body = (ap some e ∙ sym h) i }

module _ (c : Coraza) (keeps : KeepsBytes c) where
  open c use {
    Transaction, read_request_body_from, request_body_reader, process_request_headers,
    is_request_body_accessible, new_transaction, add_request_header, process_connection,
    process_uri, set_server_name, Engine,
  }

  add_values-body :
      (k : Text) (vs : List Text) (tx : Transaction)
      → request_body_reader (add_values c k vs tx) ≡ request_body_reader tx
  unfolding add_values
  add_values-body k [] tx = refl
  add_values-body k (v ∷ vs) tx =
      add_values-body k vs (add_request_header k v tx) ∙ keeps.header k v tx

  add_headers-body :
      (hs : List (Text × List Text)) (tx : Transaction)
      → request_body_reader (add_headers c hs tx) ≡ request_body_reader tx
  unfolding add_headers
  add_headers-body [] tx = refl
  add_headers-body ((k, vs) ∷ hs) tx =
      add_headers-body hs (add_values c k vs tx) ∙ add_values-body k vs tx

  add_host-body :
      (host : Text) (tx : Transaction)
      → request_body_reader (add_host c host tx) ≡ request_body_reader tx
  unfolding add_host
  add_host-body host tx = elim (Bool-cases (is_empty host)) [
    | inl y ↦ rw y refl
    | inr n ↦ rw n (
        keeps.server host (add_request_header (text "Host") host tx)
        ∙ keeps.header (text "Host") host tx)
  ]

  feed-body :
      (r : Request) (tx : Transaction) → request_body_reader (feed c r tx) ≡ request_body_reader tx
  unfolding feed
  feed-body r tx =
      add_values-body (text "Transfer-Encoding") r.transfer_encoding _
      ∙ add_host-body r.host _
      ∙ add_headers-body r.headers _
      ∙ keeps.uri r.url r.method r.proto _
      ∙ keeps.connection _ _ tx

  rebuild-request :
      (res : Result Text) (rest b : Text) (p : Phase c) (r : Request)
      → ((buffered : Text) → res ≡ ok buffered → buffered ++ rest ≡ b)
      → p.request ≡ record r { body = some rest }
      → r.body ≡ some b
      → (rebuild_body c res rest p).0 ≡ ok none
      → (rebuild_body c res rest p).1.request ≡ r
  unfolding rebuild_body finish
  rebuild-request (err e) rest b p r joined same h k = cc
  rebuild-request (ok buffered) rest b p r joined same h k =
      ap (λ (q : Request). record q { body = some (buffered ++ rest) }) same
      ∙ with_body r (buffered ++ rest) b (joined buffered refl) h

  after_read-request :
      (res : Result (Option Interruption)) (rest b : Text) (tx : Transaction) (r : Request)
      → ((buffered : Text) → request_body_reader tx ≡ ok buffered → buffered ++ rest ≡ b)
      → r.body ≡ some b
      → (after_read c res rest (record { tx = tx; request = record r { body = some rest } })).0
        ≡ ok none
      → (after_read c res rest
          (record { tx = tx; request = record r { body = some rest } })).1.request
        ≡ r
  unfolding after_read
  after_read-request (err e) rest b tx r joined h k = cc
  after_read-request (ok (some it)) rest b tx r joined h k = cc
  after_read-request (ok none) rest b tx r joined h k =
      rebuild-request (request_body_reader tx) rest b _ r joined refl h k

  read-request :
      (b : Text) (p : Phase c)
      → request_body_reader p.tx ≡ ok []
      → p.request.body ≡ some b
      → (read_body c b p).0 ≡ ok none
      → (read_body c b p).1.request ≡ p.request
  unfolding read_body
  read-request b p none_yet h k =
      after_read-request (read_request_body_from b p.tx).0 (read_request_body_from b p.tx).1 b
        (read_request_body_from b p.tx).2 p.request
        (λ buffered. keeps.read b p.tx [] buffered none_yet) h k

  inspect-request :
      (body : Option Text) (p : Phase c)
      → request_body_reader p.tx ≡ ok []
      → p.request.body ≡ body
      → (inspect_body c body p).0 ≡ ok none
      → (inspect_body c body p).1.request ≡ p.request
  unfolding inspect_body finish
  inspect-request none p none_yet h k = refl
  inspect-request (some b) p none_yet h k = elim (Bool-cases (is_request_body_accessible p.tx)) [
    | inl y ↦ rw y (read-request b p none_yet h (rw y at k))
    | inr n ↦ rw n refl
  ]

  headers-request :
      (it : Option Interruption) (p : Phase c)
      → request_body_reader p.tx ≡ ok []
      → (after_headers c it p).0 ≡ ok none
      → (after_headers c it p).1.request ≡ p.request
  unfolding after_headers
  headers-request (some it) p none_yet k = cc
  headers-request none p none_yet k = inspect-request p.request.body p none_yet refl k

  -- A request that its inspection, with a new transaction, lets pass is handed on as it came: the
  -- body that the engine read is put together again, and nothing else of the request is changed.
  pub process_request_phase-request :
      (e : Engine) (nonce : Text) (r : Request)
      → (process_request_phase c (new_transaction e nonce) r).0 ≡ ok none
      → (process_request_phase c (new_transaction e nonce) r).1.request ≡ r
  unfolding process_request_phase
  process_request_phase-request e nonce r k =
      let tx = feed c r (new_transaction e nonce) in
      headers-request (process_request_headers tx).0
        (record { tx = (process_request_headers tx).1; request = r })
        (keeps.headers tx ∙ feed-body r (new_transaction e nonce) ∙ keeps.fresh e nonce) k
