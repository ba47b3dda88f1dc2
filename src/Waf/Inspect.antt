-- ===== src/Waf/Inspect.antt =====
-- processRequestPhase of internal/waf/middleware.go.
pub mod Body
pub mod Line
use wafportal.Base.{
  Text, text, is_empty, ℕ, ℤ, pos, Bool, true, false, if◌then◌else◌, Option, none, some, List, [],
  ◌∷◌, ◌++◌, Result, ok, err,
}
use wafportal.Waf.Coraza.{Coraza, Interruption}
use wafportal.Waf.Http.{Request}
use wafportal.Waf.Address.{split_host_port}

module _ (c : Coraza) where
  open c use {
    Transaction, process_connection, process_uri, add_request_header, set_server_name,
    process_request_headers, is_request_body_accessible, read_request_body_from,
    request_body_reader, process_request_body,
  }

  -- The transaction, and the request, whose body the phase replaces.
  pub record Phase : Type 0 where
    pub tx : Transaction
    pub request : Request

  abbrev pub Outcome : Type 0
  Outcome = Result (Option Interruption) × Phase

  unfoldable pub add_values : Text → List Text → Transaction → Transaction
  add_values k [] tx = tx
  add_values k (v ∷ vs) tx = add_values k vs (add_request_header k v tx)

  unfoldable pub add_headers : List (Text × List Text) → Transaction → Transaction
  add_headers [] tx = tx
  add_headers ((k, vs) ∷ hs) tx = add_headers hs (add_values k vs tx)

  unfoldable pub add_host : Text → Transaction → Transaction
  add_host host tx =
      if is_empty host then tx else set_server_name host (add_request_header (text "Host") host tx)

  -- Connection, URI and headers are handed over in this order.
  unfoldable pub feed : Request → Transaction → Transaction
  feed r tx =
      let (client, port) = split_host_port r.remote_addr in
      add_values (text "Transfer-Encoding") r.transfer_encoding (
        add_host r.host (
          add_headers r.headers
            (process_uri r.url r.method r.proto (process_connection client port tx))))

  unfoldable pub finish : Phase → Outcome
  finish p = let (result, tx) = process_request_body p.tx in (result, record p { tx = tx })

  -- The buffered body is put before what the reader has left.
  unfoldable pub rebuild_body : Result Text → Text → Phase → Outcome
  rebuild_body (err e) rest p = (err e, p)
  rebuild_body (ok buffered) rest p =
      finish (record p { request = record (p.request) { body = some (buffered ++ rest) } })

  unfoldable pub after_read : Result (Option Interruption) → Text → Phase → Outcome
  after_read (err e) rest p = (err e, p)
  after_read (ok (some it)) rest p = (ok (some it), p)
  after_read (ok none) rest p = rebuild_body (request_body_reader p.tx) rest p

  unfoldable pub read_body : Text → Phase → Outcome
  read_body b p =
      let (result, rest, tx) = read_request_body_from b p.tx in
      after_read result rest
        (record p { tx = tx; request = record (p.request) { body = some rest } })

  unfoldable pub inspect_body : Option Text → Phase → Outcome
  inspect_body none p = finish p
  inspect_body (some b) p = if is_request_body_accessible p.tx then read_body b p else finish p

  unfoldable pub after_headers : Option Interruption → Phase → Outcome
  after_headers (some it) p = (ok (some it), p)
  after_headers none p = inspect_body p.request.body p

  unfoldable pub process_request_phase : Transaction → Request → Outcome
  process_request_phase tx r =
      let (interrupted, tx') = process_request_headers (feed r tx) in
      after_headers interrupted (record { tx = tx'; request = r })
