-- ===== src/Waf/Coraza.antt =====
-- The parts of the Coraza engine that internal/waf calls, as a parameter. A transaction is a state
-- that each of its methods moves on.
use wafportal.Base.{Text, ℤ, Bool, Option, List, Result}

-- types.Interruption, in the fields that the program reads
pub record Interruption : Type 0 where
  pub rule_id : ℤ
  pub status : ℤ

-- types.MatchedRule: its message, and its rule's severity and id
pub record MatchedRule : Type 0 where
  pub message : Text
  pub severity : ℤ
  pub id : ℤ

pub record Coraza : Type 1 where
  pub Engine : Type 0
  pub Transaction : Type 0
  -- coraza.NewWAF over the embedded rule files, with these directives
  pub new_waf : Text → Result Engine
  -- the text is the random id of the transaction
  pub new_transaction : Engine → Text → Transaction
  pub process_connection : Text → ℤ → Transaction → Transaction
  pub process_uri : Text → Text → Text → Transaction → Transaction
  pub add_request_header : Text → Text → Transaction → Transaction
  pub set_server_name : Text → Transaction → Transaction
  pub process_request_headers : Transaction → Option Interruption × Transaction
  pub is_request_body_accessible : Transaction → Bool
  -- the reader that is left is given back beside the outcome
  pub read_request_body_from :
      Text → Transaction → Result (Option Interruption) × Text × Transaction
  pub request_body_reader : Transaction → Result Text
  pub process_request_body : Transaction → Result (Option Interruption) × Transaction
  pub process_response_headers : ℤ → Text → Transaction → Transaction
  pub process_logging : Transaction → Transaction
  pub matched_rules : Transaction → List MatchedRule
  pub interruption : Transaction → Option Interruption
  pub transaction_id : Transaction → Text
