-- ===== src/Ingest/Evm.antt =====
-- ingest/src/evm.rs: queries and their requests. A value of a byte type is its list of bytes.
pub mod Selections
use cherry_core.Base.{ℕ, String, Bool, List, Option}
use cherry_core.Ingest.Evm.Selections.Block
use cherry_core.Ingest.Evm.Selections.Block.{BlockFields}
use cherry_core.Ingest.Evm.Selections.Transaction
use cherry_core.Ingest.Evm.Selections.Transaction.{TransactionFields}
use cherry_core.Ingest.Evm.Selections.Log
use cherry_core.Ingest.Evm.Selections.Log.{LogFields}
use cherry_core.Ingest.Evm.Selections.Trace
use cherry_core.Ingest.Evm.Selections.Trace.{TraceFields}

pub record TransactionRequest : Type 0 where
  pub from_ : List (List ℕ)
  pub to : List (List ℕ)
  pub sighash : List (List ℕ)
  pub status : List ℕ
  pub type_ : List ℕ
  pub contract_deployment_address : List (List ℕ)
  pub hash : List (List ℕ)
  pub include_logs : Bool
  pub include_traces : Bool
  pub include_blocks : Bool

pub record LogRequest : Type 0 where
  pub address : List (List ℕ)
  pub topic0 : List (List ℕ)
  pub topic1 : List (List ℕ)
  pub topic2 : List (List ℕ)
  pub topic3 : List (List ℕ)
  pub include_transactions : Bool
  pub include_transaction_logs : Bool
  pub include_transaction_traces : Bool
  pub include_blocks : Bool

pub record TraceRequest : Type 0 where
  pub from_ : List (List ℕ)
  pub to : List (List ℕ)
  pub address : List (List ℕ)
  pub call_type : List String
  pub reward_type : List String
  pub type_ : List String
  pub sighash : List (List ℕ)
  pub author : List (List ℕ)
  pub include_transactions : Bool
  pub include_transaction_logs : Bool
  pub include_transaction_traces : Bool
  pub include_blocks : Bool

pub record Fields : Type 0 where
  pub block : BlockFields
  pub transaction : TransactionFields
  pub log : LogFields
  pub trace : TraceFields

pub record Query : Type 0 where
  pub from_block : ℕ
  pub to_block : Option ℕ
  pub include_all_blocks : Bool
  pub transactions : List TransactionRequest
  pub logs : List LogRequest
  pub traces : List TraceRequest
  pub fields : Fields

abbrev pub all : Fields
all = record { block = Block.all; transaction = Transaction.all; log = Log.all; trace = Trace.all }
