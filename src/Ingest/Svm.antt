-- ===== src/Ingest/Svm.antt =====
-- ingest/src/svm.rs: queries and their requests. A value of a byte type is its list of bytes.
pub mod Selections
use cherry_core.Base.{ℕ, String, Bool, List, Option, Result, ok, err, if◌then◌else◌}
use cherry_core.Base.Dict.{str_eq}
use cherry_core.Ingest.Svm.Selections.Instruction
use cherry_core.Ingest.Svm.Selections.Instruction.{InstructionFields}
use cherry_core.Ingest.Svm.Selections.Transaction
use cherry_core.Ingest.Svm.Selections.Transaction.{TransactionFields}
use cherry_core.Ingest.Svm.Selections.Log
use cherry_core.Ingest.Svm.Selections.Log.{LogFields}
use cherry_core.Ingest.Svm.Selections.Balance
use cherry_core.Ingest.Svm.Selections.Balance.{BalanceFields}
use cherry_core.Ingest.Svm.Selections.TokenBalance
use cherry_core.Ingest.Svm.Selections.TokenBalance.{TokenBalanceFields}
use cherry_core.Ingest.Svm.Selections.Reward
use cherry_core.Ingest.Svm.Selections.Reward.{RewardFields}
use cherry_core.Ingest.Svm.Selections.Block
use cherry_core.Ingest.Svm.Selections.Block.{BlockFields}

pub data LogKind : Type 0 where
  log data_ other : LogKind

unfoldable pub as_str : LogKind → String
as_str log = "log"
as_str data_ = "data"
as_str other = "other"

-- The error carries the text that is no log kind.
unfoldable pub from_str : String → Result String LogKind
from_str s =
    if str_eq s "log"
    then ok log
    else if str_eq s "data"
    then ok data_
    else if str_eq s "other"
    then ok other
    else err s

pub record InstructionRequest : Type 0 where
  pub program_id : List (List ℕ)
  pub discriminator : List (List ℕ)
  pub d1 : List (List ℕ)
  pub d2 : List (List ℕ)
  pub d3 : List (List ℕ)
  pub d4 : List (List ℕ)
  pub d8 : List (List ℕ)
  pub a0 : List (List ℕ)
  pub a1 : List (List ℕ)
  pub a2 : List (List ℕ)
  pub a3 : List (List ℕ)
  pub a4 : List (List ℕ)
  pub a5 : List (List ℕ)
  pub a6 : List (List ℕ)
  pub a7 : List (List ℕ)
  pub a8 : List (List ℕ)
  pub a9 : List (List ℕ)
  pub is_committed : Bool
  pub include_transactions : Bool
  pub include_transaction_token_balances : Bool
  pub include_logs : Bool
  pub include_inner_instructions : Bool
  pub include_blocks : Bool

pub record TransactionRequest : Type 0 where
  pub fee_payer : List (List ℕ)
  pub include_instructions : Bool
  pub include_logs : Bool
  pub include_blocks : Bool

pub record LogRequest : Type 0 where
  pub program_id : List (List ℕ)
  pub kind : List LogKind
  pub include_transactions : Bool
  pub include_instructions : Bool
  pub include_blocks : Bool

pub record BalanceRequest : Type 0 where
  pub account : List (List ℕ)
  pub include_transactions : Bool
  pub include_transaction_instructions : Bool
  pub include_blocks : Bool

pub record TokenBalanceRequest : Type 0 where
  pub account : List (List ℕ)
  pub pre_program_id : List (List ℕ)
  pub post_program_id : List (List ℕ)
  pub pre_mint : List (List ℕ)
  pub post_mint : List (List ℕ)
  pub pre_owner : List (List ℕ)
  pub post_owner : List (List ℕ)
  pub include_transactions : Bool
  pub include_transaction_instructions : Bool
  pub include_blocks : Bool

pub record RewardRequest : Type 0 where
  pub pubkey : List (List ℕ)
  pub include_blocks : Bool

pub record Fields : Type 0 where
  pub instruction : InstructionFields
  pub transaction : TransactionFields
  pub log : LogFields
  pub balance : BalanceFields
  pub token_balance : TokenBalanceFields
  pub reward : RewardFields
  pub block : BlockFields

pub record Query : Type 0 where
  pub from_block : ℕ
  pub to_block : Option ℕ
  pub include_all_blocks : Bool
  pub fields : Fields
  pub instructions : List InstructionRequest
  pub transactions : List TransactionRequest
  pub logs : List LogRequest
  pub balances : List BalanceRequest
  pub token_balances : List TokenBalanceRequest
  pub rewards : List RewardRequest

abbrev pub all : Fields
all = record {
  instruction = Instruction.all;
  transaction = Transaction.all;
  log = Log.all;
  balance = Balance.all;
  token_balance = TokenBalance.all;
  reward = Reward.all;
  block = Block.all;
}
