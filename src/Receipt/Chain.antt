-- ===== src/Receipt/Chain.antt =====
-- What the Sui client answers to the receipt verifier (the types of `@mysten/sui/client` that
-- src/core/action/suiChainReceiptVerifier.ts and suiChainReceiptMapping.ts read), and the library
-- functions that they call.
use say_ur_intent.Prelude.{ℕ, String, Option, List, Map}
use say_ur_intent.Prelude.Int.{ℤ}

-- `error` of a failed execution, where it is an object: its `$kind` and `message` that are texts.
pub record ExecutionError : Type 0 where
  pub kind : Option String
  pub message : Option String

pub data ExecutionStatus : Type 0 where
  succeeded : ExecutionStatus
  failed : Option ExecutionError → ExecutionStatus

pub record MoveCall : Type 0 where
  pub package_name : String
  pub module_name : String
  pub function_name : String

pub record Command : Type 0 where
  pub kind : Option String
  pub move_call : Option MoveCall

pub record TransactionData : Type 0 where
  pub sender : Option String
  pub commands : List Command

pub record Effects : Type 0 where
  pub transaction_digest : String
  pub status : ExecutionStatus

pub record BalanceChange : Type 0 where
  pub address : String
  pub coin_type : String
  pub amount : String

pub record Transaction : Type 0 where
  pub digest : String
  pub transaction : Option TransactionData
  pub effects : Option Effects
  pub balance_changes : Option (List BalanceChange)
  pub object_types : Option (Map String)

-- The two kinds of `TransactionResult`.
pub data TransactionResult : Type 0 where
  transaction_kind failed_transaction_kind : Transaction → TransactionResult

-- A thrown value, by what `isReceiptNotFoundError` and `isWaitTimeoutError` read of it.
pub data ThrownCode : Type 0 where
  code_text : String → ThrownCode
  code_number : ℕ → ThrownCode

pub record ErrorObject : Type 0 where
  pub code : Option ThrownCode
  pub status : Option ThrownCode
  pub name : Option String
  pub message : Option String

pub data ThrownValue : Type 0 where
  error_object : ErrorObject → ThrownValue
  error_text : String → ThrownValue
  error_other : ThrownValue

pub data Answer : Type 0 where
  resolved : TransactionResult → Answer
  rejected : ThrownValue → Answer

-- `client.core`: the chain identifier, unless its lookup throws, and `waitForTransaction` with a
-- digest and a timeout.
pub record Client : Type 0 where
  pub get_chain_identifier : Option String
  pub wait_for_transaction : String → ℕ → Answer

-- `normalizeStructTag` of the SDK, which throws; `BigInt` of a text, which throws, and `toString`
-- of a `BigInt`; `slice(0, n)` and `toLowerCase` of a text.
pub record Library : Type 0 where
  pub normalize_struct_tag : String → Option String
  pub big_int : String → Option ℤ
  pub big_int_text : ℤ → String
  pub slice : ℕ → String → String
  pub to_lower_case : String → String
