-- ===== src/Receipt/Evidence.antt =====
-- Chain receipt evidence and its schema: src/core/action/suiChainReceiptEvidence.ts. `length` of
-- a text is `utf16_length` of the host.
use Prim.Native.Char.{code}
use Prim.Native.String.{◌∷◌, []}
use say_ur_intent.Prelude.{
  ℕ, zero, suc, String, Bool, true, false, ◌&&◌, ◌||◌, ◌==◌, leb, List, Option, some, none, Map,
  is_some,
}
use say_ur_intent.Prelude.Int.{ℤ, pos, negsuc}
use say_ur_intent.Host.{Host, is_iso_utc}
use say_ur_intent.Numeric.Text.{all_digits}
use say_ur_intent.Receipt.Chain.{Library}
use say_ur_intent.Receipt.Mapping.{EffectsStatus, success, failure, PackageCall, call_target}

pub data Direction : Type 0 where
  increase decrease unchanged : Direction

pub record AccountBalanceChange : Type 0 where
  pub index : ℕ
  pub coin_type : String
  pub amount_raw : String
  pub direction : Direction

-- The other fields of `source` and `kind` are constants.
pub record ReceiptSource : Type 0 where
  pub chain_identifier : String
  pub fetched_at : String

pub record SuiChainReceiptEvidence : Type 0 where
  pub source : ReceiptSource
  pub tx_digest : String
  pub sender : String
  pub effects_status : EffectsStatus
  pub package_calls : List PackageCall
  pub account_balance_changes : List AccountBalanceChange
  pub object_types : Map String

-- The direction of a signed amount.
unfoldable pub direction_of : ℤ → Direction
direction_of (pos zero) = Direction.unchanged
direction_of (pos (suc n)) = Direction.increase
direction_of (negsuc n) = Direction.decrease

abbrev same_direction : Direction → Direction → Bool
same_direction Direction.increase Direction.increase = true
same_direction Direction.decrease Direction.decrease = true
same_direction Direction.unchanged Direction.unchanged = true
same_direction _ _ = false

abbrev pub positive_digits : String → Bool
positive_digits [] = false
positive_digits (c ∷ s) = leb 49 (code c) && leb (code c) 57 && all_digits s

-- `/^(?:0|-?[1-9][0-9]*)$/` of `parseSignedRawInteger`.
unfoldable pub is_signed_raw_integer : String → Bool
is_signed_raw_integer [] = false
is_signed_raw_integer (c ∷ s) =
    (c ∷ s) == "0"
    || positive_digits (c ∷ s)
    || leb 45 (code c) && leb (code c) 45 && positive_digits s

unfoldable pub every {ℓ} : {A : Type ℓ} → (A → Bool) → List A → Bool
every p List.[] = true
every p (List.◌∷◌ x xs) = p x && every p xs

module _ (host : Host) (library : Library) where
  abbrev has_length : ℕ → ℕ → String → Bool
  has_length low high s = leb low (host.utf16_length s) && leb (host.utf16_length s) high

  abbrev optional_length : ℕ → ℕ → Option String → Bool
  optional_length low high none = true
  optional_length low high (some s) = has_length low high s

  abbrev valid_coin_type : String → Bool
  valid_coin_type s = has_length 1 512 s && is_some (library.normalize_struct_tag s)

  unfoldable pub valid_package_call : PackageCall → Bool
  valid_package_call call =
      host.is_valid_sui_address call.package_id
      && has_length 1 128 call.module_name
      && has_length 1 128 call.function_name
      && has_length 1 512 call.target
      && call.target == call_target call.package_id call.module_name call.function_name

  unfoldable pub valid_balance_change : AccountBalanceChange → Bool
  valid_balance_change change =
      valid_coin_type change.coin_type
      && is_signed_raw_integer change.amount_raw
      && elim (library.big_int change.amount_raw) [
        | none ↦ false
        | some amount ↦ same_direction change.direction (direction_of amount)
      ]

  abbrev valid_effects_status : EffectsStatus → Bool
  valid_effects_status success = true
  valid_effects_status (failure kind message) =
      optional_length 1 200 kind && optional_length 1 2000 message

  abbrev valid_object_type : String × String → Bool
  valid_object_type (id, object_type) = host.is_valid_sui_address id && has_length 1 512 object_type

  -- `suiChainReceiptEvidenceSchema`: whether it accepts the receipt, which it does not change.
  unfoldable pub valid_receipt : SuiChainReceiptEvidence → Bool
  unfolding every valid_package_call valid_balance_change
  valid_receipt receipt =
      leb 1 (host.utf16_length receipt.source.chain_identifier)
      && is_iso_utc host receipt.source.fetched_at
      && host.is_valid_transaction_digest receipt.tx_digest
      && host.is_valid_sui_address receipt.sender
      && valid_effects_status receipt.effects_status
      && every valid_package_call receipt.package_calls
      && every valid_balance_change receipt.account_balance_changes
      && every valid_object_type receipt.object_types
