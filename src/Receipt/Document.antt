-- ===== src/Receipt/Document.antt =====
-- The JSON of a chain receipt (`SuiChainReceiptEvidence` of
-- src/core/action/suiChainReceiptEvidence.ts), as the scan for forbidden fields reads it.
use say_ur_intent.Prelude.{String, true, false, List, [], ◌∷◌, Option, some, none, Map}
use say_ur_intent.Receipt.Mapping.{EffectsStatus, success, failure, PackageCall}
use say_ur_intent.Receipt.Evidence.{
  Direction, AccountBalanceChange, ReceiptSource, SuiChainReceiptEvidence,
}
use say_ur_intent.Receipt.Forbidden.{
  Json, number, text, boolean, array, object, Items, no_items, item, Fields, no_fields, field,
}

abbrev direction_text : Direction → String
direction_text Direction.increase = "increase"
direction_text Direction.decrease = "decrease"
direction_text Direction.unchanged = "zero"

abbrev optional_field : String → Option String → Fields → Fields
optional_field key none rest = rest
optional_field key (some s) rest = field key (text s) rest

unfoldable pub effects_json : EffectsStatus → Json
effects_json success = object (field "success" (boolean true) no_fields)
effects_json (failure kind message) = object (
    field "success" (boolean false)
      (optional_field "errorKind" kind (optional_field "errorMessage" message no_fields)))

unfoldable pub package_calls_json : List PackageCall → Items
package_calls_json [] = no_items
package_calls_json (call ∷ calls) =
    item
      (object (
        field "commandIndex" (number call.command_index) (
          field "packageId" (text call.package_id) (
            field "module" (text call.module_name) (
              field "function" (text call.function_name)
                (field "target" (text call.target) no_fields))))))
      (package_calls_json calls)

unfoldable pub balance_changes_json : List AccountBalanceChange → Items
balance_changes_json [] = no_items
balance_changes_json (change ∷ changes) =
    item
      (object (
        field "index" (number change.index) (
          field "coinType" (text change.coin_type) (
            field "amountRaw" (text change.amount_raw)
              (field "direction" (text (direction_text change.direction)) no_fields)))))
      (balance_changes_json changes)

unfoldable pub object_types_json : Map String → Fields
object_types_json [] = no_fields
object_types_json ((id, object_type) ∷ rest) = field id (text object_type) (object_types_json rest)

abbrev include_json : Items
include_json =
    item (text "transaction")
      (item (text "effects") (item (text "balanceChanges") (item (text "objectTypes") no_items)))

unfoldable pub source_json : ReceiptSource → Json
source_json source = object (
    field "method" (text "client.core.getTransaction") (
      field "network" (text "sui:mainnet") (
        field "chainIdentifier" (text source.chain_identifier) (
          field "fetchedAt" (text source.fetched_at)
            (field "include" (array include_json) no_fields)))))

unfoldable pub receipt_json : SuiChainReceiptEvidence → Json
unfolding effects_json package_calls_json balance_changes_json object_types_json source_json
receipt_json receipt = object (
    field "kind" (text "sui_chain_receipt_v1") (
      field "source" (source_json receipt.source) (
        field "txDigest" (text receipt.tx_digest) (
          field "sender" (text receipt.sender) (
            field "effectsStatus" (effects_json receipt.effects_status) (
              field "packageCalls" (array (package_calls_json receipt.package_calls)) (
                field "accountBalanceChanges"
                  (array (balance_changes_json receipt.account_balance_changes))
                  (field "objectTypes" (object (object_types_json receipt.object_types))
                    no_fields))))))))
