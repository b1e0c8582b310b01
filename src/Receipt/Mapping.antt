-- ===== src/Receipt/Mapping.antt =====
-- The mappers of src/core/action/suiChainReceiptMapping.ts from the client's answer to receipt
-- facts, and its classification of thrown values.
use Prim.Native.String.{◌++◌}
use say_ur_intent.Prelude.{
  ℕ, suc, String, ◌||◌, not, ◌==◌, if◌then◌else◌, List, [], ◌∷◌, Option, some, none, Map, insert,
  same_text, truthy,
}
use say_ur_intent.Prelude.Fallible.{◌>>=◌, ◌>>◌, ensure}
use say_ur_intent.Host.{Host, parse_sui_address}
use say_ur_intent.Receipt.Chain.{ExecutionStatus, succeeded, failed, MoveCall, Command, Library}

pub data EffectsStatus : Type 0 where
  success : EffectsStatus
  failure : Option String → Option String → EffectsStatus

abbrev slice_of : Library → ℕ → Option String → Option String
slice_of library n none = none
slice_of library n (some s) = some (library.slice n s)

abbrev nonempty : Option String → Option String
nonempty o = if truthy o then o else none

-- `effectsStatusFromSdk`.
unfoldable pub effects_status_from_sdk : Library → ExecutionStatus → EffectsStatus
effects_status_from_sdk library succeeded = success
effects_status_from_sdk library (failed none) = failure none none
effects_status_from_sdk library (failed (some e)) =
    failure (slice_of library 200 e.kind) (slice_of library 2000 (nonempty e.message))

pub record PackageCall : Type 0 where
  pub command_index : ℕ
  pub package_id : String
  pub module_name : String
  pub function_name : String
  pub target : String

abbrev pub call_target : String → String → String → String
call_target package_id module_name function_name =
    package_id ++ "::" ++ module_name ++ "::" ++ function_name

-- `moveCallFromCommand`.
unfoldable pub move_call_from_command : Command → Option MoveCall
move_call_from_command command =
    if same_text command.kind none || same_text command.kind (some "MoveCall")
    then command.move_call
    else none

-- `packageCallsFromTransaction`, from the index of the first command; `none` where it throws.
unfoldable pub package_calls_from : Host → ℕ → List Command → Option (List PackageCall)
unfolding move_call_from_command
package_calls_from host index [] = some []
package_calls_from host index (command ∷ rest) = elim (move_call_from_command command) [
  | none ↦ package_calls_from host (suc index) rest
  | some call ↦ do
    package_id ← parse_sui_address host call.package_name
    ensure (not (package_id == ""))
    calls ← package_calls_from host (suc index) rest
    some (
        record {
          command_index = index;
          package_id = package_id;
          module_name = call.module_name;
          function_name = call.function_name;
          target = call_target package_id call.module_name call.function_name;
        }
        ∷ calls)
]

-- `objectTypesFromSdk`: the last of the entries that share a normalized id stays.
unfoldable pub object_types_from : Host → Map String → Map String → Option (Map String)
object_types_from host out [] = some out
object_types_from host out ((id, object_type) ∷ rest) = do
  normalized ← parse_sui_address host id
  ensure (not (normalized == ""))
  object_types_from host (insert normalized object_type out) rest

-- `requireReceiptAddress`; an empty text counts as no address.
unfoldable pub require_receipt_address : Host → Option String → Option String
require_receipt_address host none = none
require_receipt_address host (some raw) = do
  address ← parse_sui_address host raw
  ensure (not (address == ""))
  some address
