-- ===== src/Session/Wallet/Data.antt =====
-- Wallet identity sessions, their results and the zod schemas of both.
use say_ur_intent.Prelude.{
  String, Bool, true, false, Option, some, none, ◌&&◌, ◌==◌, leb, if◌then◌else◌, is_some, ite,
}
use say_ur_intent.Host.{Host, parse_sui_address, is_iso_utc}
use say_ur_intent.Session.Types.{LocalSessionBase}
use say_ur_intent.Session.Material.Data.{non_empty}

pub data WalletIdentityStatus : Type 0 where
  pending opened connecting connected rejected failed expired : WalletIdentityStatus

pub data WalletIdentityFailureReason : Type 0 where
  user_rejected no_compatible_wallet no_accounts_authorized : WalletIdentityFailureReason
  unsupported_chain wallet_provider_error : WalletIdentityFailureReason

pub WalletIdentityStatus-discrete : Discrete WalletIdentityStatus
WalletIdentityStatus-discrete = hlevel

unfoldable pub same_wallet_status : WalletIdentityStatus → WalletIdentityStatus → Bool
unfolding WalletIdentityStatus-discrete
same_wallet_status a b = ite (WalletIdentityStatus-discrete a b) true false

-- The union of the source as one record: a field that a status has not is `none`.
pub record WalletIdentitySession : Type 0 where
  pub base : LocalSessionBase
  pub open base use *
  pub status : WalletIdentityStatus
  pub account : Option String
  pub chain : Option String
  pub wallet_name : Option String
  pub wallet_id : Option String
  pub failure_reason : Option WalletIdentityFailureReason
  pub failure_detail : Option String

-- What a wallet reports: a status, and the fields that came with it.
pub record WalletIdentityResult : Type 0 where
  pub status : WalletIdentityStatus
  pub account : Option String
  pub chain : Option String
  pub wallet_name : Option String
  pub wallet_id : Option String
  pub failure_reason : Option WalletIdentityFailureReason
  pub failure_detail : Option String

abbrev pub sui_mainnet_wallet_chain : String
sui_mainnet_wallet_chain = "sui:mainnet"

unfoldable pub is_terminal_wallet_identity_status : WalletIdentityStatus → Bool
unfolding same_wallet_status
is_terminal_wallet_identity_status connected = true
is_terminal_wallet_identity_status rejected = true
is_terminal_wallet_identity_status failed = true
is_terminal_wallet_identity_status expired = true
is_terminal_wallet_identity_status _ = false

-- `z.string().min(1).optional()` and `failureDetailSchema`.
abbrev optional_text : Option String → Bool
optional_text none = true
optional_text (some s) = non_empty s

abbrev optional_detail : Host → Option String → Bool
optional_detail host none = true
optional_detail host (some s) = non_empty s && leb (host.utf16_length s) 500

abbrev is_mainnet_chain : Option String → Bool
is_mainnet_chain none = false
is_mainnet_chain (some c) = c == sui_mainnet_wallet_chain

abbrev is_user_rejected : Option WalletIdentityFailureReason → Bool
is_user_rejected (some user_rejected) = true
is_user_rejected _ = false

abbrev is_non_user_reason : Option WalletIdentityFailureReason → Bool
is_non_user_reason none = false
is_non_user_reason (some user_rejected) = false
is_non_user_reason _ = true

abbrev pub is_no_compatible_wallet : Option WalletIdentityFailureReason → Bool
is_no_compatible_wallet (some no_compatible_wallet) = true
is_no_compatible_wallet _ = false

-- `normalizedSuiAddressSchema` at an optional field.
unfoldable pub parse_account : Host → Option String → Option String
parse_account host none = none
parse_account host (some a) = parse_sui_address host a

-- The branches of `walletIdentityResultInputSchema`: unknown keys are dropped, the account is
-- normalized.
parse_result_as : Host → WalletIdentityStatus → WalletIdentityResult → Option WalletIdentityResult
parse_result_as host connected r = elim (parse_account host r.account) [
  | none ↦ none
  | some a ↦
      if is_mainnet_chain r.chain && optional_text r.wallet_name && optional_text r.wallet_id
      then some (record r { account = some a; failure_reason = none; failure_detail = none })
      else none
]
parse_result_as host rejected r =
    if is_user_rejected r.failure_reason
      && optional_detail host r.failure_detail
      && optional_text r.wallet_name
      && optional_text r.wallet_id
    then some (record r { account = none; chain = none })
    else none
parse_result_as host failed r =
    if is_non_user_reason r.failure_reason
      && optional_detail host r.failure_detail
      && optional_text r.wallet_name
      && optional_text r.wallet_id
    then some (record r { account = none; chain = none })
    else none
parse_result_as host _ r = none

unfoldable pub parse_wallet_result : Host → WalletIdentityResult → Option WalletIdentityResult
unfolding parse_result_as parse_account
parse_wallet_result host r = parse_result_as host r.status r

-- The branches of `walletIdentitySessionSchema`, which is used as a test only.
unfoldable pub valid_fields_as : Host → WalletIdentityStatus → WalletIdentitySession → Bool
valid_fields_as host connected s =
    is_some (parse_account host s.account)
    && is_mainnet_chain s.chain
    && optional_text s.wallet_name
    && optional_text s.wallet_id
valid_fields_as host rejected s =
    is_user_rejected s.failure_reason
    && optional_detail host s.failure_detail
    && optional_text s.wallet_name
    && optional_text s.wallet_id
valid_fields_as host failed s =
    is_non_user_reason s.failure_reason
    && optional_detail host s.failure_detail
    && optional_text s.wallet_name
    && optional_text s.wallet_id
valid_fields_as host _ s = true

unfoldable pub parse_wallet_session : Host → WalletIdentitySession → Bool
unfolding valid_fields_as
parse_wallet_session host s =
    is_iso_utc host s.created_at
    && is_iso_utc host s.expires_at
    && is_iso_utc host s.last_activity_at
    && valid_fields_as host s.status s
