-- ===== src/Session/Fixtures.antt =====
-- Data for the examples: a host whose dates are as many letters as they have milliseconds, and a
-- session that is ready for the wallet, with its material.
use Prim.Native.Char.{Char}
use Prim.Native.String.{count}
use text.Mathlib.TextLemmas.{length-nil, length-cons}
use say_ur_intent.Prelude.{
  ℕ, zero, suc, String, true, false, [], ◌∷◌, some, none, ◌≡◌, refl, ap, ◌∙◌,
}
use say_ur_intent.Host.{Host, ReadsBack}
use say_ur_intent.Session.Types.{
  ReviewSession, SessionStatus, ReviewState, ReviewStatus, ActionPlan, LocalSessionBase,
  ExecutionResult, ResultBase,
}
use say_ur_intent.Prelude.Int.{ℤ, pos, negsuc}
use say_ur_intent.Numeric.Text.{big_int, to_decimal}
use say_ur_intent.Receipt.Chain.{Library}
use say_ur_intent.Receipt.Mapping.{EffectsStatus}
use say_ur_intent.Receipt.Evidence.{Direction, SuiChainReceiptEvidence, valid_receipt}
use say_ur_intent.Session.Errors.{ok}
use say_ur_intent.Session.Material.Data.{
  Kind, Source, MaterialHandle, DigestCommitment, MaterialRecord,
}
use say_ur_intent.Session.Artifacts.{Evidence, PrivateReviewArtifacts}
use say_ur_intent.Session.World.{World, Env}

abbrev letter : Char
letter = "m"

unfoldable pub stamp : ℕ → String
stamp zero = ""
stamp (suc n) = String.◌∷◌ letter (stamp n)

abbrev pub some_host : Host
some_host = record {
  to_iso = stamp;
  parse_date = λ s. some (count s);
  is_valid_sui_address = λ s. true;
  normalize_sui_address = λ s. s;
  is_valid_transaction_digest = λ s. true;
  transaction_digest = λ b. some "digest";
  sha256_hex = λ s. s;
  hex_bytes = λ s. count s ∷ [];
  base64 = λ b. "bytes";
  utf16_length = count;
}

stamp-count : (n : ℕ) → count (stamp n) ≡ n
unfolding stamp
stamp-count zero = length-nil
stamp-count (suc n) = length-cons letter (stamp n) ∙ ap suc (stamp-count n)

pub some_host-ReadsBack : ReadsBack some_host
some_host-ReadsBack t = ap some (stamp-count t)

abbrev signed_text : ℤ → String
signed_text (pos n) = to_decimal n
signed_text (negsuc n) = "-1"

abbrev pub some_library : Library
some_library = record {
  normalize_struct_tag = some;
  big_int = λ s. some (pos (big_int s));
  big_int_text = signed_text;
  slice = λ n s. s;
  to_lower_case = λ s. s;
}

abbrev pub some_receipt : SuiChainReceiptEvidence
some_receipt = record {
  source = record { chain_identifier = "35834a8a"; fetched_at = stamp 5 };
  tx_digest = "digest";
  sender = "0xa";
  effects_status = EffectsStatus.success;
  package_calls = [];
  account_balance_changes =
      record {
        index = 0;
        coin_type = "0x2::sui::SUI";
        amount_raw = "5";
        direction = Direction.increase;
      }
      ∷ [];
  object_types = [];
}

pub some_receipt-valid :
    (d : String)
    → valid_receipt some_host some_library (record some_receipt { tx_digest = d }) ≡ true
unfolding valid_receipt stamp big_int say_ur_intent.Host.is_iso_utc
    say_ur_intent.Receipt.Evidence.every say_ur_intent.Receipt.Evidence.valid_balance_change
    say_ur_intent.Receipt.Evidence.is_signed_raw_integer say_ur_intent.Receipt.Evidence.direction_of
    say_ur_intent.Numeric.Text.is_digit say_ur_intent.Numeric.Text.all_digits
    say_ur_intent.Numeric.Text.digits_value
some_receipt-valid d = refl

abbrev pub some_evidence : Evidence
some_evidence = record {
  parse_review_state = some;
  parse_human_review = some;
  parse_simulation = some;
  verify_ownership = λ m d now. some d;
  verify_quote_policy = λ m d now. some d;
  verify_human_review = λ m quote own d now. some d;
  verify_simulation = λ m d now. some d;
  project_human_review = λ d. d;
  project_simulation = λ d. d;
}

-- The activity store takes every write, and no other request runs meanwhile.
abbrev pub some_env : Env
some_env = record {
  host = some_host;
  library = some_library;
  evidence = some_evidence;
  ttl_ms = 9;
  has_material_store = true;
  live_mutations = false;
  log_accepts = λ r. true;
  activity_write = λ write w. (ok tt, w);
}

abbrev pub some_handle : MaterialHandle
some_handle = record {
  material_id = "material";
  review_session_id = "session";
  plan_id = "plan";
  account = "0xa";
  kind = Kind.deepbook_swap_transaction_data;
  source = Source.say_ur_intent_built;
  created_at = stamp 1;
  expires_at = stamp 9;
}

abbrev pub some_digest : DigestCommitment
some_digest = record {
  material_id = "material";
  review_session_id = "session";
  plan_id = "plan";
  account = "0xa";
  kind = Kind.deepbook_swap_transaction_data;
  source = Source.say_ur_intent_built;
  transaction_digest = "digest";
  computed_at = stamp 2;
  expires_at = stamp 9;
}

abbrev pub some_material : MaterialRecord
some_material = record {
  handle = some_handle;
  transaction_bytes = 7 ∷ [];
  redacted_diagnostics = none;
}

abbrev pub some_plan : ActionPlan
some_plan = record { id = "plan"; proposal = "swap" }

abbrev pub some_base : LocalSessionBase
some_base = record {
  id = "session";
  token_hash = "token";
  created_at = "";
  expires_at = stamp 9;
  last_activity_at = stamp 0;
}

abbrev pub some_state : ReviewState
some_state = record {
  plan_id = "plan";
  review_session_id = "session";
  account = "0xa";
  status = ReviewStatus.ready_for_wallet_review;
  blocked_reason = none;
  refresh_reason = none;
  checks = [];
  asset_flow_actual = none;
  before_after_balance = none;
  simulation = none;
  human_readable_review = some "review";
  wallet_review_adapter_contract =
      some (record { transaction_material_commitment = "digest"; terms = "{}" });
  ptb_visualization = none;
  adapter_lifecycle = none;
  updated_at = stamp 2;
}

abbrev pub ready_session : ReviewSession
ready_session = record {
  base = some_base;
  pending_handoff_digest = none;
  status = SessionStatus.ready_for_wallet_review;
  plans = some_plan ∷ [];
  account = some "0xa";
  review_state = some some_state;
  execution_result = none;
}

abbrev pub result_of_session : ResultBase
result_of_session = record {
  review_session_id = "session";
  plan_id = "plan";
  explorer_url = none;
  summary = none;
  recorded_at = stamp 4;
}

abbrev pub signed_result : ExecutionResult
signed_result = ExecutionResult.signed_pending_result result_of_session "digest"

abbrev pub pending_session : ReviewSession
pending_session = record ready_session {
  status = SessionStatus.signed_pending_result;
  execution_result = some signed_result;
}

abbrev pub some_artifacts : PrivateReviewArtifacts
some_artifacts = record {
  transaction_material = some some_handle;
  transaction_material_digest = some some_digest;
  swap_quote_policy = none;
  transaction_object_ownership = none;
  human_readable_review = some "review";
  review_time_simulation = none;
}

abbrev pub world_of : ReviewSession → World
world_of s = record {
  sessions = ("session", s) ∷ [];
  artifacts = ("session", some_artifacts) ∷ [];
  materials = ("material", some_material) ∷ [];
  wallet_sessions = [];
  settings_sessions = [];
  active_account = some "0xa";
  events = [];
}
