-- ===== src/Errors.antt =====
-- src/error.rs: the error codes of a node's answers, and the errors of a session.
pub mod Codes
mod Runs
use nkn_sdk_rust.Prelude.{
  ℕ, ◌≡◌, ◌==◌, if◌then◌else◌, Bool, true, false, List, [], ◌∷◌, Outcome, ok, panicked, String,
}
use nkn_sdk_rust.Prelude.Int.{ℤ, pos, negsuc}

pub data NknError : Type 0 where
  success : NknError
  session_expired : NknError
  service_ceiling : NknError
  illegal_data_format : NknError
  invalid_method : NknError
  invalid_params : NknError
  invalid_token : NknError
  invalid_transaction : NknError
  invalid_asset : NknError
  invalid_block : NknError
  invalid_hash : NknError
  invalid_version : NknError
  unknown_transaction : NknError
  unknown_asset : NknError
  unknown_block : NknError
  unknown_hash : NknError
  internal_error : NknError
  smart_code_error : NknError
  wrong_node : NknError
  no_code : NknError
  unknown : NknError
  duplicated_tx : NknError
  input_output_too_long : NknError
  duplicate_input : NknError
  asset_precision : NknError
  transaction_balance : NknError
  attribute_program : NknError
  transaction_contracts : NknError
  transaction_payload : NknError
  double_spend : NknError
  tx_hash_duplicate : NknError
  state_updater_vaild : NknError
  summary_asset : NknError
  xmit_fail : NknError
  duplicate_name : NknError
  mine_reward : NknError
  duplicate_subscription : NknError
  subscription_limit : NknError
  do_not_propagate : NknError
  already_subscribed : NknError
  append_txn_pool : NknError
  null_id : NknError
  zero_id : NknError
  null_db : NknError

-- The values of the enumeration.
abbrev pub discriminant : NknError → ℤ
discriminant success = pos 0
discriminant session_expired = pos 41001
discriminant service_ceiling = pos 41002
discriminant illegal_data_format = pos 41003
discriminant invalid_method = pos 42001
discriminant invalid_params = pos 42002
discriminant invalid_token = pos 42003
discriminant invalid_transaction = pos 43001
discriminant invalid_asset = pos 43002
discriminant invalid_block = pos 43003
discriminant invalid_hash = pos 43004
discriminant invalid_version = pos 43005
discriminant unknown_transaction = pos 44001
discriminant unknown_asset = pos 44002
discriminant unknown_block = pos 44003
discriminant unknown_hash = pos 44004
discriminant internal_error = pos 45001
discriminant smart_code_error = pos 47001
discriminant wrong_node = pos 48001
discriminant no_code = negsuc 1
discriminant unknown = negsuc 0
discriminant duplicated_tx = pos 1
discriminant input_output_too_long = pos 45002
discriminant duplicate_input = pos 45003
discriminant asset_precision = pos 45004
discriminant transaction_balance = pos 45005
discriminant attribute_program = pos 45006
discriminant transaction_contracts = pos 45007
discriminant transaction_payload = pos 45008
discriminant double_spend = pos 45009
discriminant tx_hash_duplicate = pos 45010
discriminant state_updater_vaild = pos 45011
discriminant summary_asset = pos 45012
discriminant xmit_fail = pos 45013
discriminant duplicate_name = pos 45015
discriminant mine_reward = pos 45016
discriminant duplicate_subscription = pos 45017
discriminant subscription_limit = pos 45018
discriminant do_not_propagate = pos 45019
discriminant already_subscribed = pos 45020
discriminant append_txn_pool = pos 45021
discriminant null_id = pos 45022
discriminant zero_id = pos 45023
discriminant null_db = pos 45024

abbrev pub same_int : ℤ → ℤ → Bool
same_int (pos m) (pos n) = m == n
same_int (pos m) (negsuc n) = false
same_int (negsuc m) (pos n) = false
same_int (negsuc m) (negsuc n) = m == n

-- The arms of the match in `NKNError::from`.
abbrev pub arms : List (ℤ × NknError)
arms =
    (pos 0, success)
    ∷ (pos 41001, session_expired)
    ∷ (pos 41002, service_ceiling)
    ∷ (pos 41003, illegal_data_format)
    ∷ (pos 42001, invalid_method)
    ∷ (pos 42002, invalid_params)
    ∷ (pos 42003, invalid_token)
    ∷ (pos 43001, invalid_transaction)
    ∷ (pos 43002, invalid_asset)
    ∷ (pos 43003, invalid_block)
    ∷ (pos 43004, invalid_hash)
    ∷ (pos 43005, invalid_version)
    ∷ (pos 44001, unknown_transaction)
    ∷ (pos 44002, unknown_asset)
    ∷ (pos 44003, unknown_block)
    ∷ (pos 44004, unknown_hash)
    ∷ (pos 45001, internal_error)
    ∷ (pos 47001, smart_code_error)
    ∷ (pos 48001, wrong_node)
    ∷ (negsuc 1, no_code)
    ∷ (negsuc 0, unknown)
    ∷ (pos 1, duplicated_tx)
    ∷ (pos 45002, input_output_too_long)
    ∷ (pos 45003, duplicate_input)
    ∷ (pos 45004, asset_precision)
    ∷ (pos 45005, transaction_balance)
    ∷ (pos 45006, attribute_program)
    ∷ (pos 45007, transaction_contracts)
    ∷ (pos 45008, transaction_payload)
    ∷ (pos 45009, double_spend)
    ∷ (pos 45010, tx_hash_duplicate)
    ∷ (pos 45011, state_updater_vaild)
    ∷ (pos 45012, summary_asset)
    ∷ (pos 45013, xmit_fail)
    ∷ (pos 45015, duplicate_name)
    ∷ (pos 45016, mine_reward)
    ∷ (pos 45017, duplicate_subscription)
    ∷ (pos 45018, subscription_limit)
    ∷ (pos 45019, do_not_propagate)
    ∷ (pos 45020, already_subscribed)
    ∷ (pos 45021, append_txn_pool)
    ∷ (pos 45022, null_id)
    ∷ (pos 45023, zero_id)
    ∷ (pos 45024, null_db)
    ∷ []

-- The first arm with the code; where there is none, `unreachable!()` panics.
unfoldable pub match_arm : ℤ → List (ℤ × NknError) → Outcome NknError
match_arm i [] = panicked
match_arm i ((code, error) ∷ more) =
    let rest = match_arm i more in if same_int code i then ok error else rest

-- `NKNError::from`
unfoldable pub from : ℤ → Outcome NknError
unfolding match_arm
from i = match_arm i arms
