-- ===== src/RpcPool/Wire.antt =====
-- What the pool sends and receives: packages/web3/src/rpc-pool.ts.
use stunks.Prelude.{
  ℕ, Bool, true, false, not, ◌&&◌, ◌||◌, Option, none, some, List, [], Result, ok, err, ltb, leb,
  ◌==◌, if◌then◌else◌, any_by,
}
use stunks.Prelude.Text.{Text, text_eq}
use stunks.Prelude.Regex.{codes}
use stunks.RpcErrors.{
  RpcFailureKind, RpcCallError, non_json_response, rate_limited, block_unavailable, timeout,
  network, http_error, rpc_error, classify_rpc_error_message,
}

pub record RpcBatchCall (Params : Type 0) : Type 0 where
  pub method : Text
  pub params : Params

-- The fields of a JSON-RPC entry: left out, `null` or another value that is no error, or a value.
pub data ErrorField : Type 0 where
  no_error falsy_error : ErrorField
  error_of : Option Text → ErrorField

pub data ResultField (Value : Type 0) : Type 0 where
  no_result null_result : ResultField Value
  value : Value → ResultField Value

pub record BatchEntry (Value : Type 0) : Type 0 where
  pub id : Option ℕ
  pub error : ErrorField
  pub result : ResultField Value

pub data Item (Value : Type 0) : Type 0 where
  null_item : Item Value
  entry : BatchEntry Value → Item Value

-- A body, by what `JSON.parse` makes of it.
pub data Payload (Value : Type 0) : Type 0 where
  not_json scalar : Payload Value
  object : BatchEntry Value → Payload Value
  array : List (Item Value) → Payload Value

-- What `fetch` and the reading of the body give: `fetch` throws, for a timeout or not; the body breaks
-- off; or a response with its status.
pub data Reply (Value : Type 0) : Type 0 where
  no_answer : Bool → Text → Reply Value
  body_lost : Text → Reply Value
  response : ℕ → Payload Value → Reply Value

abbrev pub failure : {A : Type 0} → RpcFailureKind → Text → Result RpcCallError A
failure kind message = err (record { kind = kind; message = message })

-- `response.ok`.
abbrev pub is_ok : ℕ → Bool
is_ok status = leb 200 status && ltb status 300

abbrev pub is_rpc_error : RpcFailureKind → Bool
is_rpc_error rpc_error = true
is_rpc_error _ = false

unfoldable pub classify_with_status : Text → ℕ → RpcFailureKind
unfolding classify_rpc_error_message
classify_with_status message status =
    let kind = classify_rpc_error_message message in
    if is_ok status || not (is_rpc_error kind)
    then kind
    else if status == 429
    then rate_limited
    else http_error

abbrev pub has_error : ErrorField → Bool
has_error no_error = false
has_error _ = true

abbrev pub item_has_error : {Value : Type 0} → Item Value → Bool
item_has_error null_item = false
item_has_error (entry e) = has_error e.error

abbrev pub carries_error : {Value : Type 0} → Payload Value → Bool
carries_error (array items) = any_by item_has_error items
carries_error (object e) = has_error e.error
carries_error _ = false

abbrev pub is_object : {Value : Type 0} → Payload Value → Bool
is_object (array items) = true
is_object (object e) = true
is_object _ = false

-- `postRpc` from the body on, for a body that is JSON.
unfoldable pub checked_payload :
    {Value : Type 0} → ℕ → Payload Value → Result RpcCallError (Payload Value × ℕ)
checked_payload status payload =
    if not (is_ok status) && not (carries_error payload)
    then failure (if status == 429 then rate_limited else http_error) []
    else if not (is_object payload)
    then failure non_json_response []
    else ok (payload, status)

-- `postRpc`, given what comes back. A body that breaks off is an error of another class, which every
-- caller turns into `NETWORK`.
unfoldable pub post_rpc : {Value : Type 0} → Reply Value → Result RpcCallError (Payload Value × ℕ)
unfolding checked_payload
post_rpc (no_answer timed_out message) = failure (if timed_out then timeout else network) message
post_rpc (body_lost message) = failure network message
post_rpc (response status not_json) =
    failure (if status == 429 then rate_limited else non_json_response) []
post_rpc (response status payload) = checked_payload status payload

abbrev pub unknown_message : Option Text → Text
unknown_message none = codes "unknown RPC error"
unknown_message (some message) = message

abbrev pub is_null : {Value : Type 0} → ResultField Value → Bool
is_null null_result = true
is_null _ = false

-- A method that reads a block, for which `null` means that the endpoint does not have it yet.
unfoldable pub reads_block : Text → Bool
reads_block method =
    text_eq method (codes "eth_getBlockByNumber") || text_eq method (codes "eth_getBlockByHash")

-- The two tests on an entry that answers `method`, of `callEndpoint` and of `callEndpointBatch`.
unfoldable pub entry_result :
    {Value : Type 0}
    → Text
    → ℕ
    → ErrorField
    → ResultField Value
    → Result RpcCallError (ResultField Value)
unfolding classify_with_status reads_block
entry_result method status (error_of message) answer =
    failure (classify_with_status (unknown_message message) status) (unknown_message message)
entry_result method status no_error answer =
    if is_null answer && reads_block method then failure block_unavailable [] else ok answer
entry_result method status falsy_error answer =
    if is_null answer && reads_block method then failure block_unavailable [] else ok answer
