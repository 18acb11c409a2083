-- ===== src/RpcErrors.antt =====
-- The taxonomy of RPC failures: packages/web3/src/errors.ts. Messages are kept where the code reads
-- them.
pub mod Chain
pub mod Ranked
use stunks.Prelude.{
  ℕ, zero, suc, ◌+◌, ◌*◌, ◌-◌, ◌^◌, ◌&&◌, Bool, true, false, ◌||◌, Option, none, some, List, [],
  ◌∷◌, ltb, leb, ◌==◌, if◌then◌else◌, sort_by,
}
use stunks.Prelude.Text.{Text, is_space, lower_code}
use stunks.Prelude.Regex.{
  Regex, codes, is_digit, char, word_edge, nothing, or_, some_of, up_to, test, text, optional,
  digits, any_char, ◌~◌,
}

pub data RpcFailureKind : Type 0 where
  non_json_response rate_limited log_range_too_wide block_unavailable : RpcFailureKind
  upstream_unavailable batch_too_large timeout network http_error : RpcFailureKind
  deterministic_error rpc_error : RpcFailureKind

pub record RpcCallError : Type 0 where
  pub kind : RpcFailureKind
  pub message : Text

-- An error object, by what `findRpcCallError` asks of it; a cause is the place of another object.
pub data ErrorObject : Type 0 where
  rpc_call : RpcCallError → ErrorObject
  all_endpoints_failed : List RpcCallError → ErrorObject
  caused_by : ℕ → ErrorObject
  without_cause : ErrorObject

unfoldable pub failure_priority : RpcFailureKind → ℕ
failure_priority log_range_too_wide = 3
failure_priority batch_too_large = 2
failure_priority timeout = 1
failure_priority _ = 0

abbrev pub first_of : List RpcCallError → Option RpcCallError
first_of [] = none
first_of (f ∷ fs) = some f

-- The failures by descending priority.
abbrev pub ranked : List RpcCallError → List RpcCallError
ranked = sort_by (λ a b. ltb (failure_priority b.kind) (failure_priority a.kind))

unfoldable pub is_seen : ℕ → List ℕ → Bool
is_seen n [] = false
is_seen n (m ∷ ms) = if n == m then true else is_seen n ms

-- The loop, on the objects of a store; the outer `none` is the model's fuel running out.
unfoldable pub find_from : (ℕ → ErrorObject) → ℕ → List ℕ → ℕ → Option (Option RpcCallError)
unfolding failure_priority is_seen
find_from store zero seen current = none
find_from store (suc fuel) seen current = elim (is_seen current seen) [
  | true ↦ some none
  | false ↦ elim (store current) [
    | rpc_call failure ↦ some (some failure)
    | all_endpoints_failed failures ↦ some (first_of (ranked failures))
    | caused_by cause ↦ find_from store fuel (current ∷ seen) cause
    | without_cause ↦ some none
  ]
]

-- A round for each of the `count` objects of the store, and one more.
unfoldable pub find_rpc_call_error : (ℕ → ErrorObject) → ℕ → ℕ → Option (Option RpcCallError)
unfolding find_from
find_rpc_call_error store count error = find_from store (suc count) [] error

unfoldable pub is_retryable : RpcFailureKind → Bool
is_retryable deterministic_error = false
is_retryable log_range_too_wide = false
is_retryable _ = true

abbrev pub any_of : List Regex → Text → Bool
any_of [] message = false
any_of (r ∷ rs) message = test r message || any_of rs message

abbrev pub rate_limit_patterns : List Regex
rate_limit_patterns = text "rate limit" ∷ text "too many requests" ∷ text "429" ∷ []

abbrev pub log_range_patterns : List Regex
log_range_patterns =
    (text "ranges over " ~ digits ~ text " blocks are not supported")
    ∷ (text "block range too " ~ or_ (text "large") (text "wide"))
    ∷ (text "query returned more than " ~ digits ~ text " results")
    ∷ text "log response size exceeded"
    ∷ []

abbrev space : Regex
space = char is_space

abbrev pub block_unavailable_patterns : List Regex
block_unavailable_patterns =
    (word_edge
      ~ text "block at number"
      ~ some_of space
      ~ optional (text "\"")
      ~ digits
      ~ optional (text "\"")
      ~ some_of space
      ~ text "could not be found"
      ~ word_edge)
    ∷ []

abbrev pub upstream_unavailable_patterns : List Regex
upstream_unavailable_patterns =
    (word_edge
      ~ text "network is busy"
      ~ optional (text ",")
      ~ text " please try again"
      ~ word_edge)
    ∷ (word_edge
        ~ text "block"
        ~ some_of space
        ~ digits
        ~ some_of space
        ~ text "alone returns more logs than the upstream will serve"
        ~ word_edge)
    ∷ (word_edge ~ text "all RPC upstreams refused the request" ~ word_edge)
    ∷ []

abbrev pub deterministic_patterns : List Regex
deterministic_patterns =
    (word_edge ~ text "execution reverted" ~ word_edge)
    ∷ (word_edge ~ text "invalid param" ~ optional (text "s") ~ word_edge)
    ∷ (word_edge ~ text "method not found" ~ word_edge)
    ∷ (word_edge
        ~ text "method "
        ~ some_of any_char
        ~ text " "
        ~ optional (text "is ")
        ~ text "not "
        ~ or_ (text "supported") (text "available")
        ~ word_edge)
    ∷ (word_edge ~ text "invalid argument" ~ word_edge)
    ∷ []

abbrev pub batch_too_large_patterns : List Regex
batch_too_large_patterns =
    (text "batch of more than "
      ~ digits
      ~ text " request"
      ~ optional (text "s")
      ~ text " "
      ~ or_ (text "are") (text "is")
      ~ text " not allowed")
    ∷ (text "batch "
        ~ or_ (text "size") (text "request")
        ~ up_to 20 any_char
        ~ or_ (text "not allowed")
            (or_ (text "not supported") (or_ (text "too large") (text "exceed"))))
    ∷ []

unfoldable pub classify_rpc_error_message : Text → RpcFailureKind
classify_rpc_error_message message =
    if any_of log_range_patterns message
    then log_range_too_wide
    else if any_of batch_too_large_patterns message
    then batch_too_large
    else if any_of block_unavailable_patterns message
    then block_unavailable
    else if any_of upstream_unavailable_patterns message
    then upstream_unavailable
    else if any_of rate_limit_patterns message
    then rate_limited
    else if any_of deterministic_patterns message
    then deterministic_error
    else rpc_error

-- The rest of a text after a prefix, whatever its case.
abbrev after_prefix : Text → Text → Option Text
after_prefix [] t = some t
after_prefix (c ∷ s) [] = none
after_prefix (c ∷ s) (d ∷ t) = if lower_code c == lower_code d then after_prefix s t else none

-- The number that the digits of a text begin with, and the rest.
abbrev read_digits : ℕ → Text → ℕ × Text
read_digits n [] = (n, [])
read_digits n (c ∷ t) =
    let more = read_digits (n * 10 + (c - b'0')) t in if is_digit c then more else (n, c ∷ t)

abbrev starts_digit : Text → Bool
starts_digit [] = false
starts_digit (c ∷ t) = is_digit c

-- `Number.isSafeInteger(parsed) && parsed > 0`.
abbrev pub safe_positive : ℕ → Option ℕ
safe_positive n = if ltb 0 n && ltb n (2 ^ 53) then some n else none

abbrev requests_follow : ℕ × Text → Option (Option ℕ)
requests_follow (n, t) = elim (after_prefix (codes " request") t) [
  | none ↦ none
  | some rest ↦ some (safe_positive n)
]

-- The match of the pattern at the start of a text; the inner `none` is a number that is refused.
abbrev allowed_at : Text → Option (Option ℕ)
allowed_at t = elim (after_prefix (codes "batch of more than ") t) [
  | none ↦ none
  | some rest ↦ if starts_digit rest then requests_follow (read_digits 0 rest) else none
]

unfoldable pub parse_allowed_batch_size : Text → Option ℕ
parse_allowed_batch_size [] = none
parse_allowed_batch_size (c ∷ t) = elim (allowed_at (c ∷ t)) [
  | some found ↦ found
  | none ↦ parse_allowed_batch_size t
]
