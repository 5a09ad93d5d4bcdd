-- ===== src/Delivery/Options.antt =====
-- New, the checks of a request and the backoff of internal/delivery/delivery.go.
use Prim.Native.String.{len}
use pulse_agent.Prelude.{
  ℕ, zero, suc, ◌+◌, ◌-◌, ◌*◌, ◌/◌, ◌^◌, ltb, leb, String, Bool, true, false, not, ◌&&◌, ◌||◌, List,
  [], ◌∷◌, length, Option, none, some, ◌==◌, if◌then◌else◌,
}
use pulse_agent.Prelude.Int.{ℤ, pos, negsuc, pos_part, ltb_ℤ, max_int64}
use pulse_agent.Prelude.Text.{is_trimmed, contains_nul}
use pulse_agent.Prelude.Result.{
  Result, ok, invalid_options, invalid_request, ◌>>=◌, ◌>>◌, fail_if, or_error,
}
use pulse_agent.Contract.{
  is_zero, Duration, delivery_payload_lifecycle_event, delivery_payload_incident_report,
  eq_delivery_payload_type,
}
use pulse_agent.Delivery.Types.{DispatcherOptions, EnqueueRequest, ParsedUrl}

abbrev pub max_destination_ref_length : ℕ
max_destination_ref_length = 128

abbrev pub max_payload_ref_length : ℕ
max_payload_ref_length = 256

abbrev pub queue_items_limit : ℕ
queue_items_limit = 10000

abbrev pub attempts_limit : ℕ
attempts_limit = 32

abbrev pub payload_bytes_limit : ℕ
payload_bytes_limit = 1048576

abbrev pub millisecond : ℕ
millisecond = 1000000

abbrev pub minute : ℕ
minute = 60000000000

unfoldable pub valid_token : String → ℕ → Bool
unfolding is_trimmed contains_nul
valid_token value limit =
    not (value == "") && leb (len value) limit && is_trimmed value && not (contains_nul value)

unfoldable pub valid_options : DispatcherOptions → Bool
valid_options o = not (
    ltb_ℤ o.max_queue_items (pos 1)
    || ltb_ℤ (pos queue_items_limit) o.max_queue_items
    || ltb_ℤ o.max_attempts (pos 1)
    || ltb_ℤ (pos attempts_limit) o.max_attempts
    || ltb_ℤ o.initial_backoff (pos millisecond)
    || ltb_ℤ o.max_backoff o.initial_backoff
    || ltb_ℤ o.request_timeout (pos millisecond)
    || ltb_ℤ (pos (2 * minute)) o.request_timeout
    || ltb_ℤ o.max_payload_bytes (pos 1)
    || ltb_ℤ (pos payload_bytes_limit) o.max_payload_bytes)

-- An absolute HTTPS address without a user, a query or a fragment.
unfoldable pub valid_endpoint : ParsedUrl → Bool
valid_endpoint u =
    u.scheme == "https"
    && not (u.host == "")
    && not u.has_user
    && u.raw_query == ""
    && u.fragment == ""

module _ (parse_url : String → Option ParsedUrl) where
  unfoldable pub validate_each : List (String × String) → Result (List (String × String))
  unfolding valid_token valid_endpoint
  validate_each [] = ok []
  validate_each ((reference, endpoint) ∷ rest) = do
    fail_if (not (valid_token reference max_destination_ref_length)) invalid_options
    parsed ← or_error (parse_url endpoint) invalid_options
    fail_if (not (valid_endpoint parsed)) invalid_options
    validated ← validate_each rest
    ok ((reference, parsed.text) ∷ validated)

  unfoldable pub validated_destinations : List (String × String) → Result (List (String × String))
  unfolding validate_each
  validated_destinations destinations = do
    fail_if (leb (length destinations) 0 || ltb queue_items_limit (length destinations))
        invalid_options
    validate_each destinations

  -- New: the dispatcher's copy of the options.
  unfoldable pub new_dispatcher : DispatcherOptions → Result DispatcherOptions
  unfolding valid_options validated_destinations
  new_dispatcher o = do
    fail_if (not (valid_options o)) invalid_options
    validated ← validated_destinations o.destinations
    ok (record o { destinations = validated })

unfoldable pub find_destination : List (String × String) → String → Option String
find_destination [] reference = none
find_destination ((other, endpoint) ∷ rest) reference =
    if other == reference then some endpoint else find_destination rest reference

abbrev pub is_some {ℓ} : {A : Type ℓ} → Option A → Bool
is_some none = false
is_some (some a) = true

unfoldable pub validate_enqueue_request :
    EnqueueRequest → List (String × String) → Result (Unit {0})
unfolding valid_token find_destination
validate_enqueue_request request destinations = do
  fail_if
      ((not (eq_delivery_payload_type request.payload_type delivery_payload_lifecycle_event)
          && not (eq_delivery_payload_type request.payload_type delivery_payload_incident_report))
        || not (valid_token request.payload_ref max_payload_ref_length)
        || not (valid_token request.destination_ref max_destination_ref_length)
        || is_zero request.expires_at)
      invalid_request
  fail_if (not (is_some (find_destination destinations request.destination_ref))) invalid_request

-- backoff * 2 on an int64, which wraps.
unfoldable pub double : Duration → Duration
double (pos n) = if leb (2 * n) max_int64 then pos (2 * n) else negsuc (2 ^ 64 - 2 * n - 1)
double (negsuc n) =
    if leb (2 * n + 1) max_int64 then negsuc (2 * n + 1) else pos (2 ^ 64 - 2 * n - 2)

abbrev pub negated : ℕ → Duration
negated zero = pos 0
negated (suc n) = negsuc n

-- A duration / 2, which Go rounds towards zero.
unfoldable pub half : Duration → Duration
half (pos n) = pos (n / 2)
half (negsuc n) = negated (suc n / 2)

abbrev pub min_duration : Duration → Duration → Duration
min_duration a b = if ltb_ℤ b a then b else a

-- The loop of backoff, on the rounds that its counter allows.
unfoldable pub backoff_loop : ℕ → Duration → Duration → Duration
unfolding double half
backoff_loop zero backoff limit = min_duration backoff limit
backoff_loop (suc rounds) backoff limit =
    let next = backoff_loop rounds (double backoff) limit in
    if not (ltb_ℤ backoff limit)
    then min_duration backoff limit
    else if ltb_ℤ (half limit) backoff
    then limit
    else next

unfoldable pub backoff : DispatcherOptions → ℤ → Duration
unfolding backoff_loop
backoff o attempt =
    if ltb_ℤ attempt (pos 1)
    then o.initial_backoff
    else backoff_loop (pos_part attempt - 1) o.initial_backoff o.max_backoff
