-- ===== src/Delivery/Types.antt =====
-- The records of internal/delivery/delivery.go, and the dispatcher's dependencies.
use pulse_agent.Prelude.{String, Bool, List, Option}
use pulse_agent.Prelude.Int.{ℤ}
use pulse_agent.Prelude.Result.{Error, Result}
use pulse_agent.Contract.{Time, Duration, DeliveryPayloadType, DeliveryQueueItem}
use pulse_agent.Store.{Bolt}

-- The numbers and the endpoints of Options, a map as a list of pairs.
pub record DispatcherOptions : Type 0 where
  pub destinations : List (String × String)
  pub max_queue_items : ℤ
  pub max_attempts : ℤ
  pub initial_backoff : Duration
  pub max_backoff : Duration
  pub request_timeout : Duration
  pub max_payload_bytes : ℤ

pub record EnqueueRequest : Type 0 where
  pub payload_type : DeliveryPayloadType
  pub payload_ref : String
  pub destination_ref : String
  pub expires_at : Time

pub record DeliveryResult : Type 0 where
  pub item : DeliveryQueueItem
  pub sent : Bool
  pub retrying : Bool
  pub reason_code : String

pub record StoredItem : Type 0 where
  pub key : String
  pub item : DeliveryQueueItem

-- What url.ParseRequestURI finds in an endpoint, with its String.
pub record ParsedUrl : Type 0 where
  pub scheme : String
  pub host : String
  pub has_user : Bool
  pub raw_query : String
  pub fragment : String
  pub text : String

-- The Standard Webhooks headers of one message.
pub record SignedHeaders : Type 0 where
  pub id : String
  pub timestamp : String
  pub signature : String

pub record WebhookRequest : Type 0 where
  pub endpoint : String
  pub body : String
  pub headers : SignedHeaders

-- What Client.Do and closing the body return: the status of a response that is not nil.
pub record WebhookReply : Type 0 where
  pub status : Option ℤ
  pub request_failed : Bool
  pub close_failed : Bool

-- The clock, the ID generators, the payload source, the HTTP client and the caller's context answer
-- from, and change, a state of their own. `sign` is Keyring.Sign, `json_valid` json.Valid,
-- `parse_url` url.ParseRequestURI and `request_error` what http.NewRequestWithContext finds wrong.
pub record DeliveryDeps : Type 1 where
  pub Outside : Type 0
  pub clock_now : Outside → Time × Outside
  pub new_delivery_id : Outside → Result String × Outside
  pub new_webhook_id : Outside → Result String × Outside
  pub new_audit_event_id : Outside → Result String × Outside
  pub load_payload : DeliveryPayloadType → String → Outside → Result String × Outside
  pub context_error : Outside → Option Error × Outside
  pub send : WebhookRequest → Outside → WebhookReply × Outside
  pub sign : String → Time → String → Result SignedHeaders
  pub json_valid : String → Bool
  pub parse_url : String → Option ParsedUrl
  pub request_error : String → Option Error

-- One call of Client.Do: for which item, when, and with the store as it stood.
pub record SendCall (bolt : Bolt) : Type 0 where
  pub stored : StoredItem
  pub request : WebhookRequest
  pub at : Time
  pub store : bolt.Tx

-- The store, the dependencies' state, and the calls of Client.Do so far, the last one first.
pub record Post (bolt : Bolt) (deps : DeliveryDeps) : Type 0 where
  pub db : bolt.Tx
  pub outside : deps.Outside
  pub calls : List (SendCall bolt)

-- (results, error) of DeliverDue.
pub record DueReply : Type 0 where
  pub results : List DeliveryResult
  pub error : Option Error
