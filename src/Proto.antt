-- ===== src/Proto.antt =====
-- internal/proto/codes.go and internal/proto/frames.go: the wire's codes and frames. A frame is its
-- value; the JSON text that encoding/json makes of it is not modelled.
pub mod Codec
pub mod CodecSpec
pub mod CodecFields
pub mod CodecLaws
mod Examples
use sidecartunnel.Base.{ℕ, Bool, List, Bytes}

-- `ErrCode`
module _ where
  abbrev pub err_internal : ℕ
  err_internal = 100

  abbrev pub err_bad_request : ℕ
  err_bad_request = 101

  abbrev pub err_unknown_namespace : ℕ
  err_unknown_namespace = 102

  abbrev pub err_permission_denied : ℕ
  err_permission_denied = 103

  abbrev pub err_already_subscribed : ℕ
  err_already_subscribed = 104

  abbrev pub err_not_subscribed : ℕ
  err_not_subscribed = 105

  abbrev pub err_rate_limited : ℕ
  err_rate_limited = 106

  abbrev pub err_subscription_limit : ℕ
  err_subscription_limit = 108

-- `CloseCode`
module _ where
  abbrev pub close_draining : ℕ
  close_draining = 3000

  abbrev pub close_handshake_timeout : ℕ
  close_handshake_timeout = 3001

  abbrev pub close_unauthorized : ℕ
  close_unauthorized = 3003

  abbrev pub close_ping_timeout : ℕ
  close_ping_timeout = 3004

  abbrev pub close_slow_consumer : ℕ
  close_slow_consumer = 3005

  abbrev pub close_protocol_error : ℕ
  close_protocol_error = 3006

  abbrev pub close_rate_limited : ℕ
  close_rate_limited = 3007

  abbrev pub close_auth_unavailable : ℕ
  close_auth_unavailable = 3008

  abbrev pub close_revoked : ℕ
  close_revoked = 3501

  abbrev pub close_expired : ℕ
  close_expired = 3503

pub record ConnectReply : Type 0 where
  pub client : Bytes
  pub ping : ℕ
  pub expires_in : ℕ
  pub subs : List Bytes

-- The one body that a reply carries.
pub data ReplyBody : Type 0 where
  connect_reply : ConnectReply → ReplyBody
  subscribe_reply unsubscribe_reply publish_reply : ReplyBody
  sync_reply : List Bytes → ReplyBody
  pong : ReplyBody
  error_reply : ℕ → Bytes → ReplyBody

-- `id` is 0 where the JSON omits it.
pub record Reply : Type 0 where
  pub id : ℕ
  pub body : ReplyBody

pub record Pub : Type 0 where
  pub event : Bytes
  pub payload : Bytes
  pub from : Bytes

pub data PushBody : Type 0 where
  published : Pub → PushBody
  unsubscribed : Bytes → PushBody

pub record Push : Type 0 where
  pub channel : Bytes
  pub body : PushBody

pub record Disconnect : Type 0 where
  pub code : ℕ
  pub reason : Bytes
  pub reconnect : Bool
  pub retry_after : ℕ

pub data Frame : Type 0 where
  reply : Reply → Frame
  push : Push → Frame
  disconnect : Disconnect → Frame

-- `Command`: exactly one of the keys, with the correlation id, 0 where it is absent.
pub data Request : Type 0 where
  connect : List Bytes → Request
  subscribe unsubscribe : Bytes → Request
  publish : Bytes → Bytes → Bytes → Request
  sync ping : Request

pub record Command : Type 0 where
  pub id : ℕ
  pub request : Request
