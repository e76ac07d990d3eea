-- ===== src/World.antt =====
-- What the control plane runs in: its database, and the history of its exchanges with everything
-- that it does not implement. `Env` is that outside: SQLite's answer to a transaction, the gRPC
-- and HTTP peers, clocks, random bytes, cryptography. Each answer may depend on all that happened
-- before, so a statement for every `Env` holds whatever the outside does.
use ez_open_pn.Prelude.{ℕ, Bool, Option, List, Bytes, Text}
use ez_open_pn.Models.{Database}

-- grpc.StatusCode.
pub data StatusCode : Type 0 where
  cancelled unknown invalid_argument deadline_exceeded not_found already_exists : StatusCode
  permission_denied resource_exhausted failed_precondition aborted out_of_range : StatusCode
  unimplemented internal unavailable data_loss unauthenticated : StatusCode

-- The messages of the Xray handler service, with the tag of the inbound: the client's e-mail, its
-- identifier and its flow; the timeout of a call in microseconds.
pub data RpcRequest : Type 0 where
  add_user : Text → Text → Bytes → Text → RpcRequest
  remove_user : Text → Text → RpcRequest
  get_users : Text → RpcRequest
  get_users_count : Text → ℕ → RpcRequest

-- `response` has the e-mails of the users, which only `get_users` reads.
pub data RpcReply : Type 0 where
  response : List Text → RpcReply
  rpc_error : StatusCode → RpcReply

pub data HttpRequest : Type 0 where
  kick : List Text → HttpRequest
  restart : HttpRequest

pub data HttpReply : Type 0 where
  status : ℕ → HttpReply
  http_error : HttpReply

-- A call and its answer. `transaction` tells whether SQLite completed the unit of work.
pub data Event : Type 0 where
  rpc : RpcRequest → RpcReply → Event
  http : HttpRequest → HttpReply → Event
  transaction : Bool → Event
  sleep : ℕ → Event
  read_clock read_monotonic draw_uuid draw_nonce : Event
  draw_bytes : ℕ → Event

-- `datetime`: with a timezone, or without.
pub data Datetime : Type 0 where
  aware naive : ℕ → Datetime

-- profiles/reconcile.py `RuntimeHealthSnapshot`, the state that `RuntimeHealth` keeps.
pub record RuntimeHealthSnapshot : Type 0 where
  pub ready : Bool
  pub error_code : Option Text

pub record World : Type 0 where
  pub db : Database
  pub health : RuntimeHealthSnapshot
  -- The latest event first.
  pub history : List Event

-- PyNaCl's `Aead` and `hmac.digest(…, "sha256")`; `decrypt` answers `none` for a `CryptoError`.
pub record Crypto : Type 0 where
  pub seal : Bytes → Bytes → Bytes → Bytes → Bytes
  pub decrypt : Bytes → Bytes → Bytes → Option Bytes
  pub hmac_sha256 : Bytes → Bytes → Bytes

-- Unicode's tables: `str.isspace`, `str.isalnum`, the categories C*, `casefold`, NFKC.
pub record Unicode : Type 0 where
  pub isspace : ℕ → Bool
  pub isalnum : ℕ → Bool
  pub is_control : ℕ → Bool
  pub casefold : Text → Text
  pub nfkc : Text → Text

-- Argon2's hasher, which draws its salt; `verify` answers `none` for the exceptions that
-- security/passwords.py catches.
pub record Argon2 : Type 0 where
  pub hash : List Event → Text → Text
  pub verify : Text → Text → Option Bool
  pub check_needs_rehash : Text → Bool

-- The texts of dates and addresses: the JSON object with an ISO date that web/preauth.py writes,
-- what it reads from such a text (`none` for an exception that it catches), and the compressed form
-- of an IP address (`none` for a `ValueError`).
pub record Texts : Type 0 where
  pub dump_expiry : ℕ → Text
  pub load_expiry : Text → Option Datetime
  pub ip_address : Text → Option Text

-- The identifiers and secrets that the installer leaves in the configuration.
pub record Deployment : Type 0 where
  pub master_key : Bytes
  pub inbound_tag : Text
  -- profiles/links.py `TransportLinkConfig`; the address is held as the text that `str` gives.
  pub host : Text
  pub reality_public_key : Text
  pub reality_short_id : Text
  pub hysteria_obfs_password : Text
  pub public_port : ℕ
  pub panel_port : ℕ

pub record Env : Type 0 where
  pub unicode : Unicode
  pub deployment : Deployment
  pub crypto : Crypto
  pub argon2 : Argon2
  pub texts : Texts
  pub completes : List Event → Bool
  pub on_rpc : List Event → RpcRequest → RpcReply
  pub on_http : List Event → HttpRequest → HttpReply
  pub clock : List Event → Datetime
  pub current_timestamp : List Event → ℕ
  pub monotonic : List Event → ℕ
  pub uuid4 : List Event → Bytes
  pub token_bytes : List Event → ℕ → Bytes
  pub nonce : List Event → Bytes
