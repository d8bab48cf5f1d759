-- ===== src/Transport.antt =====
-- src/transport/wire.rs: the request and response frames of the QUIC transport.
-- Texts are lists of bytes; JSON is serde's, a parameter.
pub mod Wire
pub mod Replay
pub mod Binding
pub mod Gate
pub mod Handlers
pub mod LockHandlers
pub mod Stream
mod Tests
use blossom_rs.Prelude.{ℕ, Bool, Option, Text}

pub data Op : Type 0 where
  get : Op
  head : Op
  upload : Op
  delete : Op
  list : Op
  lock_create : Op
  lock_delete : Op
  lock_list : Op
  lock_verify : Op

pub record Request : Type 0 where
  pub op : Op
  pub sha256 : Text
  pub pubkey : Text
  pub auth : Text
  pub content_type : Text
  pub body_len : ℕ
  pub repo_id : Text
  pub lock_id : Text
  pub lock_path : Text
  pub force : Bool
  pub cursor : Text
  pub limit : ℕ
  pub lfs_path : Text
  pub lfs_repo : Text
  pub lfs_base : Text
  pub lfs_manifest : Bool

pub data Status : Type 0 where
  ok : Status
  not_found : Status
  unauthorized : Status
  forbidden : Status
  conflict : Status
  error : Status

-- `Value` stands for `serde_json::Value`.
pub record Response (Value : Type 0) : Type 0 where
  pub status : Status
  pub body_len : ℕ
  pub content_type : Text
  pub error : Text
  pub descriptor : Option Value
