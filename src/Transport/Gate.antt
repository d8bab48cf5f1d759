-- ===== src/Transport/Gate.antt =====
-- src/transport/iroh_transport.rs: what the transport asks before it takes a body or a mutation:
-- preflight_upload, preflight_mutation, check_rate_limit and the budget of bytes.
use blossom_rs.Prelude.{
  ℕ, ◌^◌, Bool, true, false, Option, none, some, ◌==◌, nat_key, list_key, pair_key, not, ◌&&◌, ltb,
  leb, if◌then◌else◌, Text, bytes_of,
}
use blossom_rs.Access.{upload, lock, Role, admin, member, denied}
use blossom_rs.Db.{DbError, Result, is_upload_owner, check_quota}
use blossom_rs.Locks.{MemoryLockDatabase, LockRecord, LockError, LockResult, get_lock}
use blossom_rs.RateLimit.{RateLimiter, check}
use blossom_rs.Server.{State, owned}
use blossom_rs.Server.Upload.{Config, limited}
use blossom_rs.Transport.{Op, Request, Status}
use blossom_rs.Transport.Binding.{BindingError, VerifiedAuth}
use blossom_rs.Transport.Replay.{ReplayCache}

-- The texts of the errors, as they display.
pub record Texts : Type 0 where
  pub of_binding : BindingError → Text
  pub of_db : DbError → Text
  pub of_lock : LockError → Text

-- `SharedState`, with the transport's replay cache.
pub record SharedState (F : Type 0) : Type 0 where
  pub stored : State
  pub lock_db : Option MemoryLockDatabase
  pub rate_limiter : Option (RateLimiter F)
  pub seen : ReplayCache

-- `Result<(), GateError>`.
pub data GateResult : Type 0 where
  passes : GateResult
  gate_error : Status → Text → GateResult

-- `try_reserve`: `free` is what the semaphore has left.
pub data Reservation : Type 0 where
  reserved : Reservation
  refused : Text → Reservation

unfoldable pub try_reserve : ℕ → ℕ → ℕ → Reservation
try_reserve max_bytes free bytes =
    if leb (2 ^ 32) bytes
    then refused (bytes_of "upload exceeds aggregate byte budget")
    else if ltb max_bytes bytes
    then refused (bytes_of "upload exceeds aggregate byte budget")
    else if ltb free bytes
    then refused (bytes_of "iroh upload byte budget is exhausted")
    else reserved

abbrev pub quota_gate : (DbError → Text) → Result (Unit {0}) → GateResult
quota_gate show (Result.ok u) = passes
quota_gate show (Result.err e) = gate_error Status.forbidden (show e)

abbrev pub principal_of : Option VerifiedAuth → Text
principal_of none = bytes_of "anonymous"
principal_of (some auth) = auth.pubkey

abbrev pub is_none : Option VerifiedAuth → Bool
is_none none = true
is_none (some auth) = false

abbrev pub is_admin : Role → Bool
is_admin admin = true
is_admin member = false
is_admin denied = false

abbrev pub may_delete : Role → Bool → Bool
may_delete denied owns = false
may_delete admin owns = true
may_delete member owns = owns

module _ {F : Type 0} (tokens_for : ℕ → F → ℕ) where
  abbrev pub rate_gate : SharedState F → Option (RateLimiter F) × Bool → SharedState F × GateResult
  rate_gate s (limiter, true) = (record s { rate_limiter = limiter }, passes)
  rate_gate s (limiter, false) = (
    record s { rate_limiter = limiter },
    gate_error Status.error (bytes_of "rate limit exceeded"),
  )

  unfoldable pub check_rate_limit : SharedState F → Text → ℕ → ℕ → SharedState F × GateResult
  unfolding check
  check_rate_limit s principal now_ms cleanup_ms =
      rate_gate s (limited tokens_for s.rate_limiter principal now_ms cleanup_ms)

  abbrev pub then_rate : SharedState F → Text → ℕ → ℕ → GateResult → SharedState F × GateResult
  then_rate s principal now_ms cleanup_ms (gate_error status message) =
      (s, gate_error status message)
  then_rate s principal now_ms cleanup_ms passes = check_rate_limit s principal now_ms cleanup_ms

  module _ (texts : Texts) (config : Config) (role : Text → Role) where
    -- The checks of `preflight_upload` before the rate limit.
    unfoldable pub upload_gate : State → Request → Option VerifiedAuth → GateResult
    unfolding is_upload_owner check_quota
    upload_gate s req auth =
        let principal = principal_of auth in
        if config.requirements.require_auth && is_none auth
        then gate_error Status.unauthorized (bytes_of "auth required for upload")
        else if not (config.is_allowed principal upload)
        then gate_error Status.forbidden (bytes_of "upload not allowed for this pubkey")
        else quota_gate texts.of_db (
            check_quota s.database principal
              (if owned (is_upload_owner s.database req.sha256 principal) then 0 else req.body_len))

    unfoldable pub preflight_upload :
        SharedState F → Request → Option VerifiedAuth → ℕ → ℕ → SharedState F × GateResult
    unfolding upload_gate check_rate_limit
    preflight_upload s req auth now_ms cleanup_ms =
        then_rate s (principal_of auth) now_ms cleanup_ms (upload_gate s.stored req auth)

    abbrev pub mutation_allowed : Op → State → Request → VerifiedAuth → Bool
    mutation_allowed Op.delete s req auth =
        may_delete (role auth.pubkey) (owned (is_upload_owner s.database req.sha256 auth.pubkey))
    mutation_allowed Op.lock_create s req auth = config.is_allowed auth.pubkey lock
    mutation_allowed Op.lock_delete s req auth = config.is_allowed auth.pubkey lock
    mutation_allowed Op.lock_verify s req auth = config.is_allowed auth.pubkey lock
    mutation_allowed Op.get s req auth = true
    mutation_allowed Op.head s req auth = true
    mutation_allowed Op.upload s req auth = true
    mutation_allowed Op.list s req auth = true
    mutation_allowed Op.lock_list s req auth = true

    abbrev pub owner_gate : LockResult LockRecord → VerifiedAuth → GateResult
    owner_gate (LockResult.err e) auth = passes
    owner_gate (LockResult.ok found) auth =
        if not (found.pubkey == auth.pubkey) && not (is_admin (role auth.pubkey))
        then gate_error Status.forbidden (bytes_of "only the lock owner or an admin can unlock")
        else passes

    abbrev pub unlock_gate : Op → Option MemoryLockDatabase → Request → VerifiedAuth → GateResult
    unlock_gate Op.lock_delete none req auth = passes
    unlock_gate Op.lock_delete (some db) req auth =
        owner_gate (get_lock db req.repo_id req.lock_id) auth
    unlock_gate Op.get db req auth = passes
    unlock_gate Op.head db req auth = passes
    unlock_gate Op.upload db req auth = passes
    unlock_gate Op.delete db req auth = passes
    unlock_gate Op.list db req auth = passes
    unlock_gate Op.lock_create db req auth = passes
    unlock_gate Op.lock_list db req auth = passes
    unlock_gate Op.lock_verify db req auth = passes

    unfoldable pub mutation_gate : SharedState F → Request → VerifiedAuth → GateResult
    unfolding get_lock is_upload_owner
    mutation_gate s req auth =
        if mutation_allowed req.op s.stored req auth
        then unlock_gate req.op s.lock_db req auth
        else gate_error Status.forbidden (bytes_of "operation not allowed for this pubkey")

    unfoldable pub preflight_mutation :
        SharedState F → Request → VerifiedAuth → ℕ → ℕ → SharedState F × GateResult
    unfolding mutation_gate check_rate_limit
    preflight_mutation s req auth now_ms cleanup_ms =
        then_rate s auth.pubkey now_ms cleanup_ms (mutation_gate s req auth)
