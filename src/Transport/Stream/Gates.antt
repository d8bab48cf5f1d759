-- ===== src/Transport/Stream/Gates.antt =====
-- What the checks of a stream keep, and what a stream that passes them has shown.
use blossom_rs.Prelude.{
  ℕ, ◌≡◌, ◌≢◌, ◌⊎◌, refl, ap, sym, ◌∙◌, Bool, true, false, Option, none, some, [], nat_key,
  list_key, ltb, length, take, arith, Text, bytes_of, Bool-cases, inl, inr,
}
use blossom_rs.Access.{Role, admin, member, denied, upload, lock}
use blossom_rs.Db.{is_upload_owner}
use blossom_rs.RateLimit.{RateLimiter}
use blossom_rs.Server.{owned}
use blossom_rs.Server.Upload.{limited}
use blossom_rs.Transport.{Op, Request}
use blossom_rs.Transport.Replay.{ReplayCache, commit}
use blossom_rs.Transport.Binding.{VerifiedAuth, verified, verify_auth, binding_for}
use blossom_rs.Transport.Gate.{
  SharedState, GateResult, passes, gate_error, Reservation, reserved, refused, try_reserve,
  upload_gate, mutation_gate, mutation_allowed, may_delete, then_rate, rate_gate, check_rate_limit,
  principal_of,
}
use blossom_rs.Transport.Stream.{
  Incoming, Server, dispatch, read_body, after_commit, upload_reserved, upload_gated,
  mutation_committed, mutation_gated, max_in_flight_iroh_body_bytes, key_of,
}

module _ {F : Type 0} (server : Server F) where
  -- The blobs, the metadata, the LFS versions and the locks are the same.
  abbrev pub SameData : SharedState F → SharedState F → Type 0
  SameData s t = (t.stored ≡ s.stored) × (t.lock_db ≡ s.lock_db)

  -- What the key of an event is asked for, by operation.
  abbrev pub Permits : Op → SharedState F → Request → Text → Type 0
  Permits Op.upload s req pubkey = server.config.is_allowed pubkey upload ≡ true
  Permits Op.delete s req pubkey =
      (server.role pubkey ≡ admin)
      ⊎ ((server.role pubkey ≡ member)
          × (owned (is_upload_owner s.stored.database req.sha256 pubkey) ≡ true))
  Permits Op.lock_create s req pubkey = server.config.is_allowed pubkey lock ≡ true
  Permits Op.lock_delete s req pubkey = server.config.is_allowed pubkey lock ≡ true
  Permits Op.lock_verify s req pubkey = server.config.is_allowed pubkey lock ≡ true
  Permits Op.get s req pubkey = Unit
  Permits Op.head s req pubkey = Unit
  Permits Op.list s req pubkey = Unit
  Permits Op.lock_list s req pubkey = Unit

  -- The event is taken by the replay cache, and its key may do what is asked for.
  abbrev pub Takes : SharedState F → SharedState F → Request → VerifiedAuth → Incoming → Type 0
  Takes s t req auth i =
      ((commit s.seen auth.event_id auth.pubkey i.committed_at).1 ≡ true)
      × (t.seen ≡ (commit s.seen auth.event_id auth.pubkey i.committed_at).0)
      × Permits req.op s req auth.pubkey

  -- An upload by nobody, where no event is asked for.
  abbrev pub IsOpen : Request → Type 0
  IsOpen req =
      (req.op ≡ Op.upload)
      × (req.auth ≡ [])
      × (server.config.requirements.require_auth ≡ false)
      × (server.config.is_allowed (bytes_of "anonymous") upload ≡ true)

  abbrev pub Authorized : SharedState F → SharedState F → Request → Incoming → Type 0
  Authorized s t req i =
      IsOpen req
      ⊎ ((auth : VerifiedAuth) × (verify_auth server.bindings server.crypto req.auth req
              server.receiver i.checked_at
            ≡ verified auth)
          × Takes s t req auth i)

  -- The steps of the checks change the rate limiter and the replay cache alone.
  pub record Kept (s t : SharedState F) : Type 0 where
    pub data_kept : SameData s t
    pub seen_kept : t.seen ≡ s.seen

  check_rate_limit-Kept :
      (s : SharedState F) (r : Option (RateLimiter F) × Bool)
      → Kept s (rate_gate server.tokens_for s r).0
  check_rate_limit-Kept s (limiter, true) = record { data_kept = (refl, refl); seen_kept = refl }
  check_rate_limit-Kept s (limiter, false) = record { data_kept = (refl, refl); seen_kept = refl }

  pub then_rate-Kept :
      (s : SharedState F) (principal : Text) (now_ms cleanup_ms : ℕ) (g : GateResult)
      → Kept s (then_rate server.tokens_for s principal now_ms cleanup_ms g).0
  unfolding check_rate_limit
  then_rate-Kept s principal now_ms cleanup_ms (gate_error status message) = record {
    data_kept = (refl, refl);
    seen_kept = refl;
  }
  then_rate-Kept s principal now_ms cleanup_ms passes =
      check_rate_limit-Kept s (limited server.tokens_for s.rate_limiter principal now_ms cleanup_ms)

  pub then_rate-passes :
      (s : SharedState F) (principal : Text) (now_ms cleanup_ms : ℕ) (g : GateResult)
      → (then_rate server.tokens_for s principal now_ms cleanup_ms g).1 ≡ passes
      → g ≡ passes
  then_rate-passes s principal now_ms cleanup_ms (gate_error status message) h = h
  then_rate-passes s principal now_ms cleanup_ms passes h = refl

  may_delete-Permits :
      (r : Role) (owns : Bool)
      → may_delete r owns ≡ true
      → (r ≡ admin) ⊎ ((r ≡ member) × (owns ≡ true))
  may_delete-Permits admin owns h = inl refl
  may_delete-Permits member owns h = inr (refl, h)
  may_delete-Permits denied owns h = absurd (ground (arith, h))

  pub allowed-Permits :
      (op : Op) (s : SharedState F) (req : Request) (auth : VerifiedAuth) (b : Text)
      → binding_for server.bindings op req ≡ some b
      → op ≢ Op.upload
      → mutation_allowed server.tokens_for server.texts server.config server.role op s.stored req
          auth
        ≡ true
      → Permits op s req auth.pubkey
  allowed-Permits Op.delete s req auth b e d h =
      may_delete-Permits (server.role auth.pubkey)
        (owned (is_upload_owner s.stored.database req.sha256 auth.pubkey)) h
  allowed-Permits Op.lock_create s req auth b e d h = h
  allowed-Permits Op.lock_delete s req auth b e d h = h
  allowed-Permits Op.lock_verify s req auth b e d h = h
  allowed-Permits Op.upload s req auth b e d h = absurd (d refl)
  allowed-Permits Op.get s req auth b e d h = cc
  allowed-Permits Op.head s req auth b e d h = cc
  allowed-Permits Op.list s req auth b e d h = cc
  allowed-Permits Op.lock_list s req auth b e d h = cc

  pub mutation_gate-passes :
      (s : SharedState F) (req : Request) (auth : VerifiedAuth)
      → mutation_gate server.tokens_for server.texts server.config server.role s req auth ≡ passes
      → mutation_allowed server.tokens_for server.texts server.config server.role req.op s.stored
          req auth
        ≡ true
  unfolding mutation_gate
  mutation_gate-passes s req auth h =
      elim (Bool-cases (
        mutation_allowed server.tokens_for server.texts server.config server.role req.op s.stored
          req auth)) [ inl e ↦ e | inr e ↦ absurd (ground (arith, e, h)) ]

  -- Nothing but the nine operations that read leaves the state alone without an event.
  pub dispatch-reads :
      (op : Op) (s : SharedState F) (req : Request) (key : Option Text) (body : Text) (i : Incoming)
      → binding_for server.bindings op req ≡ none
      → (dispatch server op s req key body i).0 ≡ s
  unfolding dispatch
  dispatch-reads Op.get s req key body i h = refl
  dispatch-reads Op.head s req key body i h = refl
  dispatch-reads Op.list s req key body i h = refl
  dispatch-reads Op.lock_list s req key body i h = refl
  dispatch-reads Op.upload s req key body i h = cc
  dispatch-reads Op.delete s req key body i h = cc
  dispatch-reads Op.lock_create s req key body i h = cc
  dispatch-reads Op.lock_delete s req key body i h = cc
  dispatch-reads Op.lock_verify s req key body i h = cc

  dispatch-seen :
      (op : Op) (s : SharedState F) (req : Request) (key : Option Text) (body : Text) (i : Incoming)
      → (dispatch server op s req key body i).0.seen ≡ s.seen
  unfolding dispatch
  dispatch-seen Op.get s req key body i = refl
  dispatch-seen Op.head s req key body i = refl
  dispatch-seen Op.list s req key body i = refl
  dispatch-seen Op.lock_list s req key body i = refl
  dispatch-seen Op.upload s req key body i = refl
  dispatch-seen Op.delete s req key body i = refl
  dispatch-seen Op.lock_create s req key body i = refl
  dispatch-seen Op.lock_delete s req key body i = refl
  dispatch-seen Op.lock_verify s req key body i = refl

  -- What a commit decides.
  abbrev Decides : SharedState F → SharedState F → ReplayCache × Bool → Type 0
  Decides s t r = SameData s t ⊎ ((r.1 ≡ true) × (t.seen ≡ r.0))

  mutation_committed-Decides :
      (s s' : SharedState F) (req : Request) (auth : VerifiedAuth) (i : Incoming)
      (r : ReplayCache × Bool)
      → SameData s s'
      → Decides s (mutation_committed server s' req auth i r).0 r
  mutation_committed-Decides s s' req auth i (seen, false) k = inl k
  mutation_committed-Decides s s' req auth i (seen, true) k =
      inr (refl, dispatch-seen req.op (record s' { seen = seen }) req (some auth.pubkey) [] i)

  read_body-seen :
      (s : SharedState F) (req : Request) (auth : Option VerifiedAuth) (rest : Text) (i : Incoming)
      → (read_body server s req auth rest i).0.seen ≡ s.seen
  read_body-seen s req auth rest i = elim (Bool-cases (ltb (length rest) req.body_len)) [
    | inl short ↦ rw short refl
    | inr enough ↦
        rw enough (dispatch-seen Op.upload s req (key_of auth) (take req.body_len rest) i)
  ]

  after_commit-Decides :
      (s s' : SharedState F) (req : Request) (auth : VerifiedAuth) (rest : Text) (i : Incoming)
      (r : ReplayCache × Bool)
      → SameData s s'
      → Decides s (after_commit server s' req auth rest i r).0 r
  after_commit-Decides s s' req auth rest i (seen, false) k = inl k
  after_commit-Decides s s' req auth rest i (seen, true) k =
      inr (refl, read_body-seen (record s' { seen = seen }) req (some auth) rest i)

  Decides-Takes :
      (s t : SharedState F) (req : Request) (auth : VerifiedAuth) (i : Incoming)
      (seen : ReplayCache)
      → seen ≡ s.seen
      → Permits req.op s req auth.pubkey
      → Decides s t (commit seen auth.event_id auth.pubkey i.committed_at)
      → SameData s t ⊎ Takes s t req auth i
  Decides-Takes s t req auth i seen e p (inl same) = inl same
  Decides-Takes s t req auth i seen e p (inr (fresh, after)) = inr (
    ap (λ c. (commit c auth.event_id auth.pubkey i.committed_at).1) (sym e) ∙ fresh,
    after ∙ ap (λ c. (commit c auth.event_id auth.pubkey i.committed_at).0) e,
    p,
  )

  pub mutation_gated-guarded :
      (s : SharedState F) (req : Request) (auth : VerifiedAuth) (i : Incoming)
      (p : SharedState F × GateResult)
      → Kept s p.0
      → (p.1 ≡ passes → Permits req.op s req auth.pubkey)
      → let t = (mutation_gated server req auth i p).0 in SameData s t ⊎ Takes s t req auth i
  mutation_gated-guarded s req auth i (s', gate_error status message) k permits = inl k.data_kept
  mutation_gated-guarded s req auth i (s', passes) k permits =
      let r = commit s'.seen auth.event_id auth.pubkey i.committed_at in
      Decides-Takes s (mutation_committed server s' req auth i r).0 req auth i s'.seen k.seen_kept
        (permits refl) (mutation_committed-Decides s s' req auth i r k.data_kept)

  upload_reserved-guarded :
      (s s' : SharedState F) (req : Request) (auth : VerifiedAuth) (rest : Text) (i : Incoming)
      (v : Reservation)
      → Kept s s'
      → Permits req.op s req auth.pubkey
      → let t = (upload_reserved server s' req (some auth) rest i v).0 in
        SameData s t ⊎ Takes s t req auth i
  upload_reserved-guarded s s' req auth rest i (refused message) k permits = inl k.data_kept
  upload_reserved-guarded s s' req auth rest i reserved k permits =
      let r = commit s'.seen auth.event_id auth.pubkey i.committed_at in
      Decides-Takes s (after_commit server s' req auth rest i r).0 req auth i s'.seen k.seen_kept
        permits (after_commit-Decides s s' req auth rest i r k.data_kept)

  pub upload_gated-guarded :
      (s : SharedState F) (req : Request) (auth : VerifiedAuth) (rest : Text) (i : Incoming)
      (p : SharedState F × GateResult)
      → Kept s p.0
      → (p.1 ≡ passes → Permits req.op s req auth.pubkey)
      → let t = (upload_gated server req (some auth) rest i p).0 in
        SameData s t ⊎ Takes s t req auth i
  upload_gated-guarded s req auth rest i (s', gate_error status message) k permits = inl k.data_kept
  upload_gated-guarded s req auth rest i (s', passes) k permits =
      upload_reserved-guarded s s' req auth rest i
        (try_reserve max_in_flight_iroh_body_bytes i.free req.body_len) k (permits refl)

  pub upload_gate-passes :
      (s : SharedState F) (req : Request) (auth : Option VerifiedAuth)
      → upload_gate server.tokens_for server.texts server.config server.role s.stored req auth
        ≡ passes
      → server.config.is_allowed (principal_of auth) upload ≡ true
  unfolding upload_gate
  upload_gate-passes s req auth h =
      elim (Bool-cases (server.config.is_allowed (principal_of auth) upload)) [
        | inl e ↦ e
        | inr e ↦ absurd (ground (arith, e, h))
      ]

  -- Nobody's upload passes the gate where no event is asked for.
  pub upload_gate-nobody :
      (s : SharedState F) (req : Request)
      → upload_gate server.tokens_for server.texts server.config server.role s.stored req none
        ≡ passes
      → server.config.requirements.require_auth ≡ false
  unfolding upload_gate
  upload_gate-nobody s req h = ground (arith, h)

  pub upload_gated-nobody :
      (s : SharedState F) (req : Request) (rest : Text) (i : Incoming)
      (p : SharedState F × GateResult)
      → Kept s p.0
      → SameData s (upload_gated server req none rest i p).0 ⊎ (p.1 ≡ passes)
  upload_gated-nobody s req rest i (s', gate_error status message) k = inl k.data_kept
  upload_gated-nobody s req rest i (s', passes) k = inr refl
