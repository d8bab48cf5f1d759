-- ===== src/Transport/Stream/Guarded.antt =====
-- What a stream may change, and with which authorization.
use blossom_rs.Prelude.{
  ℕ, ◌≡◌, ◌≢◌, ◌⊎◌, refl, ap, sym, subst, Option, none, some, [], ◌==◌, nat_key, list_key,
  list_same_iff, not, ◌&&◌, ltb, arith, Text, Bool-cases, inl, inr,
}
use blossom_rs.Transport.{Op, Request}
use blossom_rs.Transport.Wire.{Decoded, max_wire_header, newline_position, read_header, decode_line}
use blossom_rs.Transport.Binding.{
  VerifiedAuth, Verification, verified, failed, request_auth_binding, verify_auth, binding_for,
}
use blossom_rs.Transport.Gate.{
  SharedState, passes, preflight_upload, preflight_mutation, upload_gate, mutation_gate,
  principal_of,
}
use blossom_rs.Server.Read.{is_valid_sha256}
use blossom_rs.Transport.Stream.{
  Incoming, Server, names_blob, max_body, upload_gated, upload_stream, bound_stream, stream_of,
  verified_stream, on_request, on_line, on_header, handle_stream, is_cut,
}
use blossom_rs.Transport.Stream.Gates.{
  SameData, Permits, Takes, IsOpen, Authorized, then_rate-Kept, then_rate-passes, allowed-Permits,
  mutation_gate-passes, dispatch-reads, mutation_gated-guarded, upload_gated-guarded,
  upload_gate-passes, upload_gate-nobody, upload_gated-nobody,
}

module _ {F : Type 0} (server : Server F) where
  mutation-guarded :
      (s : SharedState F) (req : Request) (auth : VerifiedAuth) (i : Incoming) (binding : Text)
      → binding_for server.bindings req.op req ≡ some binding
      → req.op ≢ Op.upload
      → let t = (bound_stream server s req (some auth) i (some binding)).0 in
        SameData server s t ⊎ Takes server s t req auth i
  unfolding preflight_mutation
  mutation-guarded s req auth i binding e d =
      let g = mutation_gate server.tokens_for server.texts server.config server.role s req auth in
      mutation_gated-guarded server s req auth i
        (preflight_mutation server.tokens_for server.texts server.config server.role s req auth
          i.limited_at_ms i.cleaned_at_ms)
        (then_rate-Kept server s auth.pubkey i.limited_at_ms i.cleaned_at_ms g)
        (λ h. allowed-Permits server req.op s req auth binding e d (
          mutation_gate-passes server s req auth
            (then_rate-passes server s auth.pubkey i.limited_at_ms i.cleaned_at_ms g h)))

  -- A stream of an operation that is not an upload, with an event and without.
  bound_stream-guarded :
      (s : SharedState F) (req : Request) (auth : VerifiedAuth) (i : Incoming)
      (binding : Option Text)
      → binding_for server.bindings req.op req ≡ binding
      → req.op ≢ Op.upload
      → let t = (bound_stream server s req (some auth) i binding).0 in
        SameData server s t ⊎ Takes server s t req auth i
  bound_stream-guarded s req auth i none e d =
      let same = dispatch-reads server req.op s req (some auth.pubkey) [] i e in
      inl (ap (λ t. t.stored) same, ap (λ t. t.lock_db) same)
  bound_stream-guarded s req auth i (some binding) e d = mutation-guarded s req auth i binding e d

  bound_stream-nobody :
      (s : SharedState F) (req : Request) (i : Incoming) (binding : Option Text)
      → binding_for server.bindings req.op req ≡ binding
      → SameData server s (bound_stream server s req none i binding).0
  bound_stream-nobody s req i none e =
      let same = dispatch-reads server req.op s req none [] i e in
      (ap (λ t. t.stored) same, ap (λ t. t.lock_db) same)
  bound_stream-nobody s req i (some binding) e = (refl, refl)

  upload-guarded :
      (s : SharedState F) (req : Request) (auth : VerifiedAuth) (rest : Text) (i : Incoming)
      → req.op ≡ Op.upload
      → let t = (upload_stream server s req (some auth) rest i).0 in
        SameData server s t ⊎ Takes server s t req auth i
  unfolding upload_stream preflight_upload
  upload-guarded s req auth rest i op =
      let g =
        upload_gate server.tokens_for server.texts server.config server.role s.stored req
          (some auth) in
      let gated =
        upload_gated-guarded server s req auth rest i
          (preflight_upload server.tokens_for server.texts server.config server.role s req
            (some auth) i.limited_at_ms i.cleaned_at_ms)
          (then_rate-Kept server s auth.pubkey i.limited_at_ms i.cleaned_at_ms g)
          (λ h.
            subst (λ o. Permits server o s req auth.pubkey) (sym op)
              (upload_gate-passes server s req (some auth)
                (then_rate-passes server s auth.pubkey i.limited_at_ms i.cleaned_at_ms g h))) in
      elim (Bool-cases (req.body_len == 0)) [
        | inl empty ↦ rw (empty, upload_stream) (inl (refl, refl))
        | inr full ↦
            elim (Bool-cases (ltb (max_body server.config.requirements.max_size) req.body_len)) [
              | inl big ↦ rw (full, big, upload_stream) (inl (refl, refl))
              | inr fits ↦ rw (full, fits, upload_stream) gated
            ]
      ]

  upload-nobody :
      (s : SharedState F) (req : Request) (rest : Text) (i : Incoming)
      → req.op ≡ Op.upload
      → req.auth ≡ []
      → SameData server s (upload_stream server s req none rest i).0 ⊎ IsOpen server req
  unfolding upload_stream preflight_upload
  upload-nobody s req rest i op empty_auth =
      let g =
        upload_gate server.tokens_for server.texts server.config server.role s.stored req none in
      let p =
        preflight_upload server.tokens_for server.texts server.config server.role s req none
          i.limited_at_ms i.cleaned_at_ms in
      let who = principal_of none in
      let gated : SameData server s (upload_gated server req none rest i p).0 ⊎ IsOpen server req =
        elim (upload_gated-nobody server s req rest i p
          (then_rate-Kept server s who i.limited_at_ms i.cleaned_at_ms g)) [
            | inl same ↦ inl same
            | inr h ↦
                let ok : g ≡ passes =
                  then_rate-passes server s who i.limited_at_ms i.cleaned_at_ms g h in
                inr (
                  op,
                  empty_auth,
                  upload_gate-nobody server s req ok,
                  upload_gate-passes server s req none ok,
                )
          ] in
      elim (Bool-cases (req.body_len == 0)) [
        | inl empty ↦ rw (empty, upload_stream) (inl (refl, refl))
        | inr full ↦
            elim (Bool-cases (ltb (max_body server.config.requirements.max_size) req.body_len)) [
              | inl big ↦ rw (full, big, upload_stream) (inl (refl, refl))
              | inr fits ↦ rw (full, fits, upload_stream) gated
            ]
      ]

  stream_of-guarded :
      (op : Op) (s : SharedState F) (req : Request) (auth : VerifiedAuth) (rest : Text)
      (i : Incoming)
      → req.op ≡ op
      → let t = (stream_of server op s req (some auth) rest i).0 in
        SameData server s t ⊎ Takes server s t req auth i
  unfolding request_auth_binding
  stream_of-guarded Op.upload s req auth rest i e = upload-guarded s req auth rest i e
  stream_of-guarded Op.get s req auth rest i e =
      bound_stream-guarded s req auth i (binding_for server.bindings req.op req) refl
        (ground (arith, e))
  stream_of-guarded Op.head s req auth rest i e =
      bound_stream-guarded s req auth i (binding_for server.bindings req.op req) refl
        (ground (arith, e))
  stream_of-guarded Op.delete s req auth rest i e =
      bound_stream-guarded s req auth i (binding_for server.bindings req.op req) refl
        (ground (arith, e))
  stream_of-guarded Op.list s req auth rest i e =
      bound_stream-guarded s req auth i (binding_for server.bindings req.op req) refl
        (ground (arith, e))
  stream_of-guarded Op.lock_create s req auth rest i e =
      bound_stream-guarded s req auth i (binding_for server.bindings req.op req) refl
        (ground (arith, e))
  stream_of-guarded Op.lock_delete s req auth rest i e =
      bound_stream-guarded s req auth i (binding_for server.bindings req.op req) refl
        (ground (arith, e))
  stream_of-guarded Op.lock_list s req auth rest i e =
      bound_stream-guarded s req auth i (binding_for server.bindings req.op req) refl
        (ground (arith, e))
  stream_of-guarded Op.lock_verify s req auth rest i e =
      bound_stream-guarded s req auth i (binding_for server.bindings req.op req) refl
        (ground (arith, e))

  stream_of-nobody :
      (op : Op) (s : SharedState F) (req : Request) (rest : Text) (i : Incoming)
      → req.op ≡ op
      → req.auth ≡ []
      → SameData server s (stream_of server op s req none rest i).0 ⊎ IsOpen server req
  unfolding request_auth_binding
  stream_of-nobody Op.upload s req rest i e h = upload-nobody s req rest i e h
  stream_of-nobody Op.get s req rest i e h =
      inl (bound_stream-nobody s req i (binding_for server.bindings req.op req) refl)
  stream_of-nobody Op.head s req rest i e h =
      inl (bound_stream-nobody s req i (binding_for server.bindings req.op req) refl)
  stream_of-nobody Op.delete s req rest i e h =
      inl (bound_stream-nobody s req i (binding_for server.bindings req.op req) refl)
  stream_of-nobody Op.list s req rest i e h =
      inl (bound_stream-nobody s req i (binding_for server.bindings req.op req) refl)
  stream_of-nobody Op.lock_create s req rest i e h =
      inl (bound_stream-nobody s req i (binding_for server.bindings req.op req) refl)
  stream_of-nobody Op.lock_delete s req rest i e h =
      inl (bound_stream-nobody s req i (binding_for server.bindings req.op req) refl)
  stream_of-nobody Op.lock_list s req rest i e h =
      inl (bound_stream-nobody s req i (binding_for server.bindings req.op req) refl)
  stream_of-nobody Op.lock_verify s req rest i e h =
      inl (bound_stream-nobody s req i (binding_for server.bindings req.op req) refl)

  verified_stream-guarded :
      (s : SharedState F) (req : Request) (rest : Text) (i : Incoming) (v : Verification)
      → verify_auth server.bindings server.crypto req.auth req server.receiver i.checked_at ≡ v
      → let t = (verified_stream server s req rest i v).0 in
        SameData server s t ⊎ Authorized server s t req i
  verified_stream-guarded s req rest i (failed e) h = inl (refl, refl)
  verified_stream-guarded s req rest i (verified auth) h =
      elim (stream_of-guarded req.op s req auth rest i refl) [
        | inl same ↦ inl same
        | inr takes ↦ inr (inr (auth, h, takes))
      ]

  on_request-guarded :
      (s : SharedState F) (req : Request) (rest : Text) (i : Incoming)
      → let t = (on_request server s req rest i).0 in
        SameData server s t ⊎ Authorized server s t req i
  unfolding on_request
  on_request-guarded s req rest i =
      let v = verify_auth server.bindings server.crypto req.auth req server.receiver i.checked_at in
      elim (Bool-cases (names_blob req.op && not (is_valid_sha256 req.sha256))) [
        | inl bad ↦ rw (bad, on_request) (inl (refl, refl))
        | inr good ↦ elim (Bool-cases (req.auth == [])) [
          | inl nobody ↦
              rw (good, nobody, on_request)
                (elim (stream_of-nobody req.op s req rest i refl
                  ((list_same_iff req.auth []).0 nobody)) [
                    | inl same ↦ inl same
                    | inr unasked ↦ inr (inl unasked)
                  ])
          | inr somebody ↦
              rw (good, somebody, on_request) (verified_stream-guarded s req rest i v refl)
        ]
      ]

  -- The header of the stream is read and holds the request.
  abbrev pub Carries : Incoming → Request → Type 0
  Carries i req =
      (header : Text) × (rest : Text) × (consumed : ℕ) × (read_header max_wire_header i.bytes
        ≡ some (header, rest))
      × (decode_line server.requests header ≡ Decoded.ok (req, consumed))

  on_line-guarded :
      (s : SharedState F) (i : Incoming) (header rest : Text) (d : Decoded (Request × ℕ))
      → read_header max_wire_header i.bytes ≡ some (header, rest)
      → decode_line server.requests header ≡ d
      → let t = (on_line server s rest i d).0 in
        SameData server s t ⊎ ((req : Request) × Carries i req × Authorized server s t req i)
  on_line-guarded s i header rest (Decoded.err message) h e = inl (refl, refl)
  on_line-guarded s i header rest (Decoded.ok (req, consumed)) h e =
      elim (on_request-guarded s req rest i) [
        | inl same ↦ inl same
        | inr may ↦ inr (req, (header, rest, consumed, h, e), may)
      ]

  on_header-guarded :
      (s : SharedState F) (i : Incoming) (o : Option (Text × Text))
      → read_header max_wire_header i.bytes ≡ o
      → let t = (on_header server s i o).0 in
        SameData server s t ⊎ ((req : Request) × Carries i req × Authorized server s t req i)
  on_header-guarded s i none h = inl (refl, refl)
  on_header-guarded s i (some (header, rest)) h =
      elim (Bool-cases (is_cut (newline_position header) i.broken)) [
        | inl cut ↦ rw cut (inl (refl, refl))
        | inr whole ↦
            rw whole (on_line-guarded s i header rest (decode_line server.requests header) h refl)
      ]

  -- A stream leaves the blobs, the metadata, the LFS versions and the locks as they are, unless its
  -- header holds a request which either is an upload by nobody, where no event is asked for and
  -- anybody may upload, or has an event that is verified for the request and the receiver, was not
  -- used before as far as the replay cache remembers, is marked as used, and is of a key that may do what is asked for.
  pub handle_stream-guarded :
      (s : SharedState F) (i : Incoming)
      → let t = (handle_stream server s i).0 in
        SameData server s t ⊎ ((req : Request) × Carries i req × Authorized server s t req i)
  unfolding handle_stream
  handle_stream-guarded s i = on_header-guarded s i (read_header max_wire_header i.bytes) refl
