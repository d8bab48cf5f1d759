-- ===== src/Transport/Binding/Verified.antt =====
-- What an event that verify_auth of src/transport/iroh_transport.rs takes says.
use blossom_rs.Prelude.{
  ℕ, ◌≡◌, refl, ap, ◌∙◌, Bool, true, false, Option, none, some, List, [], ◌∷◌, ◌==◌, nat_key,
  list_key, list_same_iff, keep, arith, Text, bytes_of, Bool-cases, Option-cases, inl, inr, subst,
}
use blossom_rs.Auth.{
  NostrEvent, AuthResult, accepted, rejected, Crypto, is_named, named, verify_blossom_auth,
}
use blossom_rs.Auth.Bound.{OnlyTag}
use blossom_rs.Auth.Request.{Current, verify_blossom_auth-accepted}
use blossom_rs.Base64.{base64url_decode, Decoded}
use blossom_rs.Transport.{Op, Request}
use blossom_rs.Transport.Binding.{
  Bindings, BindingError, BindingResult, bound, unbound, ◌then_check◌, bound_if, of_auth, is_only,
  is_x_pair, action_of, VerifiedAuth, verified, without_scheme, request_auth_binding, bound_to,
  lfs_bound, verify_event, verification, verify_read, verify_decoded, verify_auth, not_blossom,
  other_server, other_request, parse_lfs_from_request,
}
use blossom_rs.Transport.Binding.Context.{Agree, then_check-bound, verify_lfs_auth_binding-agrees}
use blossom_rs.Lfs.{from_event}

keep_head :
    (p : List Text → Bool) (tags rest : List (List Text)) (t : List Text)
    → keep p tags ≡ t ∷ rest
    → p t ≡ true
keep_head p [] rest t h = cc
keep_head p (u ∷ tags) rest t h = elim (Bool-cases (p u)) [
  | inl hit ↦ ground (arith, hit, h)
  | inr miss ↦ keep_head p tags rest t (ground (arith, miss, h))
]

is_only-rows :
    (rows : List (List Text)) (v : Text)
    → is_only rows v ≡ true
    → (n : Text) × (rows ≡ (n ∷ v ∷ []) ∷ [])
is_only-rows [] v h = cc
is_only-rows ([] ∷ []) v h = cc
is_only-rows ((n ∷ []) ∷ []) v h = cc
is_only-rows ((n ∷ w ∷ []) ∷ []) v h = (n, ground (arith, list_same_iff w v, h))
is_only-rows ((n ∷ w ∷ x ∷ ws) ∷ []) v h = cc
is_only-rows (t ∷ u ∷ ts) v h = cc

-- One tag of the event is a pair named `x`, and it has this value.
abbrev pub OnlyX : NostrEvent → Text → Type 0
OnlyX event v = keep is_x_pair event.tags ≡ (bytes_of "x" ∷ v ∷ []) ∷ []

-- The event names the receiver and the request.
abbrev pub NamesRequest : NostrEvent → Text → Option Text → Type 0
NamesRequest event receiver none = Unit
NamesRequest event receiver (some binding) =
    OnlyTag event (bytes_of "server") receiver × OnlyX event binding

abbrev pub NamesContext : Op → NostrEvent → Request → Type 0
NamesContext Op.upload event req = Agree event.tags (parse_lfs_from_request req) (from_event event)
NamesContext Op.get event req = Unit
NamesContext Op.head event req = Unit
NamesContext Op.delete event req = Unit
NamesContext Op.list event req = Unit
NamesContext Op.lock_create event req = Unit
NamesContext Op.lock_delete event req = Unit
NamesContext Op.lock_list event req = Unit
NamesContext Op.lock_verify event req = Unit

bound_if-bound : (b : Bool) (e : BindingError) → bound_if b e ≡ bound → b ≡ true
bound_if-bound true e h = refl
bound_if-bound false e h = cc

only-server :
    (event : NostrEvent) (receiver : Text)
    → is_only (named (bytes_of "server") event.tags) receiver ≡ true
    → OnlyTag event (bytes_of "server") receiver
only-server event receiver h =
    let (n, rows) = is_only-rows (named (bytes_of "server") event.tags) receiver h in
    let named_so =
      keep_head (is_named (bytes_of "server")) event.tags [] (n ∷ receiver ∷ []) rows in
    rows ∙ ap (λ m. (m ∷ receiver ∷ []) ∷ []) ((list_same_iff n (bytes_of "server")).0 named_so)

only-x :
    (event : NostrEvent) (v : Text) → is_only (keep is_x_pair event.tags) v ≡ true → OnlyX event v
only-x event v h =
    let (n, rows) = is_only-rows (keep is_x_pair event.tags) v h in
    let named_so = keep_head is_x_pair event.tags [] (n ∷ v ∷ []) rows in
    rows ∙ ap (λ m. (m ∷ v ∷ []) ∷ []) ((list_same_iff n (bytes_of "x")).0 named_so)

of_auth-bound : (r : AuthResult) → of_auth r ≡ bound → r ≡ accepted
of_auth-bound accepted h = refl
of_auth-bound (rejected e) h = cc

module _ (b : Bindings) where
  bound_to-names :
      (event : NostrEvent) (receiver : Text) (binding : Option Text)
      → bound_to b event receiver binding ≡ bound
      → NamesRequest event receiver binding
  bound_to-names event receiver none h = tt
  bound_to-names event receiver (some v) h =
      let s = is_only (named (bytes_of "server") event.tags) receiver in
      let x = is_only (keep is_x_pair event.tags) v in
      let (hs, hx) = then_check-bound (bound_if s other_server) (bound_if x other_request) h in
      (
        only-server event receiver (bound_if-bound s other_server hs),
        only-x event v (bound_if-bound x other_request hx),
      )

  lfs_bound-names :
      (op : Op) (event : NostrEvent) (req : Request)
      → lfs_bound b op event req ≡ bound
      → NamesContext op event req
  lfs_bound-names Op.upload event req h = verify_lfs_auth_binding-agrees event req h
  lfs_bound-names Op.get event req h = tt
  lfs_bound-names Op.head event req h = tt
  lfs_bound-names Op.delete event req h = tt
  lfs_bound-names Op.list event req h = tt
  lfs_bound-names Op.lock_create event req h = tt
  lfs_bound-names Op.lock_delete event req h = tt
  lfs_bound-names Op.lock_list event req h = tt
  lfs_bound-names Op.lock_verify event req h = tt

  module _ (crypto : Crypto) where
    -- The event is current for the operation, names the receiver and the request where the operation
    -- changes state, and the LFS context of an upload.
    abbrev pub IsBound : NostrEvent → Request → Text → ℕ → Type 0
    IsBound event req receiver now =
        Current crypto event (action_of req.op) now
        × (NamesRequest event receiver (request_auth_binding b req) × NamesContext req.op event req)

    verify_event-bound :
        (event : NostrEvent) (req : Request) (receiver : Text) (now : ℕ)
        → verify_event b crypto event req receiver now ≡ bound
        → IsBound event req receiver now
    unfolding verify_event
    verify_event-bound event req receiver now h =
        let auth = verify_blossom_auth crypto event (some (action_of req.op)) now in
        let binding = bound_to b event receiver (request_auth_binding b req) in
        let lfs = lfs_bound b req.op event req in
        let (h₀, h₁) =
          then_check-bound (bound_if (event.kind == 24242) not_blossom)
            (of_auth auth then_check binding then_check lfs) h in
        let (h₂, h₃) = then_check-bound (of_auth auth) (binding then_check lfs) h₁ in
        let (h₄, h₅) = then_check-bound binding lfs h₃ in
        (
          (verify_blossom_auth-accepted crypto event (action_of req.op) now).0
              (of_auth-bound auth h₂),
          (
            bound_to-names event receiver (request_auth_binding b req) h₄,
            lfs_bound-names req.op event req h₅,
          ),
        )

    verification-bound :
        (event : NostrEvent) (r : BindingResult) (a : VerifiedAuth)
        → verification b crypto event r ≡ verified a
        → (r ≡ bound) × (a.pubkey ≡ event.pubkey) × (a.event_id ≡ event.id)
    verification-bound event bound a h = (refl, ground (arith, h), ground (arith, h))
    verification-bound event (unbound e) a h = cc

    -- The header holds the event.
    abbrev pub Holds : Text → NostrEvent → Type 0
    Holds header event =
        (json : Text) × (base64url_decode (without_scheme header) ≡ Decoded.ok json)
        × (b.event_from_slice json ≡ some event)

    -- The event that is read from the header is the one that was verified, and it is bound.
    abbrev pub Verifies : Text → Request → Text → ℕ → VerifiedAuth → Type 0
    Verifies header req receiver now a =
        (event : NostrEvent) × Holds header event
        × (a.pubkey ≡ event.pubkey)
        × (a.event_id ≡ event.id)
        × IsBound event req receiver now

    verify_decoded-bound :
        (header : Text) (req : Request) (receiver : Text) (now : ℕ) (a : VerifiedAuth) (d : Decoded)
        → base64url_decode (without_scheme header) ≡ d
        → verify_decoded b crypto d req receiver now ≡ verified a
        → Verifies header req receiver now a
    verify_decoded-bound header req receiver now a (Decoded.err e) at h = cc
    verify_decoded-bound header req receiver now a (Decoded.ok json) at h =
        elim (Option-cases (b.event_from_slice json)) [
          | inl e ↦ absurd (ground (arith, e, h))
          | inr (event, e) ↦
              let r = verify_event b crypto event req receiver now in
              let (taken, key, id) =
                verification-bound event r a
                  (subst (λ o. verify_read b crypto o req receiver now ≡ verified a) e h) in
              (event, (json, at, e), key, id, verify_event-bound event req receiver now taken)
        ]

    -- A header that is taken for a request holds an event of the key and the id that are used for it,
    -- current for the operation, and signed; where the operation changes state, the one `server` tag
    -- of the event is the receiver, and its one `x` pair the hash of the blob or of the lock request;
    -- and the LFS context of an upload agrees with the one that is read from the event, but that the
    -- request says it is a manifest exactly where the event has the tag `manifest` with nothing after
    -- it, and the event also where further values follow.
    pub verify_auth-verified :
        (header : Text) (req : Request) (receiver : Text) (now : ℕ) (a : VerifiedAuth)
        → verify_auth b crypto header req receiver now ≡ verified a
        → Verifies header req receiver now a
    unfolding verify_auth
    verify_auth-verified header req receiver now a h =
        verify_decoded-bound header req receiver now a (base64url_decode (without_scheme header))
          refl h
