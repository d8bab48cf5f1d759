-- ===== src/Auth/Request.antt =====
-- Which events the check takes for a request.
use blossom_rs.Prelude.{
  ℕ, ◌+◌, ◌-◌, ◌≤◌, ◌≡◌, refl, ◌↔◌, true, Option, none, some, ◌==◌, not, nat_key, list_key,
  list_same_iff, arith, ltb, Text, bytes_of,
}
use blossom_rs.Auth.{
  NostrEvent, accepted, Crypto, saturating_add, actions, compute_event_id, verify_identity,
  verify_blossom_auth, verify_blossom_auth_bound, to_ascii_uppercase, verify_hash, wrong_resource,
  wrong_kind, wrong_server, wrong_action, future_dated, expired,
}
use blossom_rs.Auth.Bound.{
  OnlyTag, Expiring, verify_unique_tag-accepted, verify_expiration-accepted, verify_action-accepted,
  and_then-accepted, require-accepted,
}

abbrev pub HashTag : NostrEvent → Option Text → Type 0
HashTag event none = Unit
HashTag event (some hash) = OnlyTag event (bytes_of "x") hash

verify_hash-accepted :
    (crypto : Crypto) (event : NostrEvent) (hash : Option Text)
    → (verify_hash crypto event hash ≡ accepted) ↔ HashTag event hash
verify_hash-accepted crypto event none = (λ h. tt, λ h. refl)
verify_hash-accepted crypto event (some hash) =
    verify_unique_tag-accepted event (bytes_of "x") hash wrong_resource

module _ (crypto : Crypto) where
  -- The digest of the event is its id and is signed.
  abbrev pub Signed : NostrEvent → Type 0
  Signed event =
      (crypto.hex_encode (compute_event_id crypto event) ≡ event.id)
      × (crypto.verify event.pubkey (compute_event_id crypto event) event.sig ≡ true)

  pub verify_identity-accepted :
      (event : NostrEvent) → (verify_identity crypto event ≡ accepted) ↔ Signed event
  unfolding verify_identity
  verify_identity-accepted event =
      ground (arith, list_same_iff (crypto.hex_encode (compute_event_id crypto event)) event.id)

  -- An event dated within a minute before and half a minute after now, unexpired, and signed.
  abbrev pub Current : NostrEvent → Text → ℕ → Type 0
  Current event action now =
      (event.kind ≡ 24242)
      × ((event.created_at ≤ saturating_add now 30)
          × ((now ≤ event.created_at + 60)
              × (Expiring event now × ((actions action event.tags ≡ 1) × Signed event))))

  pub verify_blossom_auth-accepted :
      (event : NostrEvent) (action : Text) (now : ℕ)
      → (verify_blossom_auth crypto event (some action) now ≡ accepted) ↔ Current event action now
  unfolding verify_blossom_auth
  verify_blossom_auth-accepted event action now =
      and_then-accepted _ _
        (require-accepted (event.kind == 24242) (wrong_kind event.kind) (ground arith))
        (and_then-accepted _ _
          (require-accepted (not (ltb (saturating_add now 30) event.created_at)) future_dated
            (ground arith))
          (and_then-accepted _ _
            (require-accepted (not (ltb 60 (now - event.created_at))) expired (ground arith))
            (and_then-accepted _ _ (verify_expiration-accepted event now) (
              and_then-accepted _ _ (verify_action-accepted event action)
                (verify_identity-accepted event)))))

  -- The check takes an event for a request exactly if the event is current for the action, names the
  -- server, the URL and the method once each, names the hash once if one is asked for, and its id and
  -- signature are good.
  pub verify_blossom_auth_bound-accepted :
      (event : NostrEvent) (action server url method : Text) (hash : Option Text) (now : ℕ)
      → (verify_blossom_auth_bound crypto event action server url method hash now ≡ accepted) ↔ (
          Current event action now
          × (OnlyTag event (bytes_of "server") server
              × (OnlyTag event (bytes_of "u") url
                  × (OnlyTag event (bytes_of "method") (to_ascii_uppercase method)
                      × HashTag event hash))))
  unfolding verify_blossom_auth_bound
  verify_blossom_auth_bound-accepted event action server url method hash now =
      and_then-accepted _ _ (verify_blossom_auth-accepted event action now) (
        and_then-accepted _ _
          (verify_unique_tag-accepted event (bytes_of "server") server wrong_server)
          (and_then-accepted _ _
            (verify_unique_tag-accepted event (bytes_of "u") url wrong_resource)
            (and_then-accepted _ _
              (verify_unique_tag-accepted event (bytes_of "method") (to_ascii_uppercase method)
                wrong_action)
              (verify_hash-accepted crypto event hash))))
