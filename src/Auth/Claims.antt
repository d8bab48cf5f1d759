-- ===== src/Auth/Claims.antt =====
-- src/auth/nip98.rs, and verify_auth_event_claims and verify_auth_event of src/server/mod.rs: the
-- check of an HTTP authorization event of either kind for a request.
use blossom_rs.Prelude.{
  ℕ, ◌+◌, ◌-◌, ◌≤◌, ◌≡◌, refl, ◌↔◌, ◌⊎◌, inl, inr, Bool, true, false, Option, none, some, [], ◌∷◌,
  ◌++◌, ◌==◌, not, ◌||◌, nat_key, list_key, list_same_iff, same_refl, subst, arith, ltb, reverse,
  if◌then◌else◌, Text, bytes_of, Bool-cases,
}
use blossom_rs.Auth.{
  NostrEvent, AuthResult, accepted, rejected, ◌and_then◌, require, Crypto, saturating_add,
  unique_value, verify_identity, verify_blossom_auth_bound, to_ascii_uppercase, wrong_kind,
  wrong_action, future_dated, expired,
}
use blossom_rs.Auth.Bound.{OnlyTag, unique_value-some, and_then-accepted, require-accepted}
use blossom_rs.Auth.Request.{
  Signed, Current, HashTag, verify_identity-accepted, verify_blossom_auth_bound-accepted,
}

abbrev pub eq_ignore_ascii_case : Text → Text → Bool
eq_ignore_ascii_case a b = to_ascii_uppercase a == to_ascii_uppercase b

abbrev holds_value : (Text → Bool) → Option Text → Bool
holds_value p none = false
holds_value p (some v) = p v

-- One of the three checks of a tag: there is one tag of the name, and its value passes the test.
pub verify_tag : NostrEvent → Text → (Text → Bool) → AuthResult
unfolding unique_value
verify_tag event name p = require (holds_value p (unique_value event name).0) wrong_action

abbrev optional_tag : NostrEvent → Text → (Text → Text → Bool) → Option Text → AuthResult
optional_tag event name same none = accepted
optional_tag event name same (some expected) = verify_tag event name (λ v. same v expected)

abbrev same_text : Text → Text → Bool
same_text v expected = v == expected

module _ (crypto : Crypto) where
  pub verify_nip98_auth_with_payload :
      NostrEvent → Option Text → Option Text → Option Text → ℕ → AuthResult
  unfolding verify_tag verify_identity
  verify_nip98_auth_with_payload event url method payload now =
      require (event.kind == 27235) (wrong_kind event.kind)
      and_then require (not (ltb (saturating_add now 30) event.created_at)) future_dated
      and_then require (not (ltb 60 (now - event.created_at))) expired
      and_then optional_tag event (bytes_of "u") same_text url
      and_then optional_tag event (bytes_of "method") eq_ignore_ascii_case method
      and_then optional_tag event (bytes_of "payload") same_text payload
      and_then verify_identity crypto event

  pub verify_nip98_auth : NostrEvent → Option Text → Option Text → ℕ → AuthResult
  unfolding verify_nip98_auth_with_payload
  verify_nip98_auth event url method now = verify_nip98_auth_with_payload event url method none now

abbrev drop_slashes : Text → Text
drop_slashes [] = []
drop_slashes (c ∷ s) = let rest = drop_slashes s in if c == b'/' then rest else c ∷ s

-- `trim_end_matches('/')`.
unfoldable pub server_of : Text → Text
server_of base_url = reverse (drop_slashes (reverse base_url))

abbrev pub has_body : Text → Bool
has_body method =
    method == bytes_of "POST" || method == bytes_of "PUT" || method == bytes_of "PATCH"

module _ (crypto : Crypto) where
  unfoldable pub verify_auth_event_claims :
      NostrEvent → Text → Text → Text → Text → Option Text → ℕ → AuthResult
  unfolding server_of verify_nip98_auth_with_payload verify_blossom_auth_bound
  verify_auth_event_claims event action base_url path method hash now =
      let server = server_of base_url in
      let url = server ++ path in
      if event.kind == 24242
      then verify_blossom_auth_bound crypto event action server url method hash now
      else (if event.kind == 27235
          then verify_nip98_auth_with_payload crypto event (some url) (some method)
              (if has_body method then hash else none) now
          else rejected (wrong_kind event.kind))

-- The one value of a tag passes a test.
abbrev pub TagValue : NostrEvent → Text → (Text → Bool) → Type 0
TagValue event name p = (v : Text) × OnlyTag event name v × (p v ≡ true)

abbrev pub PayloadTag : NostrEvent → Option Text → Type 0
PayloadTag event none = Unit
PayloadTag event (some payload) = OnlyTag event (bytes_of "payload") payload

holds_value-some :
    (p : Text → Bool) (found : Option Text)
    → (holds_value p found ≡ true) ↔ ((v : Text) × (found ≡ some v) × (p v ≡ true))
holds_value-some p none = (λ h. absurd (ground (arith, h)), λ (v, e, h). absurd (ground (arith, e)))
holds_value-some p (some w) = (λ h. (w, refl, h), λ (v, e, h). ground (arith, e, h))

verify_tag-accepted :
    (event : NostrEvent) (name : Text) (p : Text → Bool)
    → (verify_tag event name p ≡ accepted) ↔ TagValue event name p
unfolding verify_tag
verify_tag-accepted event name p =
    let found = (unique_value event name).0 in
    let tested = require-accepted (holds_value p found) wrong_action (holds_value-some p found) in
    (
      λ h. let (v, e, t) = tested.0 h in (v, (unique_value-some event name v).0 e, t),
      λ (v, only, t). tested.1 (v, (unique_value-some event name v).1 only, t),
    )

same_tag-accepted :
    (event : NostrEvent) (name expected : Text)
    → (verify_tag event name (λ v. same_text v expected) ≡ accepted) ↔ OnlyTag event name expected
same_tag-accepted event name expected =
    let checked = verify_tag-accepted event name (λ v. same_text v expected) in
    (
      λ h.
          let (v, only, t) = checked.0 h in
          subst (λ w. OnlyTag event name w) ((list_same_iff v expected).0 t) only,
      λ only. checked.1 (expected, only, same_refl expected),
    )

payload-accepted :
    (event : NostrEvent) (payload : Option Text)
    → (optional_tag event (bytes_of "payload") same_text payload ≡ accepted)
      ↔ PayloadTag event payload
payload-accepted event none = (λ h. tt, λ h. refl)
payload-accepted event (some payload) = same_tag-accepted event (bytes_of "payload") payload

-- A choice by the kind of the event, between checks that ask for their kind.
by_kind :
    {P Q : Type 0} (kind : ℕ) (x y : AuthResult)
    → (x ≡ accepted) ↔ P
    → (y ≡ accepted) ↔ Q
    → (P → kind ≡ 24242)
    → (Q → kind ≡ 27235)
    → ((if kind == 24242 then x else (if kind == 27235 then y else rejected (wrong_kind kind)))
        ≡ accepted)
      ↔ (P ⊎ Q)
by_kind kind x y p q at_p at_q = elim (Bool-cases (kind == 24242)) [
  | inl e ↦
      rw e (
        λ h. inl (p.0 h),
        λ c. elim c [ inl b ↦ p.1 b | inr b ↦ absurd (ground (arith, e, at_q b)) ],
      )
  | inr e ↦ elim (Bool-cases (kind == 27235)) [
    | inl f ↦
        rw (e, f)
          (
            λ h. inr (q.0 h),
            λ c. elim c [ inl b ↦ absurd (ground (arith, e, at_p b)) | inr b ↦ q.1 b ],
          )
    | inr f ↦
        rw (e, f)
          (
            λ h. absurd (ground (arith, h)),
            λ c. elim c [
              | inl b ↦ absurd (ground (arith, e, at_p b))
              | inr b ↦ absurd (ground (arith, f, at_q b))
            ],
          )
  ]
]

module _ (crypto : Crypto) where
  -- A NIP-98 event dated within a minute before and half a minute after now, for the URL, the method
  -- and the body, and signed.
  abbrev pub HttpBound : NostrEvent → Text → Text → Option Text → ℕ → Type 0
  HttpBound event url method payload now =
      (event.kind ≡ 27235)
      × ((event.created_at ≤ saturating_add now 30)
          × ((now ≤ event.created_at + 60)
              × (OnlyTag event (bytes_of "u") url
                  × (TagValue event (bytes_of "method") (λ v. eq_ignore_ascii_case v method)
                      × (PayloadTag event payload × Signed crypto event)))))

  verify_nip98-accepted :
      (event : NostrEvent) (url method : Text) (payload : Option Text) (now : ℕ)
      → (verify_nip98_auth_with_payload crypto event (some url) (some method) payload now
          ≡ accepted)
        ↔ HttpBound event url method payload now
  unfolding verify_nip98_auth_with_payload
  verify_nip98-accepted event url method payload now =
      and_then-accepted _ _
        (require-accepted (event.kind == 27235) (wrong_kind event.kind) (ground arith))
        (and_then-accepted _ _
          (require-accepted (not (ltb (saturating_add now 30) event.created_at)) future_dated
            (ground arith))
          (and_then-accepted _ _
            (require-accepted (not (ltb 60 (now - event.created_at))) expired (ground arith))
            (and_then-accepted _ _ (same_tag-accepted event (bytes_of "u") url) (
              and_then-accepted _ _
                (verify_tag-accepted event (bytes_of "method") (λ v. eq_ignore_ascii_case v method))
                (and_then-accepted _ _ (payload-accepted event payload)
                  (verify_identity-accepted crypto event))))))

  -- What `verify_blossom_auth_bound` asks of an event.
  abbrev pub BlossomBound : NostrEvent → Text → Text → Text → Text → Option Text → ℕ → Type 0
  BlossomBound event action server url method hash now =
      Current crypto event action now
      × (OnlyTag event (bytes_of "server") server
          × (OnlyTag event (bytes_of "u") url
              × (OnlyTag event (bytes_of "method") (to_ascii_uppercase method)
                  × HashTag event hash)))

  -- The claims of an event hold for a request exactly if it is a Blossom event bound to the action, the
  -- server, the URL, the method and the hash, or a NIP-98 event bound to the URL, the method and, where
  -- the method has a body, the hash.
  pub verify_auth_event_claims-accepted :
      (event : NostrEvent) (action base_url path method : Text) (hash : Option Text) (now : ℕ)
      → let server = server_of base_url in
        let url = server ++ path in
        (verify_auth_event_claims crypto event action base_url path method hash now ≡ accepted) ↔ (
          BlossomBound event action server url method hash now
          ⊎ HttpBound event url method (if has_body method then hash else none) now)
  unfolding verify_auth_event_claims
  verify_auth_event_claims-accepted event action base_url path method hash now =
      let server = server_of base_url in
      let url = server ++ path in
      let blossom =
        verify_blossom_auth_bound-accepted crypto event action server url method hash now in
      let http =
        verify_nip98-accepted event url method (if has_body method then hash else none) now in
      by_kind event.kind (verify_blossom_auth_bound crypto event action server url method hash now)
        (verify_nip98_auth_with_payload crypto event (some url) (some method)
          (if has_body method then hash else none) now)
        blossom http (λ b. b.0.0) (λ b. b.0)
