-- ===== src/Server/MirrorApi/Guarded.antt =====
-- What a request to mirror may change.
use blossom_rs.Prelude.{
  ℕ, ◌≡◌, ◌⊎◌, refl, ap, sym, ◌∙◌, subst, true, Option, none, some, [], ◌==◌, nat_key, list_key,
  ltb, Text, bytes_of, Bool-cases, inl, inr,
}
use blossom_rs.Access.{mirror}
use blossom_rs.Auth.{NostrEvent, accepted, Crypto}
use blossom_rs.Auth.Claims.{verify_auth_event_claims}
use blossom_rs.Server.{State}
use blossom_rs.Server.Body.{BodyResult, read, failed, units, max_buffered_body_bytes}
use blossom_rs.Server.Entry.{entered-Entered, marked-Marked}
use blossom_rs.Server.Mirror.{Network, Fetched, fetch_mirror_blob}
use blossom_rs.Server.Nip96.{n96_store}
use blossom_rs.Server.Read.{octet_stream}
use blossom_rs.Server.Upload.{Config, ServerState, event_of, Request, Checked, pass, refuse}
use blossom_rs.Server.MirrorApi.{
  max_mirror_size, mirror_stored, checks_of, mirror_fetched, mirror_from, expected_hash, mirror_url,
  mirror_body, handle_mirror,
}

module _ {F : Type 0} (crypto : Crypto) (config : Config) (tokens_for : ℕ → F → ℕ)
    (sha256_hex : Text → Text) (net : Network) (from_slice : Text → Option Text) (free : ℕ) where
  -- The bytes are those that the fetch of the URL of the body gives, of an event whose claims hold for
  -- this URL or this body, of a key that may mirror; they pass the checks, and are stored as they are.
  abbrev pub Mirrored : ServerState F → Request → State → Type 0
  Mirrored s req after =
      (event : NostrEvent) × (body : Text) × (url : Text) × (bytes : Text) × (req.auth
        ≡ event_of event)
      × (req.body ≡ read body)
      × (from_slice body ≡ some url)
      × (config.is_allowed event.pubkey mirror ≡ true)
      × (verify_auth_event_claims crypto event (bytes_of "upload") config.base_url
            (bytes_of "/mirror") (bytes_of "PUT")
            (some (
              expected_hash crypto config tokens_for sha256_hex net from_slice free event url body))
            req.bound_at
          ≡ accepted)
      × ((fetch_mirror_blob net url (max_mirror_size config.requirements.max_size)).1
          ≡ Fetched.body bytes)
      × (checks_of crypto config tokens_for sha256_hex net from_slice free s event bytes ≡ pass tt)
      × (after
          ≡ (n96_store crypto config tokens_for sha256_hex s.stored event.pubkey (sha256_hex bytes)
              bytes octet_stream req.stored_at).0)

  -- What the fetch stores.
  abbrev Fetches : ServerState F → Request → NostrEvent → Text → State → Type 0
  Fetches s req event url after =
      (bytes : Text) × ((fetch_mirror_blob net url (max_mirror_size config.requirements.max_size)).1
        ≡ Fetched.body bytes)
      × (checks_of crypto config tokens_for sha256_hex net from_slice free s event bytes ≡ pass tt)
      × (after
          ≡ (n96_store crypto config tokens_for sha256_hex s.stored event.pubkey (sha256_hex bytes)
              bytes octet_stream req.stored_at).0)

  mirror_stored-cases :
      (s : ServerState F) (req : Request) (event : NostrEvent) (bytes : Text)
      (c : Checked (Unit {0}))
      → let t =
          (mirror_stored crypto config tokens_for sha256_hex net from_slice free s req event bytes
            c).0 in
        (t.stored ≡ s.stored)
        ⊎ ((c ≡ pass tt)
            × (t.stored
                ≡ (n96_store crypto config tokens_for sha256_hex s.stored event.pubkey
                    (sha256_hex bytes)
                    bytes
                    octet_stream
                    req.stored_at).0))
  mirror_stored-cases s req event bytes (refuse code) = inl refl
  mirror_stored-cases s req event bytes (pass tt) = inr (refl, refl)

  mirror_fetched-cases :
      (s : ServerState F) (req : Request) (event : NostrEvent) (url : Text) (f : Fetched)
      → (fetch_mirror_blob net url (max_mirror_size config.requirements.max_size)).1 ≡ f
      → let t =
          (mirror_fetched crypto config tokens_for sha256_hex net from_slice free s req event
            f).0 in
        (t.stored ≡ s.stored) ⊎ Fetches s req event url t.stored
  mirror_fetched-cases s req event url (Fetched.failed e) h = inl refl
  mirror_fetched-cases s req event url (Fetched.body bytes) h = elim (Bool-cases (bytes == [])) [
    | inl nothing ↦ rw nothing (inl refl)
    | inr something ↦
        rw something
          (elim (mirror_stored-cases s req event bytes
            (checks_of crypto config tokens_for sha256_hex net from_slice free s event bytes)) [
              | inl same ↦ inl same
              | inr (passed, stored) ↦ inr (bytes, h, passed, stored)
            ])
  ]

  mirror_from-cases :
      (s : ServerState F) (req : Request) (event : NostrEvent) (url : Text)
      → let t =
          (mirror_from crypto config tokens_for sha256_hex net from_slice free url req s event).0 in
        (t.stored ≡ s.stored) ⊎ Fetches s req event url t.stored
  mirror_from-cases s req event url =
      let size = max_mirror_size config.requirements.max_size in
      elim (Bool-cases (ltb max_buffered_body_bytes size)) [
        | inl big ↦ rw big (inl refl)
        | inr fits ↦ elim (Bool-cases (ltb free (units size))) [
          | inl full ↦ rw (fits, full) (inl refl)
          | inr room ↦
              rw (fits, room)
                (mirror_fetched-cases s req event url (fetch_mirror_blob net url size).1 refl)
        ]
      ]

  mirror_url-cases :
      (s : ServerState F) (req : Request) (event : NostrEvent) (body : Text) (o : Option Text)
      → from_slice body ≡ o
      → req.auth ≡ event_of event
      → req.body ≡ read body
      → config.is_allowed event.pubkey mirror ≡ true
      → let t =
          (mirror_url crypto config tokens_for sha256_hex net from_slice free s req event body
            o).0 in
        (t.stored ≡ s.stored) ⊎ Mirrored s req t.stored
  mirror_url-cases s req event body none e a b may = inl refl
  mirror_url-cases s req event body (some url) e a b may =
      elim (marked-Marked crypto config tokens_for (bytes_of "/mirror") (bytes_of "PUT") mirror s
        req event
        (expected_hash crypto config tokens_for sha256_hex net from_slice free event url body)
        (mirror_from crypto config tokens_for sha256_hex net from_slice free url req)) [
          | inl same ↦ inl same
          | inr (holds, (t, kept, r)) ↦ elim (mirror_from-cases t req event url) [
            | inl same ↦ inl (ap (λ x. x.0.stored) r ∙ same ∙ kept)
            | inr fetches ↦
                let (bytes, got, passed, stored) =
                  subst
                    (λ k.
                      Fetches (record s { stored = k }) req event url
                        (mirror_from crypto config tokens_for sha256_hex net from_slice free url req
                          t event).0.stored)
                    kept fetches in
                inr (
                  event,
                  body,
                  url,
                  bytes,
                  a,
                  b,
                  e,
                  may,
                  holds,
                  got,
                  passed,
                  ap (λ x. x.0.stored) r ∙ stored,
                )
          ]
        ]

  mirror_body-cases :
      (s : ServerState F) (req : Request) (event : NostrEvent) (d : BodyResult)
      → req.body ≡ d
      → req.auth ≡ event_of event
      → config.is_allowed event.pubkey mirror ≡ true
      → let t =
          (mirror_body crypto config tokens_for sha256_hex net from_slice free req d s event).0 in
        (t.stored ≡ s.stored) ⊎ Mirrored s req t.stored
  mirror_body-cases s req event (failed e) b a may = inl refl
  mirror_body-cases s req event (read body) b a may =
      mirror_url-cases s req event body (from_slice body) refl a b may

  -- A request to mirror leaves the blobs, the metadata and the LFS versions as they are, whatever the
  -- answer, unless it has an event of a key that may mirror, whose claims hold for the URL that the body
  -- asks for; then the bytes that are stored are those that the fetch of this URL gives, and they pass
  -- the checks of type, size and quota.
  pub handle_mirror-guarded :
      (s : ServerState F) (req : Request)
      → let t = (handle_mirror crypto config tokens_for sha256_hex net from_slice free s req).0 in
        (t.stored ≡ s.stored) ⊎ Mirrored s req t.stored
  unfolding handle_mirror
  handle_mirror-guarded s req =
      elim (entered-Entered crypto config tokens_for (bytes_of "/mirror") (bytes_of "PUT") mirror s
        req req.auth
        (mirror_body crypto config tokens_for sha256_hex net from_slice free req req.body)) [
          | inl same ↦ inl same
          | inr (event, t, a, may, kept, r) ↦
              elim (mirror_body-cases t req event req.body refl a may) [
                | inl same ↦ inl (ap (λ x. x.0.stored) r ∙ same ∙ kept)
                | inr m ↦ inr (
                    subst
                      (λ k.
                        Mirrored (record s { stored = k }) req
                          (handle_mirror crypto config tokens_for sha256_hex net from_slice free s
                            req).0.stored)
                      kept (subst (λ k. Mirrored t req k) (ap (λ x. x.0.stored) (sym r)) m))
              ]
        ]
