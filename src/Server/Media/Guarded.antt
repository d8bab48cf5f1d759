-- ===== src/Server/Media/Guarded.antt =====
-- What an upload of a medium may change.
use blossom_rs.Prelude.{
  ℕ, ◌≡◌, ◌⊎◌, refl, ap, sym, ◌∙◌, subst, Bool, true, false, Option, none, some, [], ◌==◌, nat_key,
  list_key, pair_key, Text, bytes_of, Bool-cases, inl, inr,
}
use blossom_rs.Access.{upload}
use blossom_rs.Auth.{NostrEvent, accepted, Crypto}
use blossom_rs.Auth.Claims.{verify_auth_event_claims}
use blossom_rs.Server.{State}
use blossom_rs.Server.Body.{BodyResult, read, failed}
use blossom_rs.Server.Entry.{entered-Entered, marked-Marked}
use blossom_rs.Server.Read.{detect_mime}
use blossom_rs.Server.Upload.{Config, ServerState, event_of, Request, mime_allowed}
use blossom_rs.Server.Media.{
  MediaResult, MediaOutcome, store_media, media_quota, media_done, media_marked, media_body,
  media_entered, handle_media_upload, processed, processing_failed, worker_failed, timed_out,
}

module _ {F : Type 0} (crypto : Crypto) (config : Config) (tokens_for : ℕ → F → ℕ)
    (sha256_hex : Text → Text) (processor : Option (Text → Text → MediaOutcome))
    (free_slot : Bool) where
  -- What is stored is what the processor makes of the bytes of the body, of an event whose claims hold for
  -- these bytes, of a key that may upload, within its quota.
  abbrev Processed : ServerState F → Request → State → Type 0
  Processed s req after =
      (event : NostrEvent) × (bytes : Text) × (process : Text → Text → MediaOutcome)
      × (m : MediaResult) × (req.auth ≡ event_of event)
      × (req.body ≡ read bytes)
      × (processor ≡ some process)
      × (config.is_allowed event.pubkey upload ≡ true)
      × (verify_auth_event_claims crypto event (bytes_of "upload") config.base_url
            (bytes_of "/media") (bytes_of "PUT") (some (sha256_hex bytes)) req.bound_at
          ≡ accepted)
      × (mime_allowed config.requirements (detect_mime bytes) ≡ true)
      × (process bytes (detect_mime bytes) ≡ processed m)
      × (media_quota crypto config tokens_for sha256_hex processor free_slot s.stored event.pubkey m
          ≡ false)
      × (after
          ≡ (store_media crypto config tokens_for sha256_hex processor free_slot s.stored
              event.pubkey m req.stored_at).0)

  media_done-cases :
      (req : Request) (s : ServerState F) (event : NostrEvent) (o : MediaOutcome)
      → let t =
          (media_done crypto config tokens_for sha256_hex processor free_slot req s event o).0 in
        (t.stored ≡ s.stored)
        ⊎ ((m : MediaResult) × (o ≡ processed m)
            × (media_quota crypto config tokens_for sha256_hex processor free_slot s.stored
                  event.pubkey m
                ≡ false)
            × (t.stored
                ≡ (store_media crypto config tokens_for sha256_hex processor free_slot s.stored
                    event.pubkey m req.stored_at).0))
  media_done-cases req s event processing_failed = inl refl
  media_done-cases req s event worker_failed = inl refl
  media_done-cases req s event timed_out = inl refl
  media_done-cases req s event (processed m) =
      elim (Bool-cases (
        media_quota crypto config tokens_for sha256_hex processor free_slot s.stored event.pubkey
          m)) [ inl full ↦ rw full (inl refl) | inr room ↦ rw room (inr (m, refl, room, refl)) ]

  -- What the processor makes of the bytes, and stores.
  abbrev Makes :
      (Text → Text → MediaOutcome) → ServerState F → Request → NostrEvent → Text → State → Type 0
  Makes process s req event bytes after =
      (m : MediaResult) × (mime_allowed config.requirements (detect_mime bytes) ≡ true)
      × (process bytes (detect_mime bytes) ≡ processed m)
      × (media_quota crypto config tokens_for sha256_hex processor free_slot s.stored event.pubkey m
          ≡ false)
      × (after
          ≡ (store_media crypto config tokens_for sha256_hex processor free_slot s.stored
              event.pubkey m req.stored_at).0)

  media_marked-cases :
      (process : Text → Text → MediaOutcome) (bytes : Text) (req : Request) (s : ServerState F)
      (event : NostrEvent)
      → let t =
          (media_marked crypto config tokens_for sha256_hex processor free_slot process bytes req s
            event).0 in
        (t.stored ≡ s.stored) ⊎ Makes process s req event bytes t.stored
  media_marked-cases process bytes req s event =
      elim (Bool-cases (mime_allowed config.requirements (detect_mime bytes))) [
        | inr other ↦ rw other (inl refl)
        | inl fit ↦
            rw fit (elim (media_done-cases req s event (process bytes (detect_mime bytes))) [
              | inl same ↦ inl same
              | inr (m, done, room, stored) ↦ inr (m, refl, done, room, stored)
            ])
      ]

  media_body-cases :
      (process : Text → Text → MediaOutcome) (req : Request) (s : ServerState F)
      (event : NostrEvent) (d : BodyResult)
      → req.body ≡ d
      → req.auth ≡ event_of event
      → processor ≡ some process
      → config.is_allowed event.pubkey upload ≡ true
      → let t =
          (media_body crypto config tokens_for sha256_hex processor free_slot process req s event
            d).0 in
        (t.stored ≡ s.stored) ⊎ Processed s req t.stored
  media_body-cases process req s event (failed e) b a p may = inl refl
  media_body-cases process req s event (read bytes) b a p may = elim (Bool-cases (bytes == [])) [
    | inl nothing ↦ rw nothing (inl refl)
    | inr something ↦
        rw something
          (elim (marked-Marked crypto config tokens_for (bytes_of "/media") (bytes_of "PUT") upload
            s req event (sha256_hex bytes)
            (media_marked crypto config tokens_for sha256_hex processor free_slot process bytes
              req)) [
                | inl same ↦ inl same
                | inr (holds, (t, kept, r)) ↦ elim (media_marked-cases process bytes req t event) [
                  | inl same ↦ inl (ap (λ x. x.0.stored) r ∙ same ∙ kept)
                  | inr makes ↦
                      let (m, fit, done, room, stored) =
                        subst
                          (λ k.
                            Makes process (record s { stored = k }) req event bytes
                              (media_marked crypto config tokens_for sha256_hex processor free_slot
                                process bytes req t event).0.stored)
                          kept makes in
                      inr (
                        event,
                        bytes,
                        process,
                        m,
                        a,
                        b,
                        p,
                        may,
                        holds,
                        fit,
                        done,
                        room,
                        ap (λ x. x.0.stored) r ∙ stored,
                      )
                ]
              ])
  ]

  media_entered-cases :
      (o : Option (Text → Text → MediaOutcome)) (req : Request) (s : ServerState F)
      (event : NostrEvent)
      → processor ≡ o
      → req.auth ≡ event_of event
      → config.is_allowed event.pubkey upload ≡ true
      → let t =
          (media_entered crypto config tokens_for sha256_hex processor free_slot o req s event).0 in
        (t.stored ≡ s.stored) ⊎ Processed s req t.stored
  unfolding store_media
  media_entered-cases none req s event p a may = inl refl
  media_entered-cases (some process) req s event p a may = elim (Bool-cases free_slot) [
    | inl slot ↦ rw slot (media_body-cases process req s event req.body refl a p may)
    | inr busy ↦ rw busy (inl refl)
  ]

  -- An upload of a medium leaves the blobs, the metadata and the LFS versions as they are, whatever the
  -- answer, unless it has an event whose claims hold for the bytes of its body, of a key that may upload,
  -- and the bytes are of an allowed type; then what is stored is what the processor makes of them, within
  -- the quota of the key.
  handle_media_upload-guarded :
      (s : ServerState F) (req : Request)
      → let t =
          (handle_media_upload crypto config tokens_for sha256_hex processor free_slot s req).0 in
        (t.stored ≡ s.stored) ⊎ Processed s req t.stored
  unfolding handle_media_upload
  handle_media_upload-guarded s req =
      elim (entered-Entered crypto config tokens_for (bytes_of "/media") (bytes_of "PUT") upload s
        req req.auth
        (media_entered crypto config tokens_for sha256_hex processor free_slot processor req)) [
          | inl same ↦ inl same
          | inr (event, t, a, may, kept, r) ↦
              elim (media_entered-cases processor req t event refl a may) [
                | inl same ↦ inl (ap (λ x. x.0.stored) r ∙ same ∙ kept)
                | inr m ↦ inr (
                    subst
                      (λ k.
                        Processed (record s { stored = k }) req
                          (handle_media_upload crypto config tokens_for sha256_hex processor
                            free_slot s req).0.stored)
                      kept (subst (λ k. Processed t req k) (ap (λ x. x.0.stored) (sym r)) m))
              ]
        ]
