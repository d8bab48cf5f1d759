-- ===== src/Transport/Stream/Once.antt =====
-- Two streams, one right after the other, with the same authorization event.
use blossom_rs.Prelude.{
  ℕ, ◌≡◌, ◌≢◌, ◌⊎◌, ◌<◌, ap, sym, ◌∙◌, subst, false, false≢true, Option, none, some, [], Text, inl,
  inr, list_key, nat_key,
}
use blossom_rs.Auth.{saturating_add}
use blossom_rs.Transport.{Request}
use blossom_rs.Transport.Wire.{Decoded, decode_line}
use blossom_rs.Transport.Replay.{commit}
use blossom_rs.Transport.Replay.Kept.{commit-twice}
use blossom_rs.Transport.Binding.{VerifiedAuth, Verification, verified, failed, verify_auth}
use blossom_rs.Transport.Gate.{SharedState}
use blossom_rs.Transport.Stream.{Incoming, Server, handle_stream}
use blossom_rs.Transport.Stream.Gates.{SameData, Takes, Authorized}
use blossom_rs.Transport.Stream.Guarded.{Carries, handle_stream-guarded}

abbrev request_of : Decoded (Request × ℕ) → Request → Request
request_of (Decoded.err message) req = req
request_of (Decoded.ok (r, consumed)) req = r

abbrev header_of : Option (Text × Text) → Text
header_of none = []
header_of (some (header, rest)) = header

abbrev auth_of : Verification → VerifiedAuth → VerifiedAuth
auth_of (failed e) auth = auth
auth_of (verified a) auth = a

module _ {F : Type 0} (server : Server F) where
  Carries-unique : (i : Incoming) (p q : Request) → Carries server i p → Carries server i q → p ≡ q
  Carries-unique i p q (h, rest, n, e, d) (h', rest', n', e', d') =
      let same : h ≡ h' = ap header_of (sym e ∙ e') in
      ap (λ x. request_of x p) (sym d ∙ ap (λ x. decode_line server.requests x) same ∙ d')

  -- The event of a stream, as its request carries it.
  abbrev pub Shows : Incoming → Request → VerifiedAuth → Type 0
  Shows i req auth =
      Carries server i req
      × (req.auth ≢ [])
      × (verify_auth server.bindings server.crypto req.auth req server.receiver i.checked_at
          ≡ verified auth)

  Shows-Takes :
      (s : SharedState F) (i : Incoming) (req : Request) (auth : VerifiedAuth)
      → Shows i req auth
      → let t = (handle_stream server s i).0 in SameData server s t ⊎ Takes server s t req auth i
  Shows-Takes s i req auth (carries, asked, shown) = elim (handle_stream-guarded server s i) [
    | inl same ↦ inl same
    | inr (r, carried, may) ↦
        let t = (handle_stream server s i).0 in
        let may' : Authorized server s t req i =
          subst (λ x. Authorized server s t x i) (Carries-unique i r req carried carries) may in
        elim may' [
          | inl (op, nobody, no_need, anybody) ↦ absurd (asked nobody)
          | inr (a, verifies, takes) ↦ inr (
              subst (λ x. Takes server s t req x i) (ap (λ v. auth_of v a) (sym verifies ∙ shown))
                takes)
        ]
  ]

  -- Of two streams, one after the other within two minutes, that show an event of the same id, one at
  -- least leaves the blobs, the metadata, the LFS versions and the locks as they are.
  pub handle_stream-once :
      (s : SharedState F) (i j : Incoming) (p q : Request) (a b : VerifiedAuth)
      → Shows i p a
      → Shows j q b
      → a.event_id ≡ b.event_id
      → j.committed_at < saturating_add i.committed_at 120
      → let t = (handle_stream server s i).0 in
        let u = (handle_stream server t j).0 in SameData server s t ⊎ SameData server t u
  handle_stream-once s i j p q a b first second same_id soon =
      let t = (handle_stream server s i).0 in
      elim (Shows-Takes s i p a first) [
        | inl same ↦ inl same
        | inr (fresh, seen, may) ↦ elim (Shows-Takes t j q b second) [
          | inl same ↦ inr same
          | inr (again, seen', may') ↦
              let refused : (commit t.seen b.event_id b.pubkey j.committed_at).1 ≡ false =
                rw (seen, ← same_id)
                  (commit-twice s.seen a.event_id a.pubkey b.pubkey i.committed_at j.committed_at
                    fresh soon) in
              absurd (false≢true (sym refused ∙ again))
        ]
      ]
