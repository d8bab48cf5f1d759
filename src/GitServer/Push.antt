-- ===== src/GitServer/Push.antt =====
-- The pushes that are accepted.
use blossom_rs.Prelude.{
  ◌≡◌, ◌≢◌, ◌⊎◌, refl, true, false, arith, nat_key, list_key, list_same_iff, Text, List, [], ◌∷◌,
  Option-cases, inl, inr, Option, none, some, ap, sym, ◌∙◌,
}
use blossom_rs.HashMap.{HashMap, get, insert}
use blossom_rs.Auth.{NostrEvent}
use blossom_rs.GitServer.{RefUpdate, is_delete, is_create}
use blossom_rs.GitServer.Validation.{
  verdict_of, PushError, check_ref_update, check_updates, extract_state_refs, Nostr, checked,
  refused, validate_push, announcement_filter, state_filter, collect, with_states,
  with_announcements,
}

-- An update agrees with the published state: the state has the reference at the update's new object, or
-- does not have it, and the update makes it or deletes it.
abbrev pub Agrees : HashMap Text Text → RefUpdate → Type 0
Agrees refs u =
    ((get refs u.refname ≡ some u.new_oid) × (is_delete u ≡ false))
    ⊎ ((get refs u.refname ≡ none) × ((is_delete u ≡ true) ⊎ (is_create u ≡ true)))

abbrev pub AllAgree : HashMap Text Text → List RefUpdate → Type 0
AllAgree refs [] = Unit
AllAgree refs (u ∷ us) = Agrees refs u × AllAgree refs us

verdict-Agrees :
    (found : Option Text) (u : RefUpdate)
    → verdict_of found u ≡ none
    → ((found ≡ some u.new_oid) × (is_delete u ≡ false))
      ⊎ ((found ≡ none) × ((is_delete u ≡ true) ⊎ (is_create u ≡ true)))
verdict-Agrees none u h = ground (arith, h)
verdict-Agrees (some oid) u h = ground (arith, h, list_same_iff u.new_oid oid)

insert_not_empty : (m : HashMap Text PushError) (k : Text) (e : PushError) → insert m k e ≢ []
unfolding insert
insert_not_empty [] k e h = ground (arith, h)
insert_not_empty ((j, w) ∷ m) k e h = ground (arith, h)

collect-empty :
    (errors : HashMap Text PushError) (refname : Text) (r : Option PushError)
    → collect errors refname r ≡ []
    → (errors ≡ []) × (r ≡ none)
collect-empty errors refname none h = (h, refl)
collect-empty errors refname (some reason) h = absurd (insert_not_empty errors refname reason h)

checked-same : (a b : HashMap Text PushError) → checked a ≡ checked b → a ≡ b
checked-same a b h = ap (λ v. elim v [ checked m ↦ m | refused n ↦ a ]) h

-- Errors are never taken back.
check_updates-empty :
    (errors : HashMap Text PushError) (us : List RefUpdate) (refs : HashMap Text Text)
    → check_updates errors us refs ≡ []
    → (errors ≡ []) × AllAgree refs us
unfolding check_updates check_ref_update
check_updates-empty errors [] refs h = (h, tt)
check_updates-empty errors (u ∷ us) refs h =
    let (none_yet, rest) =
      check_updates-empty (collect errors u.refname (check_ref_update u refs)) us refs h in
    let (empty, fine) = collect-empty errors u.refname (check_ref_update u refs) none_yet in
    (empty, (verdict-Agrees (get refs u.refname) u fine, rest))

module _ (nostr : Nostr) where
  -- A push that is taken without an error: the repository was announced by the author, its state was
  -- published by the author or a maintainer that the announcement names, and every update agrees with it.
  abbrev pub Taken : List RefUpdate → Text → Text → Type 0
  Taken updates author_hex repo_id =
      (author : Text) × (announcement state : NostrEvent) × (announcements states : List NostrEvent)
      × (nostr.from_hex author_hex ≡ some author)
      × (nostr.query (announcement_filter nostr author repo_id)
          ≡ some (announcement ∷ announcements))
      × (nostr.query (state_filter nostr author repo_id announcement) ≡ some (state ∷ states))
      × AllAgree (extract_state_refs state) updates

  with_states-Taken :
      (updates : List RefUpdate) (found : Option (List NostrEvent))
      → with_states nostr updates found ≡ checked []
      → (state : NostrEvent) × (states : List NostrEvent) × (found ≡ some (state ∷ states))
        × AllAgree (extract_state_refs state) updates
  with_states-Taken updates none h = absurd (ground (arith, h))
  with_states-Taken updates (some []) h = absurd (ground (arith, h))
  with_states-Taken updates (some (state ∷ states)) h = (
    state,
    states,
    refl,
    (check_updates-empty [] updates (extract_state_refs state) (checked-same _ _ h)).1,
  )

  with_announcements-Taken :
      (updates : List RefUpdate) (author repo_id : Text) (found : Option (List NostrEvent))
      → with_announcements nostr updates author repo_id found ≡ checked []
      → (announcement : NostrEvent) × (more : List NostrEvent) × (found
          ≡ some (announcement ∷ more))
        × (with_states nostr updates (nostr.query (state_filter nostr author repo_id announcement))
            ≡ checked [])
  with_announcements-Taken updates author repo_id none h = absurd (ground (arith, h))
  with_announcements-Taken updates author repo_id (some []) h = absurd (ground (arith, h))
  with_announcements-Taken updates author repo_id (some (announcement ∷ more)) h =
      (announcement, more, refl, h)

  -- A push that is taken without an error is to a repository for which the relay gives an
  -- announcement of the author and a state of the author or of a maintainer that the announcement
  -- names, and every update of the push agrees with that state.
  pub validate_push-accepted :
      (updates : List RefUpdate) (author_hex repo_id : Text)
      → validate_push nostr updates author_hex repo_id ≡ checked []
      → Taken updates author_hex repo_id
  unfolding validate_push
  validate_push-accepted updates author_hex repo_id h =
      elim (Option-cases (nostr.from_hex author_hex)) [
        | inl e ↦ absurd (ground (arith, h, e))
        | inr (author, e) ↦
            let found : with_announcements nostr updates author repo_id
                  (nostr.query (announcement_filter nostr author repo_id))
                ≡ checked [] =
              ap
                (λ o. elim o [
                  | none ↦ refused 400
                  | some a ↦
                      with_announcements nostr updates a repo_id
                        (nostr.query (announcement_filter nostr a repo_id))
                ])
                (sym e)
              ∙ h in
            let (announcement, more, announced, rest) =
              with_announcements-Taken updates author repo_id
                (nostr.query (announcement_filter nostr author repo_id)) found in
            let (state, states, published, agree) =
              with_states-Taken updates
                (nostr.query (state_filter nostr author repo_id announcement)) rest in
            (author, announcement, state, more, states, e, announced, published, agree)
      ]
