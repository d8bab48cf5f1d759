-- ===== src/GitServer/Validation.antt =====
-- blossom-nip34/src/git_server/validation.rs: the check of a push against the repository state that was
-- published.
use blossom_rs.Prelude.{
  ℕ, Bool, Option, none, some, List, [], ◌∷◌, ◌++◌, ◌==◌, nat_key, list_key, if◌then◌else◌, Text,
  bytes_of,
}
use blossom_rs.HashMap.{HashMap, get, insert}
use blossom_rs.Access.{starts_with}
use blossom_rs.Auth.{NostrEvent}
use blossom_rs.GitServer.{RefUpdate, is_create, is_delete}

pub data PushError : Type 0 where
  mismatch : PushError
  not_found : PushError
  deletes_known : PushError

abbrev pub verdict_of : Option Text → RefUpdate → Option PushError
verdict_of (some expected) u =
    if is_delete u
    then some deletes_known
    else (if u.new_oid == expected then none else some mismatch)
verdict_of none u = if is_delete u then none else (if is_create u then none else some not_found)

-- The error of an update, if it has one.
unfoldable pub check_ref_update : RefUpdate → HashMap Text Text → Option PushError
check_ref_update u state_refs = verdict_of (get state_refs u.refname) u

abbrev pub collect : HashMap Text PushError → Text → Option PushError → HashMap Text PushError
collect errors refname none = errors
collect errors refname (some reason) = insert errors refname reason

-- The loop over the updates.
unfoldable pub check_updates :
    HashMap Text PushError → List RefUpdate → HashMap Text Text → HashMap Text PushError
unfolding check_ref_update is_delete is_create
check_updates errors [] state_refs = errors
check_updates errors (u ∷ us) state_refs =
    check_updates (collect errors u.refname (check_ref_update u state_refs)) us state_refs

abbrev add_ref : HashMap Text Text → List Text → HashMap Text Text
add_ref refs [] = refs
add_ref refs (name ∷ []) = refs
add_ref refs (name ∷ oid ∷ more) =
    if starts_with name (bytes_of "refs/") then insert refs name oid else refs

abbrev add_refs : HashMap Text Text → List (List Text) → HashMap Text Text
add_refs refs [] = refs
add_refs refs (t ∷ ts) = add_refs (add_ref refs t) ts

unfoldable pub extract_state_refs : NostrEvent → HashMap Text Text
unfolding starts_with
extract_state_refs event = add_refs [] event.tags

-- The filter of a query.
pub record Filter : Type 0 where
  pub authors : List Text
  pub identifier : Text
  pub kind : ℕ

abbrev pub repo_announcement : ℕ
repo_announcement = 30617

abbrev pub repo_state : ℕ
repo_state = 30618

-- The nostr crates: the hex of a public key, whether a tag is of the kind of maintainers, and a query,
-- which can fail.
pub record Nostr : Type 0 where
  pub from_hex : Text → Option Text
  pub is_maintainers : List Text → Bool
  pub query : Filter → Option (List NostrEvent)

pub data Validated : Type 0 where
  checked : HashMap Text PushError → Validated
  refused : ℕ → Validated

module _ (nostr : Nostr) where
  abbrev content_of : List Text → List Text
  content_of [] = []
  content_of (name ∷ []) = []
  content_of (name ∷ c ∷ more) = c ∷ []

  abbrev maintainers_of : List (List Text) → List Text
  maintainers_of [] = []
  maintainers_of (t ∷ ts) =
      let rest = maintainers_of ts in if nostr.is_maintainers t then content_of t ++ rest else rest

  abbrev pub extract_maintainers : NostrEvent → List Text
  extract_maintainers event = maintainers_of event.tags

  abbrev known_keys : List Text → List Text
  known_keys [] = []
  known_keys (m ∷ ms) = elim (nostr.from_hex m) [
    | none ↦ known_keys ms
    | some pk ↦ pk ∷ known_keys ms
  ]

  abbrev pub state_filter : Text → Text → NostrEvent → Filter
  state_filter author repo_id announcement = record {
    authors = author ∷ known_keys (extract_maintainers announcement);
    identifier = repo_id;
    kind = repo_state;
  }

  abbrev pub with_states : List RefUpdate → Option (List NostrEvent) → Validated
  with_states updates none = refused 500
  with_states updates (some []) = refused 400
  with_states updates (some (state ∷ more)) =
      checked (check_updates [] updates (extract_state_refs state))

  abbrev pub with_announcements :
      List RefUpdate → Text → Text → Option (List NostrEvent) → Validated
  with_announcements updates author repo_id none = refused 500
  with_announcements updates author repo_id (some []) = refused 404
  with_announcements updates author repo_id (some (announcement ∷ more)) =
      with_states updates (nostr.query (state_filter author repo_id announcement))

  abbrev pub announcement_filter : Text → Text → Filter
  announcement_filter author repo_id = record {
    authors = author ∷ [];
    identifier = repo_id;
    kind = repo_announcement;
  }

  unfoldable pub validate_push : List RefUpdate → Text → Text → Validated
  unfolding check_updates extract_state_refs
  validate_push updates author_hex repo_id = elim (nostr.from_hex author_hex) [
    | none ↦ refused 400
    | some author ↦
        with_announcements updates author repo_id (nostr.query (announcement_filter author repo_id))
  ]
