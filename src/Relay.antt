-- ===== src/Relay.antt =====
-- blossom-nip34/src/relay/policies.rs: RelayPolicy, which decides on the events that are written to the
-- relay. A lock is held for the whole of its use; an address is a text, and serde_json's size of an
-- event is a parameter.
pub mod Verdict
pub mod Rate
mod Tests
use blossom_rs.Prelude.{
  ℕ, ◌+◌, ◌/◌, Bool, true, false, Option, none, some, List, [], ◌∷◌, ◌==◌, ◌&&◌, not, nat_key,
  list_key, ltb, leb, if◌then◌else◌, Text,
}
use blossom_rs.HashMap.{HashMap, get, insert, remove, contains_key, len, retain}
use blossom_rs.Access.{HashSet, add_to, set_of}
use blossom_rs.Auth.{NostrEvent}

abbrev pub KindSet : Type 0
KindSet = HashMap ℕ (Unit {0})

pub record RelayPolicy : Type 0 where
  pub admins : HashSet
  pub blacklist : HashSet
  pub whitelist : HashSet
  pub max_event_size : ℕ
  pub allowed_kinds : KindSet
  pub disallowed_kinds : KindSet
  pub event_rate_per_min : ℕ
  pub event_rates : HashMap Text (ℕ × ℕ)

pub new : RelayPolicy
new = record {
  admins = [];
  blacklist = [];
  whitelist = [];
  max_event_size = 0;
  allowed_kinds = [];
  disallowed_kinds = [];
  event_rate_per_min = 120;
  event_rates = [];
}

pub with_config : List Text → ℕ → ℕ → RelayPolicy
unfolding new
with_config admins max_event_size event_rate_per_min = record new {
  admins = set_of admins;
  max_event_size = max_event_size;
  event_rate_per_min = event_rate_per_min;
}

pub add_admin : RelayPolicy → Text → RelayPolicy
add_admin p pubkey = record p { admins = add_to p.admins pubkey }

pub add_blacklist : RelayPolicy → Text → RelayPolicy
add_blacklist p pubkey = record p { blacklist = add_to p.blacklist pubkey }

pub remove_blacklist : RelayPolicy → Text → RelayPolicy
remove_blacklist p pubkey = record p { blacklist = remove p.blacklist pubkey }

pub add_whitelist : RelayPolicy → Text → RelayPolicy
add_whitelist p pubkey = record p { whitelist = add_to p.whitelist pubkey }

pub remove_whitelist : RelayPolicy → Text → RelayPolicy
remove_whitelist p pubkey = record p { whitelist = remove p.whitelist pubkey }

abbrev kind_set : List ℕ → KindSet
kind_set [] = []
kind_set (k ∷ ks) = insert (kind_set ks) k tt

pub set_allowed_kinds : RelayPolicy → List ℕ → RelayPolicy
set_allowed_kinds p kinds = record p { allowed_kinds = kind_set kinds }

pub add_allowed_kind : RelayPolicy → ℕ → RelayPolicy
add_allowed_kind p kind = record p { allowed_kinds = insert p.allowed_kinds kind tt }

pub add_disallowed_kind : RelayPolicy → ℕ → RelayPolicy
add_disallowed_kind p kind = record p { disallowed_kinds = insert p.disallowed_kinds kind tt }

pub data Reason : Type 0 where
  rate_exceeded : Reason
  blacklisted : Reason
  not_whitelisted : Reason
  too_large : ℕ → Reason
  kind_disallowed : ℕ → Reason
  kind_not_listed : ℕ → Reason

pub data PolicyResult : Type 0 where
  accept : PolicyResult
  reject : Reason → PolicyResult

abbrev pub is_empty : {K V : Type 0} → HashMap K V → Bool
is_empty m = len m == 0

-- The entry of an address, with the window of this minute.
abbrev pub window_of : Option (ℕ × ℕ) → ℕ → ℕ × ℕ
window_of none minute = (minute, 0)
window_of (some (window, count)) minute = if window == minute then (window, count) else (minute, 0)

abbrev pub pruned : HashMap Text (ℕ × ℕ) → ℕ → HashMap Text (ℕ × ℕ)
pruned rates minute = if leb 10_000 (len rates) then retain (λ _ w. w.0 == minute) rates else rates

-- The part of `check_event` under `event_rate_per_min`.
pub check_rate : RelayPolicy → Text → ℕ → RelayPolicy × Bool
check_rate p ip minute =
    let rates = pruned p.event_rates minute in
    let (window, count) = window_of (get rates ip) minute in
    if ltb 0 p.event_rate_per_min
    then (if leb p.event_rate_per_min count
        then (record p { event_rates = insert rates ip (window, count) }, false)
        else (record p { event_rates = insert rates ip (window, count + 1) }, true))
    else (p, true)

module _ (event_size : NostrEvent → ℕ) where
  -- The checks under "Admins bypass all restrictions".
  pub judge : RelayPolicy → NostrEvent → PolicyResult
  judge p event =
      if contains_key p.admins event.pubkey
      then accept
      else if contains_key p.blacklist event.pubkey
      then reject blacklisted
      else if not (is_empty p.whitelist) && not (contains_key p.whitelist event.pubkey)
      then reject not_whitelisted
      else if ltb 0 p.max_event_size && ltb p.max_event_size (event_size event)
      then reject (too_large (event_size event))
      else if contains_key p.disallowed_kinds event.kind
      then reject (kind_disallowed event.kind)
      else if not (is_empty p.allowed_kinds) && not (contains_key p.allowed_kinds event.kind)
      then reject (kind_not_listed event.kind)
      else accept

  pub check_event : RelayPolicy → NostrEvent → Text → ℕ → RelayPolicy × PolicyResult
  unfolding check_rate judge
  check_event p event ip now =
      let (p, allowed) = check_rate p ip (now / 60) in
      if allowed then (p, judge p event) else (p, reject rate_exceeded)
