-- ===== src/Relay/Tests.antt =====
-- The relay's policy on concrete input.
use blossom_rs.Prelude.{
  ℕ, ◌/◌, ◌≡◌, ◌≤◌, ◌⊎◌, ◌↔◌, refl, true, [], ◌∷◌, Text, bytes_of, list_key, nat_key, arith,
}
use blossom_rs.HashMap.{contains_key, get, insert}
use blossom_rs.Auth.{NostrEvent}
use blossom_rs.Relay.{
  RelayPolicy, with_config, add_blacklist, accept, reject, rate_exceeded, blacklisted, check_event,
  check_rate,
}
use blossom_rs.Relay.Verdict.{WithinRate, Unrestricted, check_event-accepted}
use blossom_rs.Relay.Rate.{Write, accepted_from, accepted_from-bounded}

abbrev size_of : NostrEvent → ℕ
size_of event = 100

abbrev ann : Text
ann = bytes_of "ann"

abbrev note : NostrEvent
note = record {
  id = bytes_of "i";
  pubkey = ann;
  created_at = 1;
  kind = 1;
  tags = [];
  content = [];
  sig = [];
}

-- Two events a minute, and ann is an admin who has used both from one address.
abbrev policy : RelayPolicy
policy = record {
  admins = (ann, tt) ∷ [];
  blacklist = (ann, tt) ∷ [];
  whitelist = [];
  max_event_size = 50;
  allowed_kinds = [];
  disallowed_kinds = [];
  event_rate_per_min = 2;
  event_rates = (bytes_of "1.2.3.4", (1, 2)) ∷ [];
}

admin_refused : (check_event size_of policy note (bytes_of "1.2.3.4") 70).1 ≡ reject rate_exceeded
unfolding check_event check_rate get
admin_refused = refl

admin_next_minute : (check_event size_of policy note (bytes_of "1.2.3.4") 130).1 ≡ accept
unfolding check_event check_rate get contains_key
admin_next_minute = refl

blacklisted_by_default :
    (check_event size_of (add_blacklist (with_config [] 0 5) ann) note (bytes_of "x") 70).1
    ≡ reject blacklisted
unfolding check_event check_rate get contains_key insert with_config add_blacklist
blacklisted_by_default = refl

check_event-accepted_example :
    ((check_event size_of policy note (bytes_of "1.2.3.4") 130).1 ≡ accept) ↔ (
      WithinRate policy (bytes_of "1.2.3.4") (130 / 60)
      × ((contains_key policy.admins note.pubkey ≡ true) ⊎ Unrestricted size_of policy note))
check_event-accepted_example = check_event-accepted size_of policy note (bytes_of "1.2.3.4") 130

abbrev write : ℕ → Write
write now = record { event = note; ip = bytes_of "1.2.3.4"; now = now }

accepted_from-bounded_example :
    accepted_from size_of policy (bytes_of "1.2.3.4") (write 121 ∷ write 122 ∷ write 123 ∷ [])
    ≤ policy.event_rate_per_min
unfolding contains_key
accepted_from-bounded_example =
    accepted_from-bounded size_of policy (bytes_of "1.2.3.4") 2
      (write 121 ∷ write 122 ∷ write 123 ∷ []) (refl, tt) (omega arith) (refl, (refl, (refl, tt)))
