-- ===== src/Relay/Verdict.antt =====
-- Which events a policy accepts.
use blossom_rs.Prelude.{
  ℕ, ◌/◌, ◌≡◌, ◌≤◌, ◌<◌, ◌↔◌, ◌⊎◌, refl, true, false, arith, nat_key, list_key, Text, Bool-cases,
  inl, inr, ltb, leb, false≢true,
}
use blossom_rs.HashMap.{get, contains_key, len}
use blossom_rs.Auth.{NostrEvent}
use blossom_rs.Relay.{RelayPolicy, accept, check_event, check_rate, judge, window_of, pruned}

-- The address has not spent the events of this minute, or there is no limit.
abbrev pub WithinRate : RelayPolicy → Text → ℕ → Type 0
WithinRate p ip minute =
    (p.event_rate_per_min ≡ 0)
    ⊎ ((window_of (get (pruned p.event_rates minute) ip) minute).1 < p.event_rate_per_min)

module _ (event_size : NostrEvent → ℕ) where
  -- Neither the key, the size nor the kind of an event is against the policy.
  abbrev pub Unrestricted : RelayPolicy → NostrEvent → Type 0
  Unrestricted p event =
      (contains_key p.blacklist event.pubkey ≡ false)
      × ((len p.whitelist ≡ 0) ⊎ (contains_key p.whitelist event.pubkey ≡ true))
      × ((p.max_event_size ≡ 0) ⊎ (event_size event ≤ p.max_event_size))
      × (contains_key p.disallowed_kinds event.kind ≡ false)
      × ((len p.allowed_kinds ≡ 0) ⊎ (contains_key p.allowed_kinds event.kind ≡ true))

  judge-accepts :
      (p : RelayPolicy) (event : NostrEvent)
      → (judge event_size p event ≡ accept)
        ↔ ((contains_key p.admins event.pubkey ≡ true) ⊎ Unrestricted p event)
  unfolding judge
  judge-accepts p event = ground arith

  check_rate-allows :
      (p : RelayPolicy) (ip : Text) (minute : ℕ)
      → ((check_rate p ip minute).1 ≡ true) ↔ WithinRate p ip minute
  unfolding check_rate
  check_rate-allows p ip minute = ground arith

  judge-check_rate :
      (p : RelayPolicy) (event : NostrEvent) (ip : Text) (minute : ℕ)
      → judge event_size (check_rate p ip minute).0 event ≡ judge event_size p event
  unfolding check_rate judge
  judge-check_rate p event ip minute = elim (Bool-cases (ltb 0 p.event_rate_per_min)) [
    | inr e ↦ rw (e, judge) refl
    | inl e ↦
        elim (Bool-cases
          (leb p.event_rate_per_min (window_of (get (pruned p.event_rates minute) ip) minute).1)) [
            | inl f ↦ rw (e, f, judge) refl
            | inr f ↦ rw (e, f, judge) refl
          ]
  ]

  -- An event is accepted exactly if its address has not spent the events of this minute, and its key is
  -- an admin's or nothing is against it. The limit on the rate holds for admins too.
  pub check_event-accepted :
      (p : RelayPolicy) (event : NostrEvent) (ip : Text) (now : ℕ)
      → ((check_event event_size p event ip now).1 ≡ accept) ↔ (
          WithinRate p ip (now / 60)
          × ((contains_key p.admins event.pubkey ≡ true) ⊎ Unrestricted p event))
  unfolding check_event
  check_event-accepted p event ip now =
      let rate = check_rate-allows p ip (now / 60) in
      let verdict = judge-accepts p event in
      elim (Bool-cases (check_rate p ip (now / 60)).1) [
        | inl e ↦
            rw (e, judge-check_rate p event ip (now / 60))
              (λ h. (rate.0 e, verdict.0 h), λ h. verdict.1 h.1)
        | inr e ↦
            rw e (λ h. absurd (ground (arith, h)), λ h. absurd (false≢true (rw (← e) (rate.1 h.0))))
      ]
