-- ===== src/Relay/Rate.antt =====
-- How many events of an address a policy accepts in a minute.
use blossom_rs.Prelude.{
  ℕ, ◌+◌, ◌-◌, ◌/◌, ◌≡◌, ◌⊎◌, ◌≤◌, ◌<◌, refl, Bool, true, false, arith, ◌==◌, ◌&&◌, nat_key,
  list_key, list_same_iff, Text, List, [], ◌∷◌, Bool-cases, inl, inr, ltb, leb, ap, sym, ◌∙◌,
  if◌then◌else◌, Option, none, some,
}
use blossom_rs.HashMap.{
  HashMap, get, insert, len, IsMap, IsMap-insert, IsMap-retain, get-insert, get-retain, kept,
}
use blossom_rs.Auth.{NostrEvent}
use blossom_rs.Relay.{
  RelayPolicy, PolicyResult, accept, reject, check_event, check_rate, window_of, pruned,
}

-- The events of an address in this minute, so far.
abbrev pub used : HashMap Text (ℕ × ℕ) → Text → ℕ → ℕ
used rates ip minute = (window_of (get rates ip) minute).1

window_of-kept :
    (found : Option (ℕ × ℕ)) (minute : ℕ)
    → window_of (kept {K = Text} (λ _ w. w.0 == minute) [] found) minute ≡ window_of found minute
window_of-kept none minute = refl
window_of-kept (some (window, count)) minute = ground arith

pruned-used :
    (rates : HashMap Text (ℕ × ℕ)) (ip : Text) (minute : ℕ)
    → IsMap rates
    → used (pruned rates minute) ip minute ≡ used rates ip minute
pruned-used rates ip minute h = elim (Bool-cases (leb 10_000 (len rates))) [
  | inr e ↦ rw e refl
  | inl e ↦ rw e (
      ap (λ o. (window_of o minute).1) (get-retain (λ _ w. w.0 == minute) rates ip h)
      ∙ ap (λ w. w.1) (window_of-kept (get rates ip) minute))
]

pruned-IsMap :
    (rates : HashMap Text (ℕ × ℕ)) (minute : ℕ) → IsMap rates → IsMap (pruned rates minute)
pruned-IsMap rates minute h = elim (Bool-cases (leb 10_000 (len rates))) [
  | inr e ↦ rw e h
  | inl e ↦ rw e (IsMap-retain (λ _ w. w.0 == minute) rates h)
]

window_of-now : (found : Option (ℕ × ℕ)) (minute : ℕ) → (window_of found minute).0 ≡ minute
window_of-now none minute = refl
window_of-now (some (window, count)) minute = ground arith

used-insert :
    (rates : HashMap Text (ℕ × ℕ)) (j ip : Text) (window count minute : ℕ)
    → window ≡ minute
    → used (insert rates j (window, count)) ip minute
      ≡ (if j == ip then count else used rates ip minute)
used-insert rates j ip window count minute e =
    ap (λ o. (window_of o minute).1) (get-insert rates j ip (window, count))
    ∙ elim (Bool-cases (j == ip)) [ inl s ↦ rw s (ground (arith, e)) | inr d ↦ rw d refl ]

-- One more for the address itself where the event passes, and none else.
abbrev counted : Bool → Bool → ℕ
counted passed same = if passed && same then 1 else 0

left_as_is :
    (hit : Bool) (count u v : ℕ)
    → u ≡ v
    → (hit ≡ true → u ≡ count)
    → (if hit then count else u) ≡ v + counted false hit
left_as_is hit count u v e s = ground (arith, e, s)

one_more :
    (hit : Bool) (count u v : ℕ)
    → u ≡ v
    → (hit ≡ true → u ≡ count)
    → (if hit then count + 1 else u) ≡ v + counted true hit
one_more hit count u v e s = ground (arith, e, s)

room :
    (hit : Bool) (count u v limit : ℕ)
    → u ≡ v
    → (hit ≡ true → u ≡ count)
    → leb limit count ≡ false
    → (v + counted true hit ≤ limit) ⊎ (counted true hit ≡ 0)
room hit count u v limit e s h = ground (arith, e, s)

check_rate-step :
    (p : RelayPolicy) (j ip : Text) (minute : ℕ)
    → IsMap p.event_rates
    → 0 < p.event_rate_per_min
    → let (q, passed) = check_rate p j minute in
      IsMap q.event_rates
      × (q.event_rate_per_min ≡ p.event_rate_per_min)
      × (used q.event_rates ip minute ≡ used p.event_rates ip minute + counted passed (j == ip))
      × ((used p.event_rates ip minute + counted passed (j == ip) ≤ p.event_rate_per_min)
          ⊎ (counted passed (j == ip) ≡ 0))
unfolding check_rate
check_rate-step p j ip minute h limit =
    let rates = pruned p.event_rates minute in
    let map = pruned-IsMap p.event_rates minute h in
    let w = window_of (get rates j) minute in
    let own = pruned-used p.event_rates j minute h in
    let other = pruned-used p.event_rates ip minute h in
    let now = window_of-now (get rates j) minute in
    let same : (s : (j == ip) ≡ true) → used rates ip minute ≡ w.1 =
      λ s. ap (λ k. used rates k minute) (sym ((list_same_iff j ip).0 s)) in
    let on : ltb 0 p.event_rate_per_min ≡ true = ground arith in
    elim (Bool-cases (leb p.event_rate_per_min w.1)) [
      | inl e ↦
          rw (on, e)
            (
              IsMap-insert rates j w map,
              refl,
              used-insert rates j ip w.0 w.1 minute now
                  ∙ left_as_is (j == ip) w.1 (used rates ip minute) (used p.event_rates ip minute)
                      other same,
              inr refl,
            )
      | inr e ↦
          rw (on, e)
            (
              IsMap-insert rates j (w.0, w.1 + 1) map,
              refl,
              used-insert rates j ip w.0 (w.1 + 1) minute now
                  ∙ one_more (j == ip) w.1 (used rates ip minute) (used p.event_rates ip minute)
                      other same,
              room (j == ip) w.1 (used rates ip minute) (used p.event_rates ip minute)
                  p.event_rate_per_min other same e,
            )
    ]

-- An event that is written from an address at a time in seconds.
pub record Write : Type 0 where
  pub event : NostrEvent
  pub ip : Text
  pub now : ℕ

abbrev is_accept : PolicyResult → Bool
is_accept accept = true
is_accept (reject r) = false

-- All the writes are in one minute.
abbrev pub InMinute : ℕ → List Write → Type 0
InMinute minute [] = Unit
InMinute minute (w ∷ ws) = (w.now / 60 ≡ minute) × InMinute minute ws

add_up :
    (a c rest after before limit limit' : ℕ)
    → a ≤ c
    → limit' ≡ limit
    → rest ≤ limit' - after
    → after ≡ before + c
    → (before + c ≤ limit) ⊎ (c ≡ 0)
    → a + rest ≤ limit - before
add_up a c rest after before limit limit' h l k e room = ground (arith, h, l, k, e, room)

module _ (event_size : NostrEvent → ℕ) where
  -- How many of the writes from an address are accepted, one after another.
  pub accepted_from : RelayPolicy → Text → List Write → ℕ
  unfolding check_event
  accepted_from p ip [] = 0
  accepted_from p ip (w ∷ ws) =
      let (q, r) = check_event event_size p w.event w.ip w.now in
      counted (is_accept r) (w.ip == ip) + accepted_from q ip ws

  check_event-rate :
      (p : RelayPolicy) (w : Write) (ip : Text)
      → let (q, r) = check_event event_size p w.event w.ip w.now in
        let (q', passed) = check_rate p w.ip (w.now / 60) in
        (q ≡ q') × (counted (is_accept r) (w.ip == ip) ≤ counted passed (w.ip == ip))
  unfolding check_event
  check_event-rate p w ip = elim (Bool-cases (check_rate p w.ip (w.now / 60)).1) [
    | inl e ↦ rw e (refl, ground arith)
    | inr e ↦ rw e (refl, ground arith)
  ]

  accepted_from-le :
      (p : RelayPolicy) (ip : Text) (minute : ℕ) (ws : List Write)
      → IsMap p.event_rates
      → 0 < p.event_rate_per_min
      → InMinute minute ws
      → accepted_from p ip ws ≤ p.event_rate_per_min - used p.event_rates ip minute
  unfolding accepted_from
  accepted_from-le p ip minute [] h limit m = ground arith
  accepted_from-le p ip minute (w ∷ ws) h limit m =
      let q = (check_rate p w.ip (w.now / 60)).0 in
      let passed = (check_rate p w.ip (w.now / 60)).1 in
      let (state, fewer) = check_event-rate p w ip in
      let (map, same, more, room) = check_rate-step p w.ip ip (w.now / 60) h limit in
      let rest : accepted_from q ip ws ≤ q.event_rate_per_min - used q.event_rates ip (w.now / 60) =
        accepted_from-le q ip (w.now / 60) ws map (rw same limit) (rw m.0 m.1) in
      rw (← m.0, state)
        (add_up (counted (is_accept (check_event event_size p w.event w.ip w.now).1) (w.ip == ip))
          (counted passed (w.ip == ip)) (accepted_from q ip ws) (used q.event_rates ip (w.now / 60))
          (used p.event_rates ip (w.now / 60)) p.event_rate_per_min q.event_rate_per_min fewer same
          rest more room)

  -- From one address, and in one minute, a policy with a limit accepts at most so many events, whatever
  -- else is written in between, where the table has an address once.
  pub accepted_from-bounded :
      (p : RelayPolicy) (ip : Text) (minute : ℕ) (ws : List Write)
      → IsMap p.event_rates
      → 0 < p.event_rate_per_min
      → InMinute minute ws
      → accepted_from p ip ws ≤ p.event_rate_per_min
  accepted_from-bounded p ip minute ws h limit m =
      ground (arith, accepted_from-le p ip minute ws h limit m)
