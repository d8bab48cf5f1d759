-- ===== src/GitServer/Fuel.antt =====
-- The fuel of parse_ref_updates.
use blossom_rs.Prelude.{
  ℕ, zero, suc, ◌-◌, ◌≢◌, ◌≤◌, Bool, arith, nat_key, list_key, Text, List, Bool-cases, Option-cases,
  inl, inr, Option, none, some, length, ltb, leb, take, drop, length-drop,
}
use blossom_rs.GitServer.{
  RefUpdate, Parsed, ok, err, out_of_fuel, is_update, and_update, from_str_radix_16, checked_update,
  with_ref, with_new, parse_ref_update, parse_line, parse_lines, parse_ref_updates, split_once,
  strip_newline,
}

-- A result that is not for want of fuel.
abbrev Returns : {A : Type 0} → Parsed A → Type 0
Returns r = r ≢ err out_of_fuel

checked_update-Returns :
    (old_oid new_oid ref_with_caps : Text) → Returns (checked_update old_oid new_oid ref_with_caps)
checked_update-Returns old_oid new_oid ref_with_caps h = ground (arith, h)

with_ref-Returns : (old_oid : Text) (p : Text × Option Text) → Returns (with_ref old_oid p)
with_ref-Returns old_oid (new_oid, none) h = ground (arith, h)
with_ref-Returns old_oid (new_oid, some s) h = checked_update-Returns old_oid new_oid s h

with_new-Returns : (p : Text × Option Text) → Returns (with_new p)
with_new-Returns (old_oid, none) h = ground (arith, h)
with_new-Returns (old_oid, some s) h = with_ref-Returns old_oid (split_once b' ' s) h

shrinks :
    (fuel : ℕ) (body : Text) (len : ℕ)
    → length body ≤ suc fuel
    → 4 ≤ len
    → length (drop len body) ≤ fuel
shrinks fuel body len h four = ground (arith, h, four, length-drop len body)

module _ (is_utf8 : Text → Bool) where
  parse_ref_update-Returns : (payload : Text) → Returns (parse_ref_update is_utf8 payload)
  unfolding parse_ref_update
  parse_ref_update-Returns payload = elim (Bool-cases (is_utf8 (strip_newline payload))) [
    | inl e ↦ rw (e, parse_ref_update) (with_new-Returns (split_once b' ' (strip_newline payload)))
    | inr e ↦ rw (e, parse_ref_update) (λ h. ground (arith, h))
  ]

  and_update-Returns :
      (r : Parsed RefUpdate) (rest : Parsed (List RefUpdate))
      → Returns r
      → Returns rest
      → Returns (and_update r rest)
  and_update-Returns (err e) rest h k g = h (ground (arith, g))
  and_update-Returns (ok u) (err e) h k g = k (ground (arith, g))
  and_update-Returns (ok u) (ok us) h k g = ground (arith, g)

  parse_line-Returns :
      (len : ℕ) (body : Text) (rest : Parsed (List RefUpdate))
      → ((4 ≤ len) → Returns rest)
      → Returns (parse_line is_utf8 len body rest)
  parse_line-Returns len body rest k =
      let payload = take (len - 4) (drop 4 body) in
      elim (Bool-cases (leb len 2)) [
        | inl e ↦ rw e (λ g. ground (arith, g))
        | inr e ↦ elim (Bool-cases (ltb len 4)) [
          | inl f ↦ rw (e, f) (λ g. ground (arith, g))
          | inr f ↦
              let more : Returns rest = k (ground (arith, f)) in
              elim (Bool-cases (ltb (length body) len)) [
                | inl c ↦ rw (e, f, c) (λ g. ground (arith, g))
                | inr c ↦ elim (Bool-cases (is_update is_utf8 payload)) [
                  | inl u ↦
                      rw (e, f, c, u)
                        (and_update-Returns (parse_ref_update is_utf8 payload) rest
                          (parse_ref_update-Returns payload) more)
                  | inr u ↦ rw (e, f, c, u) more
                ]
              ]
        ]
      ]

  parse_lines-Returns :
      (fuel : ℕ) (body : Text) → length body ≤ fuel → Returns (parse_lines is_utf8 fuel body)
  unfolding parse_lines
  parse_lines-Returns zero body h = λ g. ground (arith, h, g)
  parse_lines-Returns (suc fuel) body h = elim (Bool-cases (ltb (length body) 4)) [
    | inl e ↦ rw e (λ g. ground (arith, g))
    | inr e ↦ elim (Bool-cases (is_utf8 (take 4 body))) [
      | inr f ↦ rw (e, f) (λ g. ground (arith, g))
      | inl f ↦ elim (Option-cases (from_str_radix_16 (take 4 body))) [
        | inl n ↦ rw (e, f, n, parse_lines) (λ g. ground (arith, g))
        | inr (len, n) ↦
            rw (e, f, n, parse_lines)
              (parse_line-Returns len body (parse_lines is_utf8 fuel (drop len body))
                (λ four. parse_lines-Returns fuel (drop len body) (shrinks fuel body len h four)))
      ]
    ]
  ]

  -- Whatever the body holds, its length is fuel enough: the parser comes to an end, with updates or with
  -- an error of its own.
  pub parse_ref_updates-Returns : (body : Text) → parse_ref_updates is_utf8 body ≢ err out_of_fuel
  unfolding parse_ref_updates
  parse_ref_updates-Returns body = parse_lines-Returns (length body) body (omega arith)
