-- ===== src/ReplayCache/Tests.antt =====
-- The replay cache on concrete input.
use blossom_rs.Prelude.{
  ◌≤◌, ◌≡◌, refl, false, List, [], ◌∷◌, nat_key, list_key, arith, Text, bytes_of,
}
use blossom_rs.HashMap.{len, get, insert, remove, contains_key}
use blossom_rs.ReplayCache.{ReplayCache, new, check_and_insert}
use blossom_rs.ReplayCache.Shrinking.{share}
use blossom_rs.ReplayCache.Calls.{Presented, present, present-bounded}

abbrev ann : Text
ann = bytes_of "ann"

abbrev four : List Presented
four =
    (ann, bytes_of "a", 1, 121)
    ∷ (ann, bytes_of "b", 1, 121)
    ∷ (ann, bytes_of "c", 2, 122)
    ∷ (bytes_of "bob", bytes_of "d", 2, 122)
    ∷ []

present-bounded_example :
    (len (present (new 3 2) four).entries ≤ 3) × (share (present (new 3 2) four) ann ≤ 2)
present-bounded_example = present-bounded 3 2 four ann (omega arith) (omega arith)

oldest_of_ann_goes : contains_key (present (new 3 2) four).entries (bytes_of "a") ≡ false
unfolding contains_key present new get insert blossom_rs.ReplayCache.remove_id remove
oldest_of_ann_goes = refl
