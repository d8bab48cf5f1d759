-- ===== src/Stats/Tests.antt =====
-- The access counters on concrete input.
use blossom_rs.Prelude.{◌+◌, ◌%◌, ◌^◌, ◌≡◌, refl, [], nat_key, list_key, Text, bytes_of}
use blossom_rs.HashMap.{get, insert}
use blossom_rs.Db.{empty}
use blossom_rs.Stats.{StatsAccumulator, record_access, flush, tracked_count, get_egress}
use blossom_rs.Stats.Flush.{stored_egress, flush-kept}

abbrev h : Text
h = bytes_of "h"

abbrev reads : StatsAccumulator
reads = record_access (record_access (record { counters = [] }) h 100 1) h 50 2

served_bytes : get_egress reads h ≡ 150
unfolding get_egress record_access get insert
served_bytes = refl

flush-kept_example :
    let (left, written) = flush reads empty 3 in
    (tracked_count left ≡ 0)
    × (stored_egress written h % 2 ^ 64 ≡ (stored_egress empty h + get_egress reads h) % 2 ^ 64)
flush-kept_example = flush-kept reads empty 3 h
