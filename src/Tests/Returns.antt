-- ===== src/Tests/Returns.antt =====
-- The return path table, with one packet.
use real_layer.Base.{String, ◌≡◌, refl, List, [], ◌∷◌, ok, err, arith, string_eq, list_eq, nat_eq}
use real_layer.Base.Map.{get, insert, remove, retain, contains_key}
use real_layer.Network.Session.Types.{SessionId}
use real_layer.Network.ReturnPath.{
  ReturnPathKey, ReturnPathMapping, ReturnPathTable, path_eq, register, lookup, consume, expire,
  find, spend, replayed, duplicate,
}
use real_layer.Network.ReturnPath.Expiry.{run, consume_once}
use real_layer.Network.ReturnPath.Bounds.{
  Op, register_at, consume_at, drop_all, expire_at, IsBounded,
}

abbrev packet : SessionId
packet = 9 ∷ []

abbrev key : ReturnPathKey String
key = record {
  session_id = 7 ∷ [];
  packet_id = packet;
  source_identity = "alice";
  entry_peer = "bob";
  exit_peer = "carol";
}

abbrev wrong : ReturnPathKey String
wrong = record key { exit_peer = "dave" }

abbrev mapping : ReturnPathMapping String
mapping = record { key = key; expires_at = 30 }

abbrev table : ReturnPathTable String
table = record { entries = (packet, mapping) ∷ []; consumed = []; maximum = 2; lifetime = 30 }

table-IsBounded : IsBounded table
unfolding get
table-IsBounded = record { unique = (refl, tt); unique_consumed = tt; bounded = omega arith }

abbrev after : ReturnPathTable String
after = (consume 10 11 packet key table).0

consumed : consume 10 11 packet key table ≡ (after, ok mapping)
unfolding consume lookup expire find spend get insert remove retain contains_key
consumed = refl

-- Calls between: another packet is registered and consumed, and the session is dropped.
abbrev calls : List (Op String)
calls =
    register_at 12 12 (record key { packet_id = 8 ∷ [] })
    ∷ consume_at 13 14 (8 ∷ []) (record key { packet_id = 8 ∷ [] })
    ∷ drop_all (7 ∷ [])
    ∷ expire_at 39
    ∷ []

consume_once_example :
    ((lookup 40 packet wrong (run calls after)).1 ≡ err replayed)
    × ((consume 40 40 packet wrong (run calls after)).1 ≡ err replayed)
    × ((register 40 40 (record wrong { packet_id = packet }) (run calls after)).1 ≡ err duplicate)
consume_once_example =
    consume_once 10 11 40 packet key wrong table after mapping calls table-IsBounded consumed
      (omega arith, (omega arith, (tt, (omega arith, tt)))) (omega arith)
