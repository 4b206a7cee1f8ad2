-- ===== src/Tests/Translations.antt =====
-- The table of address translations, with two flows.
use real_layer.Base.{
  ℕ, String, ◌≡◌, ◌≢◌, refl, ap, List, [], ◌∷◌, some, ok, err, arith, string_eq, list_eq, nat_eq,
  false,
}
use real_layer.Base.Map.{get, get-empty, insert, remove, contains_key}
use real_layer.Network.Session.Types.{SessionId}
use real_layer.Network.Nat.Maps.{forget, forget_all}
use real_layer.Network.Nat.Sweep.{entries_where}
use real_layer.Network.Address.{IpAddr, v4, SocketAddr, socket_eq}
use real_layer.Network.Nat.{
  NatTable, NatMapping, FlowKey, flow_eq, new, create, cleanup, lookup_forward, lookup_reverse,
  mapping_for, allocate_port, binding_mismatch, add_mapping, search_port, port_count,
}
use real_layer.Network.Nat.Invariant.{
  IsConsistent, Op, create_at, forward_at, apply, run, run-IsConsistent,
}
use real_layer.Network.Nat.RoundTrip.{create-lookup}
use real_layer.Network.Nat.Ports.{address_at, allocate_port-free}

abbrev home : IpAddr
home = v4 203 0 113 1

abbrev session : SessionId
session = 7 ∷ []

abbrev other_session : SessionId
other_session = 8 ∷ []

abbrev flow : ℕ → FlowKey String
flow n = record {
  flow_id = n ∷ [];
  source = record { ip = v4 10 0 0 n; port = 5000 };
  destination = record { ip = v4 8 8 8 8; port = 53 };
  session_id = session;
  source_identity = "alice";
  entry_peer = "bob";
  exit_peer = "carol";
  protocol = 17;
}

abbrev empty_table : NatTable String
empty_table = record {
  tables = record { mappings = []; reverse = [] };
  maximum_mappings = 2;
  lifetime = 30;
  next_port = 65535;
  translated_address = home;
}

abbrev fresh : NatTable String
fresh = record empty_table { next_port = 40000 }

abbrev calls : List (Op String)
calls = create_at 0 1 (flow 1) ∷ create_at 2 3 (flow 2) ∷ forward_at 4 (flow 1) ∷ []

abbrev table : NatTable String
table = run calls fresh

table-IsConsistent : IsConsistent table
table-IsConsistent = run-IsConsistent home 2 30 fresh calls (unfold new in refl)

abbrev mapping_at : (n port expires : ℕ) → NatMapping String
mapping_at n port expires = mapping_for (flow n) (record { ip = home; port = port }) expires

other_flow : flow 1 ≢ flow 2
other_flow h = ground (arith, ap (λ (f : FlowKey String). f.flow_id) h)

first_mapping : get (flow 1) table.mappings ≡ some (mapping_at 1 40000 31)
unfolding run apply lookup_forward create cleanup get insert remove forget_all entries_where forget
    contains_key add_mapping allocate_port search_port port_count
first_mapping = refl

second_mapping : get (flow 2) table.mappings ≡ some (mapping_at 2 40001 33)
unfolding run apply lookup_forward create cleanup get insert remove forget_all entries_where forget
    contains_key add_mapping allocate_port search_port port_count
second_mapping = refl

empty_table-IsConsistent : IsConsistent empty_table
empty_table-IsConsistent = record {
  inverse = record {
    unique = tt;
    unique_reverse = tt;
    forth = λ k v found. absurd (get-empty k v [] refl found);
    back = λ a k found. absurd (get-empty a k [] refl found);
  };
  bounded = omega arith;
  range = (omega arith, omega arith);
}

created :
    create 3 5 (flow 1) empty_table
    ≡ ((create 3 5 (flow 1) empty_table).0, ok (mapping_at 1 65535 35))
unfolding run apply lookup_forward create cleanup get insert remove forget_all entries_where forget
    contains_key add_mapping allocate_port search_port port_count
created = refl

run-IsConsistent_example : IsConsistent (run calls fresh)
run-IsConsistent_example = run-IsConsistent home 2 30 fresh calls (unfold new in refl)

last_port_free : contains_key (address_at table 65535) table.reverse ≡ false
unfolding run apply lookup_forward create cleanup get insert remove forget_all entries_where forget
    contains_key add_mapping allocate_port search_port port_count
last_port_free = refl

allocate_port-free_example : (a : SocketAddr) × ((allocate_port table).1 ≡ ok a)
allocate_port-free_example =
    allocate_port-free table 65535 table-IsConsistent.range (omega arith, omega arith)
      last_port_free

create-lookup_example :
    (mapping_at 1 65535 35 ≡ mapping_for (flow 1) (record { ip = home; port = 65535 }) 35)
    × ((lookup_forward 34 (flow 1) (create 3 5 (flow 1) empty_table).0).1
        ≡ some (mapping_at 1 65535 35))
    × ((lookup_reverse 34
          (record { ip = home; port = 65535 })
          (flow 1)
          (create 3 5 (flow 1) empty_table).0).1
        ≡ ok (mapping_at 1 65535 35))
    × ((lookup_reverse 34
          (record { ip = home; port = 65535 })
          (flow 2)
          (create 3 5 (flow 1) empty_table).0).1
        ≡ err binding_mismatch)
create-lookup_example =
    create-lookup 3 5 34 empty_table (create 3 5 (flow 1) empty_table).0 (flow 1) (flow 2)
      (mapping_at 1 65535 35) empty_table-IsConsistent created (omega arith) other_flow
