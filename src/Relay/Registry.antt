-- ===== src/Relay/Registry.antt =====
-- relay/src/registry.rs: the relays that are registered, by their identity.
use real_layer.Base.Map.{Map, get, insert, remove, contains_key}
use real_layer.Base.{
  Option, some, Result, ok, err, Eq, if◌then◌else◌, ok_or, ◌≡◌, refl, sym, true, false, arith,
}
use mathlib.Core.Path.{subst}
use real_layer.Base.Map.{contains_key-insert_same, contains_key-remove_same, get-insert_same}
use real_layer.Relay.Candidates.{RelayMetadata}

pub data RegistryError : Type 0 where
  already_registered not_found : RegistryError

pub record InMemoryRelayRegistry (P : Type 0) : Type 0 where
  pub relays : Map P (RelayMetadata P)

module _ {P : Type 0} ⦃e : Eq P⦄ where
  abbrev pub store : RelayMetadata P → InMemoryRelayRegistry P → InMemoryRelayRegistry P
  store m r = record { relays = insert m.peer_id m r.relays }

  unfoldable pub register :
      RelayMetadata P
      → InMemoryRelayRegistry P
      → InMemoryRelayRegistry P × Result RegistryError (Unit {0})
  register m r =
      if contains_key m.peer_id r.relays then (r, err already_registered) else (store m r, ok tt)

  unfoldable pub update :
      RelayMetadata P
      → InMemoryRelayRegistry P
      → InMemoryRelayRegistry P × Result RegistryError (Unit {0})
  update m r = if contains_key m.peer_id r.relays then (store m r, ok tt) else (r, err not_found)

  unfoldable pub find : P → InMemoryRelayRegistry P → Option (RelayMetadata P)
  find peer_id r = get peer_id r.relays

  unfoldable pub unregister :
      P → InMemoryRelayRegistry P → InMemoryRelayRegistry P × Result RegistryError (RelayMetadata P)
  unregister peer_id r =
      (record { relays = remove peer_id r.relays }, ok_or (get peer_id r.relays) not_found)

  -- A relay registers once: after it has registered, registering again fails and updating succeeds,
  -- until it is removed, after which it can register again; the last metadata is what is found.
  register-update :
      (m n : RelayMetadata P) (r : InMemoryRelayRegistry P)
      → n.peer_id ≡ m.peer_id
      → (register m r).1 ≡ ok tt
      → (let r₁ = (register m r).0 in
          let r₂ = (update n r₁).0 in
          ((register n r₁).1 ≡ err already_registered)
          × ((update n r₁).1 ≡ ok tt)
          × (find m.peer_id r₂ ≡ some n)
          × ((unregister m.peer_id r₂).1 ≡ ok n)
          × ((register m (unregister m.peer_id r₂).0).1 ≡ ok tt))
  unfolding register update find unregister
  register-update m n r same new =
      let fresh : contains_key m.peer_id r.relays ≡ false = ground arith in
      let m₁ = insert m.peer_id m r.relays in
      let known : contains_key n.peer_id m₁ ≡ true =
        subst (λ k. contains_key k m₁ ≡ true) (sym same)
          (contains_key-insert_same m.peer_id m r.relays) in
      let m₂ = insert n.peer_id n m₁ in
      let latest : get m.peer_id m₂ ≡ some n =
        subst (λ k. get k m₂ ≡ some n) same (get-insert_same n.peer_id n m₁) in
      (
        rw (fresh, known) refl,
        rw (fresh, known) refl,
        rw (fresh, known) latest,
        rw (fresh, known, latest) refl,
        rw (fresh, known, contains_key-remove_same m.peer_id m₂) refl,
      )
