-- ===== src/Loading/Files.antt =====
-- What a bot starts with, whatever its file holds.
use lockbot.Base.{
  ℕ, ◌+◌, ◌≡◌, refl, sym, ap, subst, Option, none, some, List, [], ◌∷◌, ◌==◌, dedup_onto, if-either,
  elim-either, map, Each,
}
use lockbot.Keys.{Key, machine, key_eq}
use lockbot.State.{Entry, Card, Store, Fleet, modify}
use lockbot.Config.{Config, in_cluster}
use lockbot.Loading.{
  RawEntry, Directory, load_entry, default_node_state, load_nodes, migrate_old_state_file,
  read_state, Loaded, save_clamped, dump_nodes, create_or_load_node_state,
}
use lockbot.Loading.Devices.{
  RawCard, default_cards, default_fleet, last_card, load_card_entry, load_cards, load_machine,
  load_fleet, dump_fleet, create_or_load_device_state,
}
use lockbot.Loading.Loads.{
  HasBegun, CardHasBegun, Throughout, read-Throughout, load_nodes-loads, load_fleet-loads,
}
use lockbot.Loading.Clamped.{
  StoreCapped, FleetCapped, NodesCapped, LoadedFleet, load_nodes-NodesCapped,
  load_fleet-LoadedFleet, default_node_state-StoreCapped, default_fleet-FleetCapped,
}

-- The keys of a store; the cards of a fleet with their indices and models.
abbrev pub keys : Store → List Key
keys = map (λ p. p.0)

abbrev pub cards : List Card → List (ℕ × ℕ)
cards = map (λ c. (c.dev_id, c.dev_model))

abbrev pub machines : Fleet → List (ℕ × List (ℕ × ℕ))
machines = map (λ m. (m.0, cards m.1))

-- The cards of a configuration: each model under its place in the list.
abbrev pub numbered : ℕ → List ℕ → List (ℕ × ℕ)
numbered n [] = []
numbered n (model ∷ models) = (n, model) ∷ numbered (n + 1) models

keys-modify : (f : Key → Entry → Entry) (k : Key) (s : Store) → keys (modify f k s) ≡ keys s
unfolding modify
keys-modify f k [] = refl
keys-modify f k ((j, e) ∷ s) =
    if-either (λ s'. keys s' ≡ j ∷ keys s) (key_eq j k) (λ hit. refl)
      (λ miss. ap (λ ks. j ∷ ks) (keys-modify f k s))

keys-default_node_state :
    (cluster : List (ℕ × List ℕ))
    → keys (default_node_state cluster) ≡ map (λ c. machine c.0) cluster
unfolding default_node_state
keys-default_node_state [] = refl
keys-default_node_state (c ∷ cluster) =
    ap (λ ks. machine c.0 ∷ ks) (keys-default_node_state cluster)

cards-default_cards : (n : ℕ) (models : List ℕ) → cards (default_cards n models) ≡ numbered n models
unfolding default_cards
cards-default_cards n [] = refl
cards-default_cards n (m ∷ ms) = ap (λ l. (n, m) ∷ l) (cards-default_cards (n + 1) ms)

machines-default_fleet :
    (cluster : List (ℕ × List ℕ))
    → machines (default_fleet cluster) ≡ map (λ c. (c.0, numbered 0 c.1)) cluster
unfolding default_fleet
machines-default_fleet [] = refl
machines-default_fleet (c ∷ cluster) =
    rw (cards-default_cards 0 c.1, machines-default_fleet cluster) refl

module _ (now : ℕ) (cfg : Config) where
  abbrev SameKeys : List Key → Option (Store × List ℕ) → Type 0
  SameKeys ks none = Unit
  SameKeys ks (some (s, ids)) = keys s ≡ ks

  load_nodes-SameKeys :
      (rs : List (ℕ × RawEntry)) (s : Store) (ids : List ℕ)
      → SameKeys (keys s) (load_nodes now cfg rs s ids)
  unfolding load_nodes
  load_nodes-SameKeys [] s ids = refl
  load_nodes-SameKeys ((key, r) ∷ rs) s ids =
      if-either (SameKeys (keys s)) (in_cluster key cfg.cluster)
        (λ inside.
          elim-either (SameKeys (keys s)) (load_entry now cfg r) (λ fails. tt)
            (λ p loads.
              subst
                (λ ks. SameKeys ks (
                  load_nodes now cfg rs (modify (λ k old. p.0) (machine key) s)
                    (dedup_onto ◌==◌ ids p.1)))
                (keys-modify (λ k old. p.0) (machine key) s)
                (load_nodes-SameKeys rs (modify (λ k old. p.0) (machine key) s)
                  (dedup_onto ◌==◌ ids p.1))))
        (λ outside. load_nodes-SameKeys rs s ids)

  abbrev SameCards : List (ℕ × ℕ) → Option (List Card × List ℕ) → Type 0
  SameCards l none = Unit
  SameCards l (some (cs, ids)) = cards cs ≡ l

  load_cards-SameCards :
      (old : List RawCard) (cs : List Card) (ids : List ℕ)
      → SameCards (cards cs) (load_cards now cfg old cs ids)
  unfolding load_cards
  load_cards-SameCards old [] ids = refl
  load_cards-SameCards old (c ∷ cs) ids =
      let P = SameCards (cards (c ∷ cs)) in
      let first : ℕ × ℕ = (c.dev_id, c.dev_model) in
      elim-either P (last_card c.dev_id old)
        (λ missing.
          elim-either P (load_cards now cfg old cs ids) (λ fails. tt)
            (λ p e.
              ap (λ l. first ∷ l)
                (subst (SameCards (cards cs)) e (load_cards-SameCards old cs ids))))
        (λ r there.
          elim-either P (load_card_entry now cfg r) (λ fails. tt)
            (λ p loads.
              elim-either P (load_cards now cfg old cs (dedup_onto ◌==◌ ids p.1)) (λ fails. tt)
                (λ q e.
                  ap (λ l. first ∷ l)
                    (subst (SameCards (cards cs)) e
                      (load_cards-SameCards old cs (dedup_onto ◌==◌ ids p.1))))))

  abbrev SameMachines : List (ℕ × List (ℕ × ℕ)) → Option (Fleet × List ℕ) → Type 0
  SameMachines l none = Unit
  SameMachines l (some (f, ids)) = machines f ≡ l

  load_machine-SameMachines :
      (key : ℕ) (old : List RawCard) (f : Fleet) (ids : List ℕ)
      → SameMachines (machines f) (load_machine now cfg key old f ids)
  unfolding load_machine
  load_machine-SameMachines key old [] ids = refl
  load_machine-SameMachines key old (m ∷ f) ids =
      let P = SameMachines (machines (m ∷ f)) in
      if-either P (m.0 == key)
        (λ here.
          elim-either P (load_cards now cfg old m.1 ids) (λ fails. tt)
            (λ p e.
              ap (λ l. (m.0, l) ∷ machines f)
                (subst (SameCards (cards m.1)) e (load_cards-SameCards old m.1 ids))))
        (λ there.
          elim-either P (load_machine now cfg key old f ids) (λ fails. tt)
            (λ p e.
              ap (λ l. (m.0, cards m.1) ∷ l)
                (subst (SameMachines (machines f)) e (load_machine-SameMachines key old f ids))))

  load_fleet-SameMachines :
      (rs : List (ℕ × List RawCard)) (f : Fleet) (ids : List ℕ)
      → SameMachines (machines f) (load_fleet now cfg rs f ids)
  unfolding load_fleet
  load_fleet-SameMachines [] f ids = refl
  load_fleet-SameMachines ((key, old) ∷ rs) f ids =
      let P = SameMachines (machines f) in
      if-either P (in_cluster key cfg.cluster)
        (λ inside.
          elim-either P (load_machine now cfg key old f ids) (λ fails. tt)
            (λ p e.
              subst (λ l. SameMachines l (load_fleet now cfg rs p.0 p.1))
                (subst P e (load_machine-SameMachines key old f ids))
                (load_fleet-SameMachines rs p.0 p.1)))
        (λ outside. load_fleet-SameMachines rs f ids)

-- What a loader gives: it does not fail, and every node or card of the cluster is there, in order, with
-- no lease that outlives the limit.
abbrev pub NodeStart : ℕ → Config → Option (Loaded RawEntry Store) → Type 0
NodeStart now cfg o =
    (l : Loaded RawEntry Store) × (o ≡ some l)
    × (keys l.state ≡ map (λ c. machine c.0) cfg.cluster)
    × StoreCapped now cfg l.state

abbrev pub DeviceStart : ℕ → Config → Option (Loaded (List RawCard) Fleet) → Type 0
DeviceStart now cfg o =
    (l : Loaded (List RawCard) Fleet) × (o ≡ some l)
    × (machines l.state ≡ map (λ c. (c.0, numbered 0 c.1)) cfg.cluster)
    × FleetCapped now cfg l.state

save_clamped-state {ℓ} :
    {A S : Type ℓ} (dump : S → List (ℕ × A)) (s : S) (ids : List ℕ) (d : Directory A)
    → (save_clamped dump s ids d).state ≡ s
unfolding save_clamped
save_clamped-state dump s [] d = refl
save_clamped-state dump s (i ∷ is) d = refl

module _ (now : ℕ) (cfg : Config) where
  start_nodes :
      (o : Option (Store × List ℕ)) (d : Directory RawEntry) (p : Store × List ℕ)
      → o ≡ some p
      → SameKeys now cfg (map (λ c. machine c.0) cfg.cluster) o
      → NodesCapped now cfg o
      → NodeStart now cfg (elim o as (λ x. Option (Loaded RawEntry Store)) [
        | none ↦ none
        | some (state, ids) ↦ some (save_clamped dump_nodes state ids d)
      ])
  start_nodes none d p loads same capped = cc
  start_nodes (some (s, ids)) d p loads same capped =
      let both =
        subst (λ s'. (keys s' ≡ map (λ c. machine c.0) cfg.cluster) × StoreCapped now cfg s')
          (sym (save_clamped-state dump_nodes s ids d)) (same, capped) in
      (save_clamped dump_nodes s ids d, refl, both.0, both.1)

  start_fleet :
      (o : Option (Fleet × List ℕ)) (d : Directory (List RawCard)) (p : Fleet × List ℕ)
      → o ≡ some p
      → SameMachines now cfg (map (λ c. (c.0, numbered 0 c.1)) cfg.cluster) o
      → LoadedFleet now cfg o
      → DeviceStart now cfg (elim o as (λ x. Option (Loaded (List RawCard) Fleet)) [
        | none ↦ none
        | some (state, ids) ↦ some (save_clamped dump_fleet state ids d)
      ])
  start_fleet none d p loads same capped = cc
  start_fleet (some (f, ids)) d p loads same capped =
      let both =
        subst
          (λ f'.
            (machines f' ≡ map (λ c. (c.0, numbered 0 c.1)) cfg.cluster) × FleetCapped now cfg f')
          (sym (save_clamped-state dump_fleet f ids d)) (same, capped) in
      (save_clamped dump_fleet f ids d, refl, both.0, both.1)

-- Whatever the files of a bot hold, of the current or of an older layout, if every lease in them has
-- begun, and every card in them has a list of holders: the bot starts. It has an entry for each node of
-- its cluster and no other, in the cluster's order, and on nodes with cards one card for each model of
-- the configuration, numbered from 0; and there every lease that is no exempt user's ends within the
-- limit from now, if there is a limit.
pub create_or_load-Started :
    (now : ℕ) (cfg : Config) (dir : Directory RawEntry) (cards_dir : Directory (List RawCard))
    → Throughout (HasBegun now) dir
    → Throughout (Each (CardHasBegun now)) cards_dir
    → NodeStart now cfg (create_or_load_node_state now cfg dir)
      × DeviceStart now cfg (create_or_load_device_state now cfg cards_dir)
unfolding create_or_load_node_state create_or_load_device_state
create_or_load-Started now cfg dir cards_dir begun cards_begun =
    let d = migrate_old_state_file dir in
    let e = migrate_old_state_file cards_dir in
    let nodes_ = default_node_state cfg.cluster in
    let fleet_ = default_fleet cfg.cluster in
    let nodes_load =
      load_nodes-loads now cfg (read_state d.state_file) nodes_ [] (read-Throughout _ dir begun) in
    let fleet_loads =
      load_fleet-loads now cfg (read_state e.state_file) fleet_ []
        (read-Throughout _ cards_dir cards_begun) in
    (
      start_nodes now cfg (load_nodes now cfg (read_state d.state_file) nodes_ []) d nodes_load.0
          nodes_load.1
          (subst
            (λ ks. SameKeys now cfg ks (load_nodes now cfg (read_state d.state_file) nodes_ []))
            (keys-default_node_state cfg.cluster)
            (load_nodes-SameKeys now cfg (read_state d.state_file) nodes_ []))
          (load_nodes-NodesCapped now cfg (read_state d.state_file) nodes_ []
            (default_node_state-StoreCapped now cfg cfg.cluster)),
      start_fleet now cfg (load_fleet now cfg (read_state e.state_file) fleet_ []) e fleet_loads.0
          fleet_loads.1
          (subst
            (λ l. SameMachines now cfg l (load_fleet now cfg (read_state e.state_file) fleet_ []))
            (machines-default_fleet cfg.cluster)
            (load_fleet-SameMachines now cfg (read_state e.state_file) fleet_ []))
          (load_fleet-LoadedFleet now cfg (read_state e.state_file) fleet_ []
            (default_fleet-FleetCapped now cfg cfg.cluster)),
    )
