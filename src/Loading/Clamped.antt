-- ===== src/Loading/Clamped.antt =====
-- No lease that is loaded outlives the limit of the configuration.
use lockbot.Base.{
  ℕ, ◌+◌, ◌≤◌, ◌≡◌, ◌⊎◌, inl, inr, subst, true, Option, none, some, List, [], ◌∷◌, ◌==◌,
  if◌then◌else◌, dedup_onto, elem, Each, ltb, arith, pos_part, Bool-cases, if-either, elim-either,
}
use lockbot.Users.{UserInfo, apply_max_duration_limit, remaining_duration, clamp_user}
use lockbot.Keys.{machine}
use lockbot.State.{Entry, Card, Store, Fleet, modify}
use lockbot.State.Laws.{EachEntry, modify-EachEntry}
use lockbot.Config.{Config, in_cluster}
use lockbot.Loading.{
  RawEntry, load_entry, migrate_user_info_fields, or_empty, idle_entry, default_node_state,
  load_nodes,
}
use lockbot.Loading.Devices.{
  RawCard, default_cards, default_fleet, last_card, load_card_entry, load_cards, load_machine,
  load_fleet,
}

-- The user is exempt, or there is no limit, or the lease ends within it.
abbrev pub IsCapped : ℕ → Config → UserInfo → Type 0
IsCapped now cfg u =
    (elem ◌==◌ u.user_id cfg.duration_whitelist ≡ true)
    ⊎ ((pos_part cfg.max_lock_duration ≡ 0)
        ⊎ (u.start_time + u.duration ≤ now + pos_part cfg.max_lock_duration))

module _ (now : ℕ) (cfg : Config) where
  abbrev pub EntryCapped : Entry → Type 0
  EntryCapped e = Each (IsCapped now cfg) e.current_users

  abbrev UsersCapped : Option (List UserInfo × List ℕ) → Type 0
  UsersCapped none = Unit
  UsersCapped (some (us, ids)) = Each (IsCapped now cfg) us

  clamp_user-IsCapped :
      (u : UserInfo) (rest : ℕ)
      → remaining_duration now u.start_time u.duration ≡ some rest
      → IsCapped now cfg (clamp_user cfg.max_lock_duration u rest).0
  unfolding clamp_user remaining_duration
  clamp_user-IsCapped u rest e = elim (Bool-cases (ltb 0 (pos_part cfg.max_lock_duration))) [
    | inr unlimited ↦ inr (inl (ground arith))
    | inl limited ↦ inr (inr (ground arith))
  ]

  apply_max_duration_limit-UsersCapped :
      (us : List UserInfo)
      → UsersCapped (apply_max_duration_limit now us cfg.max_lock_duration cfg.duration_whitelist)
  unfolding apply_max_duration_limit
  apply_max_duration_limit-UsersCapped [] = tt
  apply_max_duration_limit-UsersCapped (u ∷ us) =
      clamped_onto (apply_max_duration_limit now us cfg.max_lock_duration cfg.duration_whitelist)
        (apply_max_duration_limit-UsersCapped us)
    where
      clamped_onto :
          (o : Option (List UserInfo × List ℕ))
          → UsersCapped o
          → UsersCapped (elim o as (λ x. Option (List UserInfo × List ℕ)) [
            | none ↦ none
            | some (rest, clamped) ↦
                if elem ◌==◌ u.user_id cfg.duration_whitelist
                then some (u ∷ rest, clamped)
                else elim (remaining_duration now u.start_time u.duration) [
                  | none ↦ none
                  | some final_duration ↦
                      let (v, cut) = clamp_user cfg.max_lock_duration u final_duration in
                      some (v ∷ rest, if cut then u.user_id ∷ clamped else clamped)
                ]
          ])
      clamped_onto none h = tt
      clamped_onto (some (rest, clamped)) h =
          if-either UsersCapped (elem ◌==◌ u.user_id cfg.duration_whitelist)
            (λ exempt. (inl exempt, h))
            (λ bound.
              elim-either UsersCapped (remaining_duration now u.start_time u.duration) (λ fails. tt)
                (λ d e. (clamp_user-IsCapped u d e, h)))

  abbrev LoadCapped : Option (Entry × List ℕ) → Type 0
  LoadCapped none = Unit
  LoadCapped (some (e, ids)) = EntryCapped e

  load_entry-LoadCapped : (r : RawEntry) → LoadCapped (load_entry now cfg r)
  unfolding load_entry
  load_entry-LoadCapped r =
      let users = migrate_user_info_fields (or_empty r.current_users) in
      elim-either LoadCapped
        (apply_max_duration_limit now users cfg.max_lock_duration cfg.duration_whitelist)
        (λ fails. tt) (λ p e. subst UsersCapped e (apply_max_duration_limit-UsersCapped users))

  abbrev pub StoreCapped : Store → Type 0
  StoreCapped = EachEntry (λ k e. EntryCapped e)

  abbrev pub NodesCapped : Option (Store × List ℕ) → Type 0
  NodesCapped none = Unit
  NodesCapped (some (s, ids)) = StoreCapped s

  pub default_node_state-StoreCapped :
      (cluster : List (ℕ × List ℕ)) → StoreCapped (default_node_state cluster)
  unfolding default_node_state idle_entry
  default_node_state-StoreCapped [] = tt
  default_node_state-StoreCapped (c ∷ cluster) = (tt, default_node_state-StoreCapped cluster)

  pub load_nodes-NodesCapped :
      (rs : List (ℕ × RawEntry)) (s : Store) (ids : List ℕ)
      → StoreCapped s
      → NodesCapped (load_nodes now cfg rs s ids)
  unfolding load_nodes
  load_nodes-NodesCapped [] s ids h = h
  load_nodes-NodesCapped ((key, r) ∷ rs) s ids h =
      if-either NodesCapped (in_cluster key cfg.cluster)
        (λ inside.
          elim-either NodesCapped (load_entry now cfg r) (λ fails. tt)
            (λ p loads.
              load_nodes-NodesCapped rs (modify (λ k old. p.0) (machine key) s)
                (dedup_onto ◌==◌ ids p.1)
                (modify-EachEntry (λ k e. EntryCapped e) (λ k old. p.0)
                  (λ k e old. subst LoadCapped loads (load_entry-LoadCapped r)) (machine key) s h)))
        (λ outside. load_nodes-NodesCapped rs s ids h)

  abbrev pub CardsCapped : List Card → Type 0
  CardsCapped = Each (λ c. EntryCapped c.entry)

  abbrev pub FleetCapped : Fleet → Type 0
  FleetCapped = Each (λ m. CardsCapped m.1)

  abbrev LoadedCards : Option (List Card × List ℕ) → Type 0
  LoadedCards none = Unit
  LoadedCards (some (cs, ids)) = CardsCapped cs

  abbrev pub LoadedFleet : Option (Fleet × List ℕ) → Type 0
  LoadedFleet none = Unit
  LoadedFleet (some (f, ids)) = FleetCapped f

  load_card_entry-LoadCapped : (r : RawCard) → LoadCapped (load_card_entry now cfg r)
  unfolding load_card_entry
  load_card_entry-LoadCapped r =
      elim-either LoadCapped r.current_users (λ fails. tt)
        (λ us there.
          let users = migrate_user_info_fields us in
          elim-either LoadCapped
            (apply_max_duration_limit now users cfg.max_lock_duration cfg.duration_whitelist)
            (λ fails. tt) (λ p e. subst UsersCapped e (apply_max_duration_limit-UsersCapped users)))

  load_cards-LoadedCards :
      (old : List RawCard) (cs : List Card) (ids : List ℕ)
      → CardsCapped cs
      → LoadedCards (load_cards now cfg old cs ids)
  unfolding load_cards
  load_cards-LoadedCards old [] ids h = tt
  load_cards-LoadedCards old (c ∷ cs) ids h =
      elim-either LoadedCards (last_card c.dev_id old)
        (λ missing.
          elim-either LoadedCards (load_cards now cfg old cs ids) (λ fails. tt)
            (λ p e. (h.0, subst LoadedCards e (load_cards-LoadedCards old cs ids h.1))))
        (λ r there.
          elim-either LoadedCards (load_card_entry now cfg r) (λ fails. tt)
            (λ p loads.
              elim-either LoadedCards (load_cards now cfg old cs (dedup_onto ◌==◌ ids p.1))
                (λ fails. tt)
                (λ q e. (
                  subst LoadCapped loads (load_card_entry-LoadCapped r),
                  subst LoadedCards e (load_cards-LoadedCards old cs (dedup_onto ◌==◌ ids p.1) h.1),
                ))))

  load_machine-LoadedFleet :
      (key : ℕ) (old : List RawCard) (f : Fleet) (ids : List ℕ)
      → FleetCapped f
      → LoadedFleet (load_machine now cfg key old f ids)
  unfolding load_machine
  load_machine-LoadedFleet key old [] ids h = tt
  load_machine-LoadedFleet key old (m ∷ f) ids h =
      if-either LoadedFleet (m.0 == key)
        (λ here.
          elim-either LoadedFleet (load_cards now cfg old m.1 ids) (λ fails. tt)
            (λ p e. (subst LoadedCards e (load_cards-LoadedCards old m.1 ids h.0), h.1)))
        (λ there.
          elim-either LoadedFleet (load_machine now cfg key old f ids) (λ fails. tt)
            (λ p e. (h.0, subst LoadedFleet e (load_machine-LoadedFleet key old f ids h.1))))

  pub load_fleet-LoadedFleet :
      (rs : List (ℕ × List RawCard)) (f : Fleet) (ids : List ℕ)
      → FleetCapped f
      → LoadedFleet (load_fleet now cfg rs f ids)
  unfolding load_fleet
  load_fleet-LoadedFleet [] f ids h = h
  load_fleet-LoadedFleet ((key, old) ∷ rs) f ids h =
      if-either LoadedFleet (in_cluster key cfg.cluster)
        (λ inside.
          elim-either LoadedFleet (load_machine now cfg key old f ids) (λ fails. tt)
            (λ p e.
              load_fleet-LoadedFleet rs p.0 p.1
                (subst LoadedFleet e (load_machine-LoadedFleet key old f ids h))))
        (λ outside. load_fleet-LoadedFleet rs f ids h)

  default_cards-CardsCapped : (n : ℕ) (models : List ℕ) → CardsCapped (default_cards n models)
  unfolding default_cards idle_entry
  default_cards-CardsCapped n [] = tt
  default_cards-CardsCapped n (m ∷ ms) = (tt, default_cards-CardsCapped (n + 1) ms)

  pub default_fleet-FleetCapped :
      (cluster : List (ℕ × List ℕ)) → FleetCapped (default_fleet cluster)
  unfolding default_fleet
  default_fleet-FleetCapped [] = tt
  default_fleet-FleetCapped (c ∷ cluster) =
      (default_cards-CardsCapped 0 c.1, default_fleet-FleetCapped cluster)
