-- ===== src/Loading/Loads.antt =====
-- Where every lease of the files of a bot has begun, loading them does not fail.
use lockbot.Base.{
  ℕ, ◌≤◌, ◌≡◌, refl, subst, Option, none, some, List, [], ◌∷◌, ◌==◌, dedup_onto, Each, Bool-cases,
  Option-cases, inl, inr, arith,
}
use lockbot.Keys.{machine}
use lockbot.Users.Laws.{Started}
use lockbot.Users.Clamp.{apply_max_duration_limit-Clamped}
use lockbot.State.{Entry, Card, Fleet, Store, modify}
use lockbot.Config.{Config, in_cluster}
use lockbot.Loading.{
  Start, dated, stamped, RawUser, RawEntry, FileContent, unreadable, parsed, Directory,
  migrate_start, migrate_user_info, migrate_user_info_fields, or_empty, load_entry, load_nodes,
  migrate_old_state_file, or_dict, load_state_from_file, read_state,
}
use lockbot.Loading.Devices.{
  RawCard, last_card, load_card_entry, load_cards, load_machine, load_fleet,
}

-- A lease that has begun, under either name of the field.
abbrev pub UserHasBegun : ℕ → RawUser → Type 0
UserHasBegun now u = elim u.start [ dated t ↦ t ≤ now | stamped t ↦ t ≤ now ]

abbrev pub HasBegun : ℕ → RawEntry → Type 0
HasBegun now r = elim r.current_users [ none ↦ Unit | some us ↦ Each (UserHasBegun now) us ]

-- On cards the list of holders must be there.
abbrev pub CardHasBegun : ℕ → RawCard → Type 0
CardHasBegun now r = elim r.current_users [ none ↦ ⊥ | some us ↦ Each (UserHasBegun now) us ]

-- All the values of a file, under any of its keys.
abbrev pub InFile : {A : Type 0} → (A → Type 0) → Option (FileContent A) → Type 0
InFile P none = Unit
InFile P (some unreadable) = Unit
InFile P (some (parsed a b c)) = Each (λ p. P p.1) a × Each (λ p. P p.1) b × Each (λ p. P p.1) c

abbrev pub Throughout : {A : Type 0} → (A → Type 0) → Directory A → Type 0
Throughout P d = InFile P d.state_file × InFile P d.old_file

module _ {A : Type 0} (P : A → Type 0) where
  or_dict-Each :
      (a b : List (ℕ × A))
      → Each (λ p. P p.1) a
      → Each (λ p. P p.1) b
      → Each (λ p. P p.1) (or_dict a b)
  unfolding or_dict
  or_dict-Each [] b x y = y
  or_dict-Each (p ∷ a) b x y = x

  read_state-Each : (o : Option (FileContent A)) → InFile P o → Each (λ p. P p.1) (read_state o)
  unfolding read_state load_state_from_file
  read_state-Each none h = tt
  read_state-Each (some unreadable) h = tt
  read_state-Each (some (parsed a b c)) h =
      or_dict-Each a (or_dict b c) h.0 (or_dict-Each b c h.1 h.2)

  pub read-Throughout :
      (d : Directory A)
      → Throughout P d
      → Each (λ p. P p.1) (read_state (migrate_old_state_file d).state_file)
  unfolding migrate_old_state_file
  read-Throughout d h = elim (Option-cases d.state_file) [
    | inl none_ ↦ rw (none_, migrate_old_state_file) (read_state-Each d.old_file h.1)
    | inr (f, some_) ↦ rw (some_, migrate_old_state_file) (read_state-Each d.state_file h.0)
  ]

migrate_start-le :
    (now : ℕ) (s : Start)
    → (elim s as (λ x. Type 0) [ dated t ↦ t ≤ now | stamped t ↦ t ≤ now ])
    → migrate_start s ≤ now
unfolding migrate_start
migrate_start-le now (dated t) h = h
migrate_start-le now (stamped t) h = h

migrate-Started :
    (now : ℕ) (rs : List RawUser)
    → Each (UserHasBegun now) rs
    → Started now (migrate_user_info_fields rs)
unfolding migrate_user_info_fields migrate_user_info
migrate-Started now [] h = tt
migrate-Started now (r ∷ rs) h = (migrate_start-le now r.start h.0, migrate-Started now rs h.1)

begun_or_empty :
    (now : ℕ) (o : Option (List RawUser))
    → (elim o as (λ x. Type 0) [ none ↦ Unit | some us ↦ Each (UserHasBegun now) us ])
    → Each (UserHasBegun now) (or_empty o)
unfolding or_empty
begun_or_empty now none h = tt
begun_or_empty now (some us) h = h

card_users_listed :
    (now : ℕ) (o : Option (List RawUser))
    → (elim o as (λ x. Type 0) [ none ↦ ⊥ | some us ↦ Each (UserHasBegun now) us ])
    → (us : List RawUser) × (o ≡ some us) × Each (UserHasBegun now) us
card_users_listed now none h = absurd h
card_users_listed now (some us) h = (us, refl, h)

last_card-begun :
    (now i : ℕ) (old : List RawCard) (r : RawCard)
    → Each (CardHasBegun now) old
    → last_card i old ≡ some r
    → CardHasBegun now r
unfolding last_card
last_card-begun now i [] r h hit = cc
last_card-begun now i (c ∷ cs) r h hit = elim (Option-cases (last_card i cs)) [
  | inr (x, later) ↦ last_card-begun now i cs r h.1 (ground arith)
  | inl none_ ↦ let c≡r : c ≡ r = ground arith in subst (CardHasBegun now) c≡r h.0
]

module _ (now : ℕ) (cfg : Config) where
  load_entry-loads :
      (r : RawEntry) → HasBegun now r → (p : Entry × List ℕ) × (load_entry now cfg r ≡ some p)
  unfolding load_entry
  load_entry-loads r h =
      let users = migrate_user_info_fields (or_empty r.current_users) in
      let a =
        apply_max_duration_limit-Clamped now users cfg.max_lock_duration cfg.duration_whitelist
          (migrate-Started now (or_empty r.current_users) (begun_or_empty now r.current_users h)) in
      rw (a.2, load_entry) (_, refl)

  pub load_nodes-loads :
      (rs : List (ℕ × RawEntry)) (s : Store) (ids : List ℕ)
      → Each (λ p. HasBegun now p.1) rs
      → (p : Store × List ℕ) × (load_nodes now cfg rs s ids ≡ some p)
  unfolding load_nodes
  load_nodes-loads [] s ids h = ((s, ids), refl)
  load_nodes-loads ((key, r) ∷ rs) s ids h =
      let entry = load_entry-loads r h.0 in
      elim (Bool-cases (in_cluster key cfg.cluster)) [
        | inl there ↦
            rw (there, entry.1, load_nodes)
              (load_nodes-loads rs (modify (λ k old. entry.0.0) (machine key) s)
                (dedup_onto ◌==◌ ids entry.0.1) h.1)
        | inr gone ↦ rw (gone, load_nodes) (load_nodes-loads rs s ids h.1)
      ]

  load_card_entry-loads :
      (r : RawCard)
      → CardHasBegun now r
      → (p : Entry × List ℕ) × (load_card_entry now cfg r ≡ some p)
  unfolding load_card_entry
  load_card_entry-loads r h =
      let listed = card_users_listed now r.current_users h in
      let users = migrate_user_info_fields listed.0 in
      let a =
        apply_max_duration_limit-Clamped now users cfg.max_lock_duration cfg.duration_whitelist
          (migrate-Started now listed.0 listed.2) in
      rw (listed.1, a.2, load_card_entry) (_, refl)

  load_cards-loads :
      (old : List RawCard) (cs : List Card) (ids : List ℕ)
      → Each (CardHasBegun now) old
      → (p : List Card × List ℕ) × (load_cards now cfg old cs ids ≡ some p)
  unfolding load_cards
  load_cards-loads old [] ids h = (([], ids), refl)
  load_cards-loads old (c ∷ cs) ids h = elim (Option-cases (last_card c.dev_id old)) [
    | inl missing ↦
        let rest = load_cards-loads old cs ids h in rw (missing, rest.1, load_cards) (_, refl)
    | inr (r, there) ↦
        let entry = load_card_entry-loads r (last_card-begun now c.dev_id old r h there) in
        let rest = load_cards-loads old cs (dedup_onto ◌==◌ ids entry.0.1) h in
        rw (there, entry.1, rest.1, load_cards) (_, refl)
  ]

  load_machine-loads :
      (key : ℕ) (old : List RawCard) (f : Fleet) (ids : List ℕ)
      → Each (CardHasBegun now) old
      → (p : Fleet × List ℕ) × (load_machine now cfg key old f ids ≡ some p)
  unfolding load_machine
  load_machine-loads key old [] ids h = (([], ids), refl)
  load_machine-loads key old ((k, cs) ∷ f) ids h = elim (Bool-cases (k == key)) [
    | inl here ↦
        let cards = load_cards-loads old cs ids h in rw (here, cards.1, load_machine) (_, refl)
    | inr there ↦
        let rest = load_machine-loads key old f ids h in rw (there, rest.1, load_machine) (_, refl)
  ]

  pub load_fleet-loads :
      (rs : List (ℕ × List RawCard)) (f : Fleet) (ids : List ℕ)
      → Each (λ p. Each (CardHasBegun now) p.1) rs
      → (p : Fleet × List ℕ) × (load_fleet now cfg rs f ids ≡ some p)
  unfolding load_fleet
  load_fleet-loads [] f ids h = ((f, ids), refl)
  load_fleet-loads ((key, old) ∷ rs) f ids h =
      let here = load_machine-loads key old f ids h.0 in
      elim (Bool-cases (in_cluster key cfg.cluster)) [
        | inl there ↦ rw (there, here.1, load_fleet) (load_fleet-loads rs here.0.0 here.0.1 h.1)
        | inr gone ↦ rw (gone, load_fleet) (load_fleet-loads rs f ids h.1)
      ]
