-- ===== src/Loading/Trips.antt =====
-- Loading what was saved.
use lockbot.Base.{
  ℕ, ◌+◌, ◌≤◌, ◌≡◌, ◌⊎◌, ◌∙◌, inl, inr, refl, sym, ap, subst, true, false, Option, none, some, List,
  [], ◌∷◌, ◌==◌, dedup_onto, elem, Each, Distinct, arith, pos_part, Bool-cases, Option-cases,
  ==_refl, map,
}
use lockbot.Users.{UserInfo, apply_max_duration_limit, remaining_duration, clamp_user}
use lockbot.Keys.{machine, node_of, key_eq, key_eq_refl}
use lockbot.State.{Entry, Store, modify}
use lockbot.State.Laws.{EachEntry}
use lockbot.Config.{Config, in_cluster}
use lockbot.Loading.{
  RawEntry, Directory, migrate_status_fields, migrate_start, migrate_user_info,
  migrate_user_info_fields, or_empty, load_entry, idle_entry, default_node_state, load_nodes,
  migrate_old_state_file, or_dict, load_state_from_file, read_state, dump_user, dump_users,
  dump_entry, dump_nodes, save_state, save_clamped, create_or_load_node_state,
}

-- A lease that the limit leaves alone.
abbrev pub Fits : ℕ → Config → UserInfo → Type 0
Fits now cfg u =
    (u.start_time ≤ now)
    × ((elem ◌==◌ u.user_id cfg.duration_whitelist ≡ true)
        ⊎ ((pos_part cfg.max_lock_duration ≡ 0)
            ⊎ (u.start_time + u.duration ≤ now + pos_part cfg.max_lock_duration)))

pub apply_max_duration_limit-Fits :
    (now : ℕ) (cfg : Config) (us : List UserInfo)
    → Each (Fits now cfg) us
    → apply_max_duration_limit now us cfg.max_lock_duration cfg.duration_whitelist ≡ some (us, [])
unfolding apply_max_duration_limit remaining_duration clamp_user
apply_max_duration_limit-Fits now cfg [] fits = refl
apply_max_duration_limit-Fits now cfg (u ∷ us) fits =
    ground (arith, apply_max_duration_limit-Fits now cfg us fits.1)

migrate-dump_users : (us : List UserInfo) → migrate_user_info_fields (dump_users us) ≡ us
unfolding migrate_user_info_fields dump_users migrate_user_info migrate_start dump_user
migrate-dump_users [] = refl
migrate-dump_users (u ∷ us) = ap (λ vs. u ∷ vs) (migrate-dump_users us)

pub load_entry-dump_entry :
    (now : ℕ) (cfg : Config) (e : Entry)
    → Each (Fits now cfg) e.current_users
    → load_entry now cfg (dump_entry e) ≡ some (e, [])
unfolding load_entry dump_entry or_empty migrate_status_fields
load_entry-dump_entry now cfg e fits = ground (
  arith,
  migrate-dump_users e.current_users,
  migrate-dump_users e.booking_list,
  apply_max_duration_limit-Fits now cfg e.current_users fits,
)

-- The store has an entry for each key of the cluster, in its order.
abbrev pub MatchesCluster : List (ℕ × List ℕ) → Store → Type 0
MatchesCluster [] [] = Unit
MatchesCluster [] (x ∷ s) = ⊥
MatchesCluster (c ∷ cluster) [] = ⊥
MatchesCluster ((key, devices) ∷ cluster) ((k, e) ∷ s) =
    (k ≡ machine key) × MatchesCluster cluster s

-- An entry whose key the file does not name stays where it is.
module _ (now : ℕ) (cfg : Config) (a : ℕ) (first : Entry) where
  modify-skip :
      (key : ℕ) (e : Entry) (st : Store)
      → key == a ≡ false
      → modify (λ k old. e) (machine key) ((machine a, first) ∷ st)
        ≡ (machine a, first) ∷ modify (λ k old. e) (machine key) st
  unfolding modify key_eq
  modify-skip key e st other = ground arith

  abbrev over : Option (Store × List ℕ) → Option (Store × List ℕ)
  over none = none
  over (some (st, ids)) = some ((machine a, first) ∷ st, ids)

  load_nodes-cons :
      (rs : List (ℕ × RawEntry)) (st : Store) (ids : List ℕ)
      → elem ◌==◌ a (map (λ p. p.0) rs) ≡ false
      → load_nodes now cfg rs ((machine a, first) ∷ st) ids ≡ over (load_nodes now cfg rs st ids)
  unfolding load_nodes elem
  load_nodes-cons [] st ids out = refl
  load_nodes-cons ((key, r) ∷ rs) st ids out = elim (Bool-cases (in_cluster key cfg.cluster)) [
    | inr gone ↦ rw (gone, load_nodes) (load_nodes-cons rs st ids (ground arith))
    | inl there ↦ elim (Option-cases (load_entry now cfg r)) [
      | inl fails ↦ rw (there, fails, load_nodes) refl
      | inr (x, loads) ↦
          rw (there, loads, load_nodes, modify-skip key x.0 st (ground arith))
            (load_nodes-cons rs (modify (λ k old. x.0) (machine key) st) (dedup_onto ◌==◌ ids x.1)
              (ground arith))
    ]
  ]

dump_nodes-keys :
    (cluster : List (ℕ × List ℕ)) (s : Store)
    → MatchesCluster cluster s
    → map (λ p. p.0) (dump_nodes s) ≡ map (λ p. p.0) cluster
unfolding dump_nodes node_of
dump_nodes-keys [] [] m = refl
dump_nodes-keys [] (x ∷ s) m = absurd m
dump_nodes-keys (c ∷ cluster) [] m = absurd m
dump_nodes-keys ((key, devices) ∷ cluster) ((k, e) ∷ s) m =
    rw (m.0, dump_nodes-keys cluster s m.1) refl

module _ (now : ℕ) (cfg : Config) where
  load_nodes_here :
      (key : ℕ) (r : RawEntry) (rs : List (ℕ × RawEntry)) (e old : Entry) (st : Store)
      → in_cluster key cfg.cluster ≡ true
      → load_entry now cfg r ≡ some (e, [])
      → load_nodes now cfg ((key, r) ∷ rs) ((machine key, old) ∷ st) []
        ≡ load_nodes now cfg rs ((machine key, e) ∷ st) []
  unfolding load_nodes modify dedup_onto
  load_nodes_here key r rs e old st inside loads =
      ground (arith, inside, loads, key_eq_refl (machine key))

  load_nodes-dump_nodes :
      (cluster : List (ℕ × List ℕ)) (s : Store)
      → MatchesCluster cluster s
      → Each (λ c. in_cluster c.0 cfg.cluster ≡ true) cluster
      → Distinct ◌==◌ (map (λ p. p.0) cluster)
      → EachEntry (λ k e. Each (Fits now cfg) e.current_users) s
      → load_nodes now cfg (dump_nodes s) (default_node_state cluster) [] ≡ some (s, [])
  unfolding load_nodes default_node_state dump_nodes node_of
  load_nodes-dump_nodes [] [] m inside distinct fits = refl
  load_nodes-dump_nodes [] (x ∷ s) m inside distinct fits = absurd m
  load_nodes-dump_nodes (c ∷ cluster) [] m inside distinct fits = absurd m
  load_nodes-dump_nodes ((key, devices) ∷ cluster) ((k, e) ∷ s) m inside distinct fits =
      let rest = load_nodes-dump_nodes cluster s m.1 inside.1 distinct.1 fits.1 in
      let out : elem ◌==◌ key (map (λ p. p.0) (dump_nodes s)) ≡ false =
        subst (λ ks. elem ◌==◌ key ks ≡ false) (sym (dump_nodes-keys cluster s m.1)) distinct.0 in
      let start = default_node_state cluster in
      subst
        (λ k'.
          load_nodes now cfg (dump_nodes ((k', e) ∷ s)) ((machine key, idle_entry) ∷ start) []
          ≡ some ((k', e) ∷ s, []))
        (sym m.0)
        (load_nodes_here key (dump_entry e) (dump_nodes s) e idle_entry start inside.0
            (load_entry-dump_entry now cfg e fits.0)
          ∙ load_nodes-cons now cfg key e (dump_nodes s) start [] out
          ∙ ap (over now cfg key e) rest)

in_cluster_own :
    (cluster more : List (ℕ × List ℕ))
    → ((key : ℕ) → in_cluster key cluster ≡ true → in_cluster key more ≡ true)
    → Each (λ c. in_cluster c.0 more ≡ true) cluster
unfolding in_cluster
in_cluster_own [] more h = tt
in_cluster_own (c ∷ cluster) more h = (
  h c.0 (ground (arith, ==_refl c.0)),
  in_cluster_own cluster more (λ key i. h key (ground arith)),
)

or_dict_nothing : (xs : List (ℕ × RawEntry)) → or_dict xs (or_dict [] []) ≡ xs
unfolding or_dict
or_dict_nothing [] = refl
or_dict_nothing (x ∷ xs) = refl

-- A bot of nodes that is started again with the cluster that it was saved with, while no lease starts in
-- the future and each one ends within the limit, or there is none, or its user is exempt: it comes back
-- with exactly the state that was saved, holders and queues in their order, nobody's lease is cut, and
-- the file stays as it is.
pub create_or_load-save_state :
    (now : ℕ) (cfg : Config) (s : Store) (dir : Directory RawEntry)
    → MatchesCluster cfg.cluster s
    → Distinct ◌==◌ (map (λ p. p.0) cfg.cluster)
    → EachEntry (λ k e. Each (Fits now cfg) e.current_users) s
    → create_or_load_node_state now cfg (save_state (dump_nodes s) dir)
      ≡ some (record { state = s; clamped = []; directory = save_state (dump_nodes s) dir })
unfolding create_or_load_node_state migrate_old_state_file save_state read_state
    load_state_from_file save_clamped
create_or_load-save_state now cfg s dir m distinct fits = ground (
  arith,
  or_dict_nothing (dump_nodes s),
  load_nodes-dump_nodes now cfg cfg.cluster s m
      (in_cluster_own cfg.cluster cfg.cluster (λ key i. i)) distinct fits,
)
