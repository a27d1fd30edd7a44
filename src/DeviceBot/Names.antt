-- ===== src/DeviceBot/Names.antt =====
-- `unlock` with a list of node names.
use lockbot.Base.{
  ℕ, ◌≡◌, ◌≢◌, refl, subst, ◌==◌, Bool-cases, inl, inr, false, true, some, List, [], ◌∷◌, arith,
  dedup, elem, dedup_onto, add_to_set, sym,
}
use lockbot.Config.{Config, in_cluster}
use lockbot.Keys.{Key, card}
use lockbot.Users.{UserInfo, has_user, find_user_info}
use lockbot.Users.Laws.{DistinctUsers, has_user-remove_self}
use lockbot.State.{Status, idle, exclusive, shared, is_idle, Card, Fleet}
use lockbot.State.Modes.{Fits}
use lockbot.NodeBot.{kick_entry}
use lockbot.NodeBot.Invariant.{IsSound}
use lockbot.DeviceBot.History.{CardsSound, EachOf}
use lockbot.Reply.{completed, Operation, resource_released}
use lockbot.DeviceBot.{cards_of, modify_node}
use lockbot.DeviceBot.Parse.{check_nodes}
use lockbot.DeviceBot.Release.{
  unlock, names, unlock_names, captured, last_of, released, release_cards, release_entry,
}

cards_of-modify_node :
    (g : List Card → List Card) (w v : ℕ) (f : Fleet)
    → v ≢ w
    → cards_of v (modify_node g w f) ≡ cards_of v f
unfolding cards_of modify_node
cards_of-modify_node g w v [] ne = refl
cards_of-modify_node g w v ((j, cs) ∷ f) ne = ground (arith, cards_of-modify_node g w v f ne)

captured_three : (a b c : ℕ) → a ≢ c → captured a (b ∷ c ∷ []) ≡ a ∷ c ∷ []
unfolding captured last_of dedup dedup_onto add_to_set elem
captured_three a b c ne = ground arith

-- The cards of a node after a release by the user: the same cards, none of which the user holds.
pub data Freed (user : ℕ) : List Card → List Card → Type 0 where
  no_cards : Freed user [] []
  card_freed :
      (c d : Card) (cs ds : List Card)
      → d.dev_id ≡ c.dev_id
      → has_user d.entry.current_users user ≡ false
      → Freed user cs ds
      → Freed user (c ∷ cs) (d ∷ ds)

release_entry-frees :
    (user : ℕ) (k : Key) (st : Status) (us queue : List UserInfo)
    → Fits st us
    → DistinctUsers us
    → has_user
        (release_entry user k
          (record { status = st; current_users = us; booking_list = queue })).current_users
        user
      ≡ false
unfolding release_entry is_idle has_user find_user_info kick_entry
release_entry-frees user k idle [] queue f d = refl
release_entry-frees user k idle (u ∷ us) queue f d = absurd f
release_entry-frees user k exclusive us queue f d = has_user-remove_self us user d
release_entry-frees user k shared us queue f d = has_user-remove_self us user d

release_cards-Freed :
    (user w : ℕ) (cs : List Card)
    → EachOf (λ e. IsSound e) cs
    → Freed user cs (release_cards user w cs)
unfolding release_cards
release_cards-Freed user w [] a = no_cards
release_cards-Freed user w (c ∷ cs) a =
    card_freed c _ cs _ refl
      (release_entry-frees user (card w c.dev_id) c.entry.status c.entry.current_users
        c.entry.booking_list a.0.fits a.0.distinct)
      (release_cards-Freed user w cs a.1)

cards_of-EachOf :
    (w : ℕ) (f : Fleet) (cs : List Card)
    → CardsSound f
    → cards_of w f ≡ some cs
    → EachOf (λ e. IsSound e) cs
unfolding cards_of
cards_of-EachOf w [] cs a hit = cc
cards_of-EachOf w ((j, ds) ∷ f) cs a hit = elim (Bool-cases (j == w)) [
  | inl same ↦
      let ds≡cs : ds ≡ cs = ground arith in subst (λ xs. EachOf (λ e. IsSound e) xs) ds≡cs a.0
  | inr other ↦ cards_of-EachOf w f cs a.1 (ground arith)
]

cards_of-modified :
    (g : List Card → List Card) (w : ℕ) (f : Fleet) (cs : List Card)
    → cards_of w f ≡ some cs
    → cards_of w (modify_node g w f) ≡ some (g cs)
unfolding cards_of modify_node
cards_of-modified g w [] cs hit = cc
cards_of-modified g w ((j, ds) ∷ f) cs hit = ground (arith, cards_of-modified g w f cs)

-- When three different nodes are named in one `unlock`, of which the first and the last belong to the
-- cluster and to the state, on sound cards: the first and the last are released, the user holds none
-- of their cards any more. Success is reported, but the cards of the one in the middle stay as they were.
pub unlock_names-skips :
    (cfg : Config) (user a b c : ℕ) (as_ cs : List Card) (f : Fleet)
    → CardsSound f
    → b ≢ a
    → b ≢ c
    → a ≢ c
    → in_cluster a cfg.cluster ≡ true
    → in_cluster c cfg.cluster ≡ true
    → cards_of a f ≡ some as_
    → cards_of c f ≡ some cs
    → let o = unlock cfg user (names a (b ∷ c ∷ [])) f in
      (o.saved ≡ true)
      × (o.result ≡ completed Operation.unlock true resource_released (user ∷ []))
      × ((ds : List Card) × (cards_of a o.state ≡ some ds) × Freed user as_ ds)
      × ((ds : List Card) × (cards_of c o.state ≡ some ds) × Freed user cs ds)
      × (cards_of b o.state ≡ cards_of b f)
unfolding unlock unlock_names check_nodes released
unlock_names-skips cfg user a b c as_ cs f sound b≢a b≢c a≢c ina inc hita hitc =
    let other : c ≢ a = λ h. a≢c (sym h) in
    let f' = modify_node (release_cards user a) a f in
    let still = cards_of-modify_node (release_cards user a) a c f other in
    let hitc' : cards_of c f' ≡ some cs = ground (arith, still) in
    let done = cards_of-modify_node (release_cards user c) c a f' a≢c in
    let freed = cards_of-modified (release_cards user a) a f as_ hita in
    let freed' = cards_of-modified (release_cards user c) c f' cs hitc' in
    let kept = cards_of-modify_node (release_cards user a) a b f b≢a in
    let kept' = cards_of-modify_node (release_cards user c) c b f' b≢c in
    rw (captured_three a b c a≢c, ina, inc)
      (
        ground (arith, hita, hitc'),
        ground (arith, hita, hitc'),
        (
          release_cards user a as_,
          ground (arith, hita, hitc', done, freed),
          release_cards-Freed user a as_ (cards_of-EachOf a f as_ sound hita),
        ),
        (
          release_cards user c cs,
          ground (arith, hita, hitc', freed'),
          release_cards-Freed user c cs (cards_of-EachOf c f cs sound hitc),
        ),
        ground (arith, hita, hitc', kept, kept'),
      )
