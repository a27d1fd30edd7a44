-- ===== src/NodeBot/Release.antt =====
-- What the releasing commands free: a bare `unlock`, `kickout`, and the operator's kick.
use lockbot.Base.{
  ℕ, true, false, ◌≡◌, refl, Option, none, List, [], ◌∷◌, ◌++◌, ◌==◌, elem, arith, Bool-cases,
  Option-cases, inl, inr, ==_iff, elem-add_to_set, Each, if◌then◌else◌,
}
use lockbot.Keys.{Key}
use lockbot.Users.{UserInfo, find_user_info, has_user, remove_user_info}
use lockbot.Users.Laws.{DistinctUsers, has_user-remove_self, has_user-append}
use lockbot.State.{Status, idle, exclusive, shared, is_idle, Entry, Store, lookup}
use lockbot.State.Laws.{
  holding, held_by, lookup_EachEntry, lookup-modify_each, get_all-Each, Changes, modify_all-Changes,
}
use lockbot.State.Modes.{Fits}
use lockbot.Config.{Config}
use lockbot.Reply.{Result, replied, completed, kicked, raised, pass}
use lockbot.Command.{Match, parse_command}
use lockbot.Command.Laws.{parse_command-Distinct}
use lockbot.NodeBot.{unlock_all, release_entry, kickout, clear_entry, kicked_users, add_users}
use lockbot.NodeBot.Cases.{kickout_cases}
use lockbot.NodeBot.History.{AllSound}

find_none_of_has :
    (us : List UserInfo) (user : ℕ) → has_user us user ≡ false → find_user_info us user ≡ none
unfolding has_user find_user_info
find_none_of_has [] user h = refl
find_none_of_has (u ∷ us) user h = ground (arith, find_none_of_has us user)

find-removed :
    (us : List UserInfo) (user : ℕ)
    → DistinctUsers us
    → find_user_info (remove_user_info us user) user ≡ none
find-removed us user d =
    find_none_of_has (remove_user_info us user) user (has_user-remove_self us user d)

release_entry-frees :
    (user : ℕ) (k : Key) (st : Status) (us queue : List UserInfo)
    → Fits st us
    → DistinctUsers us
    → find_user_info
        (release_entry user k
          (record { status = st; current_users = us; booking_list = queue })).current_users
        user
      ≡ none
unfolding release_entry is_idle find_user_info
release_entry-frees user k idle [] queue f d = refl
release_entry-frees user k idle (u ∷ us) queue f d = absurd f
release_entry-frees user k exclusive us queue f d = find-removed us user d
release_entry-frees user k shared us queue f d = find-removed us user d

-- After a bare `unlock` on sound nodes the user holds no node.
pub unlock_all-frees :
    (user : ℕ) (q : Key) (s : Store) → AllSound s → holding user q (unlock_all user s).state ≡ none
unfolding unlock_all holding held_by
unlock_all-frees user q s a =
    rw (lookup-modify_each (release_entry user) q s) (elim (Option-cases (lookup q s)) [
      | inl miss ↦ rw miss refl
      | inr (e, hit) ↦
          let v = lookup_EachEntry _ q s e a hit in
          rw hit
            (release_entry-frees user q e.status e.current_users e.booking_list v.fits v.distinct)
    ])

elem-add_users :
    (user : ℕ) (us : List UserInfo) (acc : List ℕ)
    → elem ◌==◌ user acc ≡ true
    → elem ◌==◌ user (add_users us acc) ≡ true
unfolding add_users
elem-add_users user [] acc h = h
elem-add_users user (u ∷ us) acc h =
    elem-add_users user us _ (ground (arith, elem-add_to_set ◌==◌ ==_iff user u.user_id acc))

elem-add_users_has :
    (user : ℕ) (us : List UserInfo) (acc : List ℕ)
    → has_user us user ≡ true
    → elem ◌==◌ user (add_users us acc) ≡ true
unfolding add_users has_user find_user_info
elem-add_users_has user [] acc h = cc
elem-add_users_has user (u ∷ us) acc h = elim (Bool-cases (u.user_id == user)) [
  | inl same ↦
      elem-add_users user us _ (ground (arith, elem-add_to_set ◌==◌ ==_iff user u.user_id acc))
  | inr other ↦ elem-add_users_has user us _ (ground arith)
]

elem-kicked_users_acc :
    (user : ℕ) (es : List (Key × Entry)) (acc : List ℕ)
    → elem ◌==◌ user acc ≡ true
    → elem ◌==◌ user (kicked_users es acc) ≡ true
unfolding kicked_users
elem-kicked_users_acc user [] acc h = h
elem-kicked_users_acc user ((k, e) ∷ es) acc h =
    elem-kicked_users_acc user es _
      (elem-add_users user e.booking_list _ (elem-add_users user e.current_users acc h))

-- All of these users are among those mentioned.
abbrev pub AllMentioned : List UserInfo → List ℕ → Type 0
AllMentioned us told = Each (λ u. elem ◌==◌ u.user_id told ≡ true) us

AllMentioned-has_user :
    (us : List UserInfo) (told : List ℕ)
    → ((who : ℕ) → has_user us who ≡ true → elem ◌==◌ who told ≡ true)
    → AllMentioned us told
unfolding has_user find_user_info
AllMentioned-has_user [] told h = tt
AllMentioned-has_user (u ∷ us) told h =
    (h u.user_id (ground arith), AllMentioned-has_user us told (λ who i. h who (ground arith)))

elem-add_both :
    (who : ℕ) (us vs : List UserInfo) (acc : List ℕ)
    → (if has_user us who then true else has_user vs who) ≡ true
    → elem ◌==◌ who (add_users vs (add_users us acc)) ≡ true
elem-add_both who us vs acc h = elim (Bool-cases (has_user us who)) [
  | inl here ↦ elem-add_users who vs _ (elem-add_users_has who us acc here)
  | inr gone ↦ elem-add_users_has who vs (add_users us acc) (rw gone at h)
]

kicked_users-AllMentioned :
    (es : List (Key × Entry)) (acc : List ℕ)
    → Each (λ p. AllMentioned (p.1.current_users ++ p.1.booking_list) (kicked_users es acc)) es
unfolding kicked_users
kicked_users-AllMentioned [] acc = tt
kicked_users-AllMentioned ((k, e) ∷ es) acc = (
  AllMentioned-has_user (e.current_users ++ e.booking_list) _ (λ who h.
      elem-kicked_users_acc who es _ (
        elem-add_both who e.current_users e.booking_list acc
          (rw (has_user-append e.current_users e.booking_list who) at h))),
  kicked_users-AllMentioned es _,
)

-- The users that a reply mentions.
unfoldable pub mentions : Result → List ℕ
mentions (replied m us) = us
mentions (completed o b m us) = us
mentions (kicked ks us) = us
mentions (raised x) = []

-- What a kick-out does to an entry, and whom it tells.
pub record Cleared (told : List ℕ) (before after : Entry) : Type 0 where
  pub idle_ : after.status ≡ idle
  pub unheld : after.current_users ≡ []
  pub no_line : after.booking_list ≡ []
  pub all_told : AllMentioned (before.current_users ++ before.booking_list) told

-- A kick-out that is committed has parsed: each node that it names was there and is idle with no
-- holder and no queue, everybody who held it or waited for it is mentioned in the reply, and the
-- other nodes are as they were.
pub kickout-clears :
    (cfg : Config) (user : ℕ) (text : Option Match) (s : Store) (q : Key)
    → (kickout cfg user text s).saved ≡ true
    → (keys : List Key) × (duration : ℕ) × (parse_command cfg user false text
        ≡ pass (keys, duration))
      × Changes
          (Cleared (mentions (kickout cfg user text s).result))
          keys
          q
          s
          (kickout cfg user text s).state
unfolding mentions clear_entry
kickout-clears cfg user text s q =
    kickout_cases
      (λ o.
        o.saved ≡ true
        → (keys : List Key) × (duration : ℕ) × (parse_command cfg user false text
            ≡ pass (keys, duration))
          × Changes (Cleared (mentions o.result)) keys q s o.state)
      cfg user text s (λ x h. cc)
      λ keys d es p g _.
        let told = kicked_users es (user ∷ []) in
        (
          keys,
          d,
          p,
          modify_all-Changes (Cleared told) clear_entry keys q s
              (parse_command-Distinct cfg user false text p)
              λ in_.
                let at =
                  get_all-Each (λ p. AllMentioned (p.1.current_users ++ p.1.booking_list) told) keys
                    s es g (kicked_users-AllMentioned es (user ∷ [])) q in_ in
                (
                  at.0,
                  at.1,
                  record { idle_ = refl; unheld = refl; no_line = refl; all_told = at.2 },
                ),
        )
