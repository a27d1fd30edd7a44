-- ===== src/DeviceBot/History.antt =====
-- The histories of a device bot, and the invariant of its cards.
use lockbot.Base.{
  ℕ, ◌+◌, zero, suc, true, false, Bool-cases, Option-cases, inl, inr, Option, none, List, [], ◌∷◌,
  Each, ◌==◌, ◌&&◌,
}
use lockbot.Keys.{Key, card}
use lockbot.Users.{Request, has_user}
use lockbot.State.{Entry, Card, Fleet, fleet, is_idle}
use lockbot.Config.{Config}
use lockbot.Reply.{
  bind_cases, device_in_use_or_shared, device_exclusive_mode, lock_max_duration_exceeded,
  slock_max_duration_exceeded,
}
use lockbot.Sweep.{sweep_entry, entry_scan}
use lockbot.NodeBot.{lock_entry, slock_entry, kick_entry, can_lock, can_share}
use lockbot.NodeBot.Invariant.{
  IsSound, lock_entry-IsSound, slock_entry-IsSound, kick_entry-IsSound, sweep_entry-IsSound,
}
use lockbot.DeviceBot.{
  cards_of, modify_card, modify_cards, modify_node, modify_selected, lock, slock, check_selected,
  selected_nodes, targets,
}
use lockbot.DeviceBot.Parse.{Match, Selection, parse_command, check_nodes}
use lockbot.Policy.{is_empty, check_acquisition_limit_locked, resource_policy_locked}
use lockbot.DeviceBot.Release.{
  UnlockText, bare, names, general, unlock, unlock_names, unlock_selected, released, release_fleet,
  release_cards, release_entry, kickout, clear_entry, do_opkick, opkick_fleet, opkick_cards,
  is_target, wants_dev, captured, check_held, selected_cards,
}
use lockbot.DeviceBot.Sweep.{
  check_and_notify, sweep_fleet, sweep_cards, sweep_card, cards_cons, fleet_cons,
}

-- A statement about each card.
abbrev pub EachOf : (Entry → Type 0) → List Card → Type 0
EachOf P = Each (λ c. P c.entry)

abbrev pub EachCard : (Entry → Type 0) → Fleet → Type 0
EachCard P = Each (λ p. EachOf P p.1)

module _ (P : Entry → Type 0) where
  modify_node-EachCard :
      (g : List Card → List Card) (w : ℕ) (f : Fleet)
      → ((cs : List Card) → EachOf P cs → EachOf P (g cs))
      → EachCard P f
      → EachCard P (modify_node g w f)
  unfolding modify_node
  modify_node-EachCard g w [] h a = tt
  modify_node-EachCard g w ((j, cs) ∷ f) h a = elim (Bool-cases (j == w)) [
    | inl hit ↦ rw hit (h cs a.0, a.1)
    | inr miss ↦ rw miss (a.0, modify_node-EachCard g w f h a.1)
  ]

  module _ (f : ℕ → Entry → Entry) (h : (i : ℕ) (e : Entry) → P e → P (f i e)) where
    modify_card-EachOf :
        (at i : ℕ) (cs : List Card) → EachOf P cs → EachOf P (modify_card f at i cs)
    unfolding modify_card
    modify_card-EachOf at i [] a = tt
    modify_card-EachOf at zero (c ∷ cs) a = (h at c.entry a.0, a.1)
    modify_card-EachOf at (suc i) (c ∷ cs) a = (a.0, modify_card-EachOf at i cs a.1)

    modify_cards-EachOf :
        (is : List ℕ) (cs : List Card) → EachOf P cs → EachOf P (modify_cards f is cs)
    unfolding modify_cards
    modify_cards-EachOf [] cs a = a
    modify_cards-EachOf (i ∷ is) cs a =
        modify_cards-EachOf is (modify_card f i i cs) (modify_card-EachOf i i cs a)

  pub modify_selected-EachCard :
      (f : ℕ → ℕ → Entry → Entry)
      → ((w i : ℕ) (e : Entry) → P e → P (f w i e))
      → (sel : Selection) (s : Fleet) → EachCard P s
      → EachCard P (modify_selected f sel s)
  unfolding modify_selected
  modify_selected-EachCard f h [] s a = a
  modify_selected-EachCard f h ((w, is) ∷ sel) s a =
      modify_selected-EachCard f h sel (modify_node (modify_cards (f w) is) w s)
        (modify_node-EachCard (modify_cards (f w) is) w s (modify_cards-EachOf (f w) (h w) is) a)

  module _ (user : ℕ) (kept : (k : Key) (e : Entry) → P e → P (kick_entry user k e)) where
    release_cards-EachOf :
        (w : ℕ) (cs : List Card) → EachOf P cs → EachOf P (release_cards user w cs)
    unfolding release_cards release_entry
    release_cards-EachOf w [] a = tt
    release_cards-EachOf w (c ∷ cs) a = (
      elim (Bool-cases (is_idle c.entry.status)) [
        | inl free ↦ rw (free, release_entry) a.0
        | inr busy ↦ rw (busy, release_entry) (kept (card w c.dev_id) c.entry a.0)
      ],
      release_cards-EachOf w cs a.1,
    )

    release_fleet-EachCard : (s : Fleet) → EachCard P s → EachCard P (release_fleet user s)
    unfolding release_fleet
    release_fleet-EachCard [] a = tt
    release_fleet-EachCard ((w, cs) ∷ s) a =
        (release_cards-EachOf w cs a.0, release_fleet-EachCard s a.1)

    released-EachCard :
        (ws : List ℕ) (s : Fleet) → EachCard P s → EachCard P (released user ws s).state
    unfolding released
    released-EachCard [] s a = a
    released-EachCard (w ∷ ws) s a = elim (Option-cases (cards_of w s)) [
      | inl miss ↦ rw (miss, released) a
      | inr (cs, hit) ↦
          rw (hit, released)
            (released-EachCard ws (modify_node (release_cards user w) w s)
              (modify_node-EachCard (release_cards user w) w s (release_cards-EachOf w) a))
    ]

    opkick_cards-EachOf :
        (ids : List ℕ) (w i : ℕ) (cs : List Card)
        → EachOf P cs
        → EachOf P (opkick_cards user ids w i cs).0
    unfolding opkick_cards
    opkick_cards-EachOf ids w i [] a = tt
    opkick_cards-EachOf ids w i (c ∷ cs) a =
        elim (Bool-cases (wants_dev ids i && has_user c.entry.current_users user)) [
          | inl yes_ ↦
              rw (yes_, opkick_cards)
                (kept (card w i) c.entry a.0, opkick_cards-EachOf ids w (i + 1) cs a.1)
          | inr no_ ↦ rw (no_, opkick_cards) (a.0, opkick_cards-EachOf ids w (i + 1) cs a.1)
        ]

    opkick_fleet-EachCard :
        (target : Option ℕ) (ids : List ℕ) (s : Fleet)
        → EachCard P s
        → EachCard P (opkick_fleet user target ids s).0
    unfolding opkick_fleet
    opkick_fleet-EachCard target ids [] a = tt
    opkick_fleet-EachCard target ids ((w, cs) ∷ s) a = elim (Bool-cases (is_target target w)) [
      | inl hit ↦
          rw (hit, opkick_fleet)
            (opkick_cards-EachOf ids w 0 cs a.0, opkick_fleet-EachCard target ids s a.1)
      | inr miss ↦ rw (miss, opkick_fleet) (a.0, opkick_fleet-EachCard target ids s a.1)
    ]

  module _ (cfg : Config) (now : ℕ)
      (kept : (k : Key) (e : Entry) → P e → P (sweep_entry cfg now k e)) where
    sweep_cards-EachOf :
        (w : ℕ) (cs : List Card) → EachOf P cs → EachOf P (sweep_cards cfg now w cs).cards
    unfolding sweep_cards sweep_card cards_cons
    sweep_cards-EachOf w [] a = tt
    sweep_cards-EachOf w (c ∷ cs) a =
        elim (Bool-cases (entry_scan cfg now (card w c.dev_id) c.entry).failed) [
          | inl bad ↦ rw (bad, sweep_cards) (kept _ c.entry a.0, a.1)
          | inr good ↦ rw (good, sweep_cards) (kept _ c.entry a.0, sweep_cards-EachOf w cs a.1)
        ]

    sweep_fleet-EachCard : (s : Fleet) → EachCard P s → EachCard P (sweep_fleet cfg now s).state
    unfolding sweep_fleet fleet_cons
    sweep_fleet-EachCard [] a = tt
    sweep_fleet-EachCard ((w, cs) ∷ s) a = elim (Bool-cases (sweep_cards cfg now w cs).failed) [
      | inl bad ↦ rw (bad, sweep_fleet) (sweep_cards-EachOf w cs a.0, a.1)
      | inr good ↦ rw (good, sweep_fleet) (sweep_cards-EachOf w cs a.0, sweep_fleet-EachCard s a.1)
    ]

-- What can happen to a device bot: who does it, and what was matched.
pub data Event : Type 0 where
  locks slocks : Request → ℕ → Option Match → Option ℕ → Event
  unlocks : ℕ → UnlockText → Event
  kickouts : ℕ → Option Match → Event
  opkicks : ℕ → Option ℕ → List ℕ → Event
  sweeps : ℕ → Event

unfoldable pub step : Config → Event → Fleet → Fleet
step cfg (locks r user text limit) s = (lock cfg r user text limit s).state
step cfg (slocks r user text limit) s = (slock cfg r user text limit s).state
step cfg (unlocks user text) s = (unlock cfg user text s).state
step cfg (kickouts user text) s = (kickout cfg user text s).state
step cfg (opkicks user target ids) s = (do_opkick user target ids s).state
step cfg (sweeps now) s = (check_and_notify cfg now s).state

unfoldable pub history : Config → List Event → Fleet → Fleet
history cfg [] s = s
history cfg (c ∷ cs) s = history cfg cs (step cfg c s)

abbrev pub CardsSound : Fleet → Type 0
CardsSound = EachCard IsSound

clear_entry-IsSound : (e : Entry) → IsSound e → IsSound (clear_entry e)
unfolding clear_entry
clear_entry-IsSound e v = record { fits = tt; distinct = tt; no_queue = v.no_queue }

unlock-CardsSound :
    (cfg : Config) (user : ℕ) (text : UnlockText) (s : Fleet)
    → CardsSound s
    → CardsSound (unlock cfg user text s).state
unfolding unlock unlock_names unlock_selected
unlock-CardsSound cfg user bare s a =
    release_fleet-EachCard IsSound user (λ k e v. kick_entry-IsSound user k e v) s a
unlock-CardsSound cfg user (names first rest) s a =
    bind_cases (λ o. CardsSound o.state) s (λ x. a) (check_nodes cfg user (captured first rest)) _
      λ _ _.
        released-EachCard IsSound user (λ k e v. kick_entry-IsSound user k e v)
          (captured first rest) s a
unlock-CardsSound cfg user (general text) s a =
    bind_cases (λ o. CardsSound o.state) s (λ x. a) (parse_command cfg user false text) _
      λ p _.
        bind_cases (λ o. CardsSound o.state) s (λ x. a) (check_held user s p.0) _
          λ _ _.
            modify_selected-EachCard IsSound (λ w i. kick_entry user (card w i))
              (λ w i e v. kick_entry-IsSound user (card w i) e v) p.0 s a

opkick-CardsSound :
    (user : ℕ) (target : Option ℕ) (ids : List ℕ) (s : Fleet)
    → CardsSound s
    → CardsSound (do_opkick user target ids s).state
unfolding do_opkick
opkick-CardsSound user target ids s a =
    let b =
      opkick_fleet-EachCard IsSound user (λ k e v. kick_entry-IsSound user k e v) target ids s a in
    elim (Bool-cases (is_empty (opkick_fleet user target ids s).1)) [
      | inl nothing_ ↦ rw (nothing_, do_opkick) b
      | inr some_ ↦ rw (some_, do_opkick) b
    ]

sweep-CardsSound :
    (cfg : Config) (now : ℕ) (s : Fleet)
    → CardsSound s
    → CardsSound (check_and_notify cfg now s).state
unfolding check_and_notify
sweep-CardsSound cfg now s a =
    let b = sweep_fleet-EachCard IsSound cfg now (λ k e v. sweep_entry-IsSound cfg now k e v) s a in
    elim (Bool-cases (sweep_fleet cfg now s).failed) [
      | inl bad ↦ rw (bad, check_and_notify) b
      | inr good ↦ rw (good, check_and_notify) b
    ]

step-CardsSound : (cfg : Config) (c : Event) (s : Fleet) → CardsSound s → CardsSound (step cfg c s)
unfolding step lock slock kickout
step-CardsSound cfg (locks r user text limit) s a =
    bind_cases (λ o. CardsSound o.state) s (λ x. a) (parse_command cfg user true text) _
      λ p _.
        bind_cases (λ o. CardsSound o.state) s (λ x. a)
          (check_acquisition_limit_locked (fleet s) user (selected_nodes p.0) limit) _
          λ _ _.
            bind_cases (λ o. CardsSound o.state) s (λ x. a)
              (resource_policy_locked cfg r.now (fleet s) user (targets p.0) none) _
              λ _ _.
                bind_cases (λ o. CardsSound o.state) s (λ x. a)
                  (check_selected cfg r user p.1 (can_lock user) device_in_use_or_shared
                    lock_max_duration_exceeded s p.0)
                  _
                  λ _ _.
                    modify_selected-EachCard IsSound (λ w i. lock_entry r user p.1 (card w i))
                      (λ w i e v. lock_entry-IsSound r user p.1 (card w i) e v) p.0 s a
step-CardsSound cfg (slocks r user text limit) s a =
    bind_cases (λ o. CardsSound o.state) s (λ x. a) (parse_command cfg user true text) _
      λ p _.
        bind_cases (λ o. CardsSound o.state) s (λ x. a)
          (check_acquisition_limit_locked (fleet s) user (selected_nodes p.0) limit) _
          λ _ _.
            bind_cases (λ o. CardsSound o.state) s (λ x. a)
              (resource_policy_locked cfg r.now (fleet s) user (targets p.0) none) _
              λ _ _.
                bind_cases (λ o. CardsSound o.state) s (λ x. a)
                  (check_selected cfg r user p.1 can_share device_exclusive_mode
                    slock_max_duration_exceeded s p.0)
                  _
                  λ _ _.
                    modify_selected-EachCard IsSound (λ w i. slock_entry r user p.1 (card w i))
                      (λ w i e v. slock_entry-IsSound r user p.1 (card w i) e v) p.0 s a
step-CardsSound cfg (unlocks user text) s a = unlock-CardsSound cfg user text s a
step-CardsSound cfg (kickouts user text) s a =
    bind_cases (λ o. CardsSound o.state) s (λ x. a) (parse_command cfg user false text) _
      λ p _.
        bind_cases (λ o. CardsSound o.state) s (λ x. a) (selected_cards s p.0) _
          λ _ _.
            modify_selected-EachCard IsSound (λ w i. clear_entry)
              (λ w i e v. clear_entry-IsSound e v) p.0 s a
step-CardsSound cfg (opkicks user target ids) s a = opkick-CardsSound user target ids s a
step-CardsSound cfg (sweeps now) s a = sweep-CardsSound cfg now s a

-- Whatever happens to a device bot, refused or not, over any history: if each card was sound at the
-- start, idle exactly when nobody holds it, exclusive with one holder, no user holding it twice, and
-- nobody waiting, then so is each card at the end.
pub history-CardsSound :
    (cfg : Config) (cs : List Event) (s : Fleet) → CardsSound s → CardsSound (history cfg cs s)
unfolding history
history-CardsSound cfg [] s a = a
history-CardsSound cfg (c ∷ cs) s a =
    history-CardsSound cfg cs (step cfg c s) (step-CardsSound cfg c s a)
