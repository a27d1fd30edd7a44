-- ===== src/Tests/Devices.antt =====
-- The device bot.
use lockbot.Base.{true, ◌≡◌, refl, none, some, List, [], ◌∷◌, arith}
use lockbot.Users.{has_user, find_user_info}
use lockbot.Config.{device, in_cluster}
use lockbot.Reply.{completed, Operation, resource_released}
use lockbot.State.{Card}
use lockbot.DeviceBot.{cards_of}
use lockbot.DeviceBot.Release.{unlock, names}
use lockbot.DeviceBot.Sweep.{merge_devices}
use lockbot.DeviceBot.History.{
  CardsSound, Event, locks, unlocks, kickouts, opkicks, sweeps, history, history-CardsSound,
}
use lockbot.DeviceBot.Names.{Freed, unlock_names-skips}
use lockbot.DeviceBot.Ranges.{merge_devices-expand, expand}
use lockbot.Tests.Data.{config, request, some_cards, ten_cards, held_card, free_card, held, free}
use lockbot.NodeBot.Invariant.{IsSound}

some_cards-CardsSound : CardsSound some_cards
unfolding has_user find_user_info
some_cards-CardsSound =
    let busy : IsSound held = record { fits = tt; distinct = (refl, tt); no_queue = refl } in
    let idle_ : IsSound free = record { fits = tt; distinct = tt; no_queue = refl } in
    ((busy, (idle_, tt)), ((busy, (busy, tt)), ((busy, (busy, tt)), tt)))

abbrev some_events : List Event
some_events =
    locks request 1 (some ten_cards) none
    ∷ unlocks 1 (names 11 (12 ∷ []))
    ∷ kickouts 2 (some ten_cards)
    ∷ opkicks 1 none []
    ∷ sweeps 20000
    ∷ []

history-CardsSound_example : CardsSound (history (config device) some_events some_cards)
history-CardsSound_example =
    history-CardsSound (config device) some_events some_cards some_cards-CardsSound

unlock_names-skips_example :
    let o = unlock (config device) 1 (names 10 (11 ∷ 12 ∷ [])) some_cards in
    (o.saved ≡ true)
    × (o.result ≡ completed Operation.unlock true resource_released (1 ∷ []))
    × ((ds : List Card) × (cards_of 10 o.state ≡ some ds)
        × Freed 1 (held_card 0 ∷ free_card 1 ∷ []) ds)
    × ((ds : List Card) × (cards_of 12 o.state ≡ some ds)
        × Freed 1 (held_card 0 ∷ held_card 1 ∷ []) ds)
    × (cards_of 11 o.state ≡ cards_of 11 some_cards)
unlock_names-skips_example =
    unlock_names-skips (config device) 1 10 11 12 (held_card 0 ∷ free_card 1 ∷ [])
      (held_card 0 ∷ held_card 1 ∷ []) some_cards some_cards-CardsSound (λ e. omega (arith, e))
      (λ e. omega (arith, e)) (λ e. omega (arith, e)) (unfold in_cluster in refl)
      (unfold in_cluster in refl) (unfold cards_of in refl) (unfold cards_of in refl)

merge_devices-expand_example : expand (merge_devices (0 ∷ 1 ∷ 2 ∷ 5 ∷ [])) ≡ 0 ∷ 1 ∷ 2 ∷ 5 ∷ []
merge_devices-expand_example = merge_devices-expand (0 ∷ 1 ∷ 2 ∷ 5 ∷ [])
