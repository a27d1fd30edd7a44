-- ===== src/Manager/Admit.antt =====
-- When an operation is admitted, and what each refusal says.
use lockbot.Base.{
  ℕ, ◌+◌, ◌≤◌, ◌≡◌, ◌⊎◌, inl, inr, refl, true, false, ◌&&◌, Option, none, some, leb, arith,
  if-either,
}
use lockbot.Scheduler.{is_stale}
use lockbot.Manager.{
  Slot, Lease, Health, Request, found, Admission, admitted, refused, instance_retiring,
  bot_not_running, admission_full, already_running, is_at, admit, admit_instance, find_instance,
  find_failed, health_or_error,
}

-- The lease is on the live instance, which is active, or for a read on the retained failed one.
abbrev pub Leases : Request → Slot → Lease → Type 0
Leases r s l =
    ((s.live ≡ some l.instance) × (is_at s.staged s.generation ≡ false) × (l.health ≡ s.health))
    ⊎ ((s.live ≡ none)
        × (r.for_read ≡ true)
        × (s.failed ≡ some l.instance)
        × (l.health ≡ health_or_error s.health))

abbrev pub Verdict : ℕ → Request → Slot → Admission → Type 0
Verdict max_inflight r s (admitted l s') =
    (s' ≡ record s { inflight = s.inflight + 1 })
    × (l.generation ≡ s.generation)
    × (s.retiring ≡ false)
    × (is_stale r.expected_generation s.generation ≡ false)
    × (is_stale r.expected_instance l.instance ≡ false)
    × ((r.enforce_cap && leb max_inflight s.inflight) ≡ false)
    × Leases r s l
Verdict max_inflight r s (refused instance_retiring) =
    (s.retiring ≡ true)
    ⊎ ((is_at s.staged s.generation ≡ true)
        ⊎ ((is_stale r.expected_generation s.generation ≡ true)
            ⊎ ((i : ℕ) × (((s.live ≡ some i) ⊎ (s.failed ≡ some i))
                  × (is_stale r.expected_instance i ≡ true)))))
Verdict max_inflight r s (refused bot_not_running) =
    (s.live ≡ none) × ((r.for_read ≡ false) ⊎ (s.failed ≡ none))
Verdict max_inflight r s (refused admission_full) =
    (r.enforce_cap ≡ true) × (max_inflight ≤ s.inflight)
Verdict max_inflight r s (refused already_running) = ⊥

module _ (max : ℕ) (r : Request) (s : Slot) where
  found-Verdict :
      (i : ℕ) (health : Option Health)
      → s.retiring ≡ false
      → ((s.live ≡ some i) ⊎ (s.failed ≡ some i))
      → Leases r s (record { generation = s.generation; instance = i; health = health })
      → Verdict max r s (admit_instance max r s (found i health))
  unfolding admit_instance
  found-Verdict i health open_ at leases =
      let P = Verdict max r s in
      if-either P (is_stale r.expected_generation s.generation) (λ old. inr (inr (inl old)))
        (λ same.
          if-either P (is_stale r.expected_instance i) (λ other. inr (inr (inr (i, (at, other)))))
            (λ same_instance.
              if-either P (r.enforce_cap && leb max s.inflight) (λ full. ground arith)
                (λ room. (refl, refl, open_, same, same_instance, room, leases))))

  find_failed-Verdict :
      (failed : Option ℕ)
      → s.live ≡ none
      → s.retiring ≡ false
      → r.for_read ≡ true
      → s.failed ≡ failed
      → Verdict max r s (admit_instance max r s (find_failed s failed))
  unfolding find_failed admit_instance
  find_failed-Verdict none gone open_ read e = (gone, inr e)
  find_failed-Verdict (some i) gone open_ read e =
      found-Verdict i _ open_ (inr e) (inr (gone, read, e, refl))

  find_instance-Verdict :
      (live : Option ℕ)
      → s.live ≡ live
      → s.retiring ≡ false
      → Verdict max r s (admit_instance max r s (find_instance r.for_read s live))
  unfolding find_instance admit_instance
  find_instance-Verdict none e open_ =
      if-either (λ f. Verdict max r s (admit_instance max r s f)) r.for_read
        (λ read. find_failed-Verdict s.failed e open_ read refl) (λ write. (e, inl write))
  find_instance-Verdict (some i) e open_ =
      if-either (λ f. Verdict max r s (admit_instance max r s f)) (is_at s.staged s.generation)
        (λ staged. inr (inl staged))
        (λ active. found-Verdict i s.health open_ (inl e) (inl (e, active, refl)))

-- The outcome of `admit`. An operation is admitted only when the bot is not retiring, the registration
-- that it is bound to is the present one, and it fits under the cap or is not under it; its lease is on
-- the live instance, activated, or, for a read of a bot with no live instance, on the retained failed
-- one, then with the health recorded or else `error`; the count goes up by one and nothing else
-- changes. InstanceRetiring means that the bot is retiring, that its generation is not activated yet, or
-- that the expected generation or instance is not the one there; BotNotRunning that nothing is live, and
-- that the request is no read or nothing is retained; AdmissionFull that the request is under the cap
-- and `max_inflight` operations are outstanding. No other error is raised.
pub admit-Verdict :
    (max_inflight : ℕ) (r : Request) (s : Slot) → Verdict max_inflight r s (admit max_inflight r s)
unfolding admit
admit-Verdict max r s =
    if-either (Verdict max r s) s.retiring (λ retiring. inl retiring)
      (λ open_. find_instance-Verdict max r s s.live refl open_)
