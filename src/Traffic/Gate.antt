-- ===== src/Traffic/Gate.antt =====
-- A refusal names a time after which the next request is let through.
use lockbot.Base.{
  ℕ, ◌+◌, ◌-◌, ◌*◌, ◌≤◌, ◌≡◌, ◌⊎◌, inl, inr, ltb, Bool-cases, refl, none, some, ◌<◌, sym, subst,
  ◌==◌, false, Option, List, [], ◌∷◌, leb, length, arith, if-either, ==_refl,
}
use lockbot.Scheduler.{put}
use lockbot.Traffic.{
  Kind, read, write, CredentialBudget, limit_for, hits_of, set_hits, in_window, whole_seconds,
  Verdict, allowed, refused, refuse_hits, check_hits, check, NextEvent, TierGate, floor_for,
  gate_verdict, gate_check, gate_record, own_lock_expiry, own_early_warning, claim_window_end,
  node_frees, queue_estimate, other,
}

length-in_window-le : (w now : ℕ) (ts : List ℕ) → length (in_window w now ts) ≤ length ts
unfolding in_window
length-in_window-le w now [] = omega arith
length-in_window-le w now (t ∷ ts) = ground (arith, length-in_window-le w now ts)

whole_seconds-lt : (ms : ℕ) → ms + 1 ≤ whole_seconds ms * 1000
unfolding whole_seconds
whole_seconds-lt ms = omega arith

-- The oldest hit has left the window after the time that the refusal names.
after_wait :
    (w limit now later k : ℕ) (ks : List ℕ)
    → length ks + 1 ≤ limit
    → now + whole_seconds ((w + k) - now) * 1000 ≤ later
    → (check_hits w limit later (k ∷ ks)).0 ≡ allowed
unfolding check_hits in_window
after_wait w limit now later k ks le wait =
    ground (arith, whole_seconds-lt ((w + k) - now), length-in_window-le w later ks)

refuse_hits-retries :
    (w limit now n later : ℕ) (hits kept : List ℕ)
    → length kept ≤ limit
    → (refuse_hits w now hits kept).0 ≡ refused n
    → now + n * 1000 ≤ later
    → (check_hits w limit later (refuse_hits w now hits kept).1).0 ≡ allowed
unfolding refuse_hits
refuse_hits-retries w limit now n later hits [] le r wait = cc
refuse_hits-retries w limit now n later hits (k ∷ ks) le r wait =
    let named : whole_seconds ((w + k) - now) ≡ n = cc in
    after_wait w limit now later k ks (ground arith)
      (subst (λ n'. now + n' * 1000 ≤ later) (sym named) wait)

check_hits-retries :
    (w limit now n later : ℕ) (hits : List ℕ)
    → length hits ≤ limit
    → (check_hits w limit now hits).0 ≡ refused n
    → now + n * 1000 ≤ later
    → (check_hits w limit later (check_hits w limit now hits).1).0 ≡ allowed
unfolding check_hits
check_hits-retries w limit now n later hits le =
    if-either
      (λ (r : Verdict × List ℕ).
        r.0 ≡ refused n → now + n * 1000 ≤ later → (check_hits w limit later r.1).0 ≡ allowed)
      (leb limit (length (in_window w now hits)))
      (λ full.
        refuse_hits-retries w limit now n later hits (in_window w now hits)
          (omega (arith, length-in_window-le w now hits, le)))
      (λ room r wait. cc)

put_same : (d : ℕ → List ℕ) (c : ℕ) (hits : List ℕ) → put d c hits c ≡ hits
unfolding put
put_same d c hits = ground (arith, ==_refl c)

-- A call that is refused with a time to wait is let through when that time is over, if the same
-- credential has made no other call of the kind meanwhile and had no more than `limit` hits.
pub check-retries :
    (kind : Kind) (c now n later : ℕ) (b : CredentialBudget)
    → length (hits_of b kind c) ≤ limit_for b kind
    → (check c kind now b).0 ≡ refused n
    → now + n * 1000 ≤ later
    → (check c kind later (check c kind now b).1).0 ≡ allowed
unfolding check hits_of set_hits limit_for
check-retries read c now n later b le r wait =
    subst (λ hits. (check_hits b.window b.read_limit later hits).0 ≡ allowed)
      (sym (put_same b.read_hits c _))
      (check_hits-retries b.window b.read_limit now n later (b.read_hits c) le r wait)
check-retries write c now n later b le r wait =
    subst (λ hits. (check_hits b.window b.write_limit later hits).0 ≡ allowed)
      (sym (put_same b.write_hits c _))
      (check_hits-retries b.window b.write_limit now n later (b.write_hits c) le r wait)

-- The least time between polls that the next event of a poll asks for: that of the active tier for an
-- event of the caller's own lease or claim or for a node that frees, that of the booking tier for an
-- estimate of a queue, and else that of the discovery tier.
pub data Floor (g : TierGate) : Option NextEvent → ℕ → Type 0 where
  lock_expires : Floor g (some own_lock_expiry) g.active
  warning_comes : Floor g (some own_early_warning) g.active
  claim_ends : Floor g (some claim_window_end) g.active
  node_is_freed : Floor g (some node_frees) g.active
  queue_moves : Floor g (some queue_estimate) g.booking
  something_else : Floor g (some other) g.discovery
  nothing : Floor g none g.discovery

Floor-floor_for :
    (g : TierGate) (kind : Option NextEvent) (f : ℕ) → Floor g kind f → floor_for g kind ≡ f
unfolding floor_for
Floor-floor_for g _ _ lock_expires = refl
Floor-floor_for g _ _ warning_comes = refl
Floor-floor_for g _ _ claim_ends = refl
Floor-floor_for g _ _ node_is_freed = refl
Floor-floor_for g _ _ queue_moves = refl
Floor-floor_for g _ _ something_else = refl
Floor-floor_for g _ _ nothing = refl

-- After a poll of a credential is recorded, its next one is let through exactly when the least time
-- that the tier of its next event asks for has passed since; before that it is refused with a wait of
-- whole seconds after which it is let through, and which is at most one second too long. The polls of
-- any other credential are answered as before.
pub gate_check-gate_record :
    (c d now later f : ℕ) (kind : Option NextEvent) (g : TierGate)
    → c == d ≡ false
    → Floor g kind f
    → (((now + f ≤ later) × (gate_check c later (gate_record c kind now g) ≡ allowed))
        ⊎ ((later < now + f)
            × ((n : ℕ) × (gate_check c later (gate_record c kind now g) ≡ refused n)
                × (now + f < later + n * 1000)
                × (later + n * 1000 ≤ now + f + 1000))))
      × (gate_check d later (gate_record c kind now g) ≡ gate_check d later g)
unfolding gate_check gate_record gate_verdict put whole_seconds
gate_check-gate_record c d now later f kind g distinct tier =
    let same = Floor-floor_for g kind f tier in
    (
      elim (Bool-cases (ltb later (f + now))) [
        | inl early ↦ inr (
          ground arith,
          (
            whole_seconds ((f + now) - later),
            ground (arith, ==_refl c, same),
            ground arith,
            ground arith,
          ),
        )
        | inr late ↦ inl (ground arith, ground (arith, ==_refl c, same))
      ],
      ground arith,
    )
