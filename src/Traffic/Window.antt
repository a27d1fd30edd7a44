-- ===== src/Traffic/Window.antt =====
-- What the budget of a credential lets through in a window.
use lockbot.Base.{
  ℕ, ◌+◌, ◌≤◌, ◌≡◌, ◌∙◌, refl, sym, ap, ◌&&◌, ◌==◌, Bool, true, false, List, [], ◌∷◌, ◌++◌, leb,
  length, if◌then◌else◌, arith, if-either, Bool-cases, inl, inr, subst, ==_refl,
}
use lockbot.Scheduler.{put}
use lockbot.Traffic.{
  Kind, read, write, CredentialBudget, limit_for, hits_of, set_hits, in_window, Verdict, allowed,
  raised, refused, refuse_hits, check_hits, check,
}

pub record Call : Type 0 where
  pub credential : ℕ
  pub kind : Kind
  pub at : ℕ

unfoldable pub is_allowed : Verdict → Bool
is_allowed allowed = true
is_allowed raised = false
is_allowed (refused n) = false

unfoldable pub same_kind : Kind → Kind → Bool
same_kind read read = true
same_kind read write = false
same_kind write read = false
same_kind write write = true

-- The times of the calls of one key that are let through, the newest first, before `log`.
unfoldable pub let_through : Kind → ℕ → List Call → CredentialBudget → List ℕ → List ℕ
let_through kind c [] b log = log
let_through kind c (call ∷ calls) b log =
    let (verdict, b') = check call.credential call.kind call.at b in
    let_through kind c calls b' (
      if (same_kind call.kind kind && call.credential == c) && is_allowed verdict
      then call.at ∷ log
      else log)

-- How many of these times are later than `window` before `now`.
unfoldable pub recent : ℕ → ℕ → List ℕ → ℕ
recent window now [] = 0
recent window now (t ∷ ts) =
    if leb (t + window) now then recent window now ts else recent window now ts + 1

length-in_window : (w now : ℕ) (ts : List ℕ) → length (in_window w now ts) ≡ recent w now ts
unfolding in_window recent
length-in_window w now [] = refl
length-in_window w now (t ∷ ts) = ground (arith, length-in_window w now ts)

-- Each of these times, the newest first, has fewer than `limit` of the earlier ones in its window.
abbrev pub Spread : ℕ → ℕ → List ℕ → Type 0
Spread window limit [] = Unit
Spread window limit (t ∷ ts) = (recent window t ts + 1 ≤ limit) × Spread window limit ts

abbrev pub InOrder : ℕ → List Call → Type 0
InOrder from [] = Unit
InOrder from (call ∷ calls) = (from ≤ call.at) × InOrder call.at calls

in_window-in_window :
    (w now later : ℕ) (ts : List ℕ)
    → now ≤ later
    → in_window w later (in_window w now ts) ≡ in_window w later ts
unfolding in_window
in_window-in_window w now later [] h = refl
in_window-in_window w now later (t ∷ ts) h = ground (arith, in_window-in_window w now later ts h)

length-in_window-append :
    (w now : ℕ) (ts us : List ℕ)
    → length (in_window w now (ts ++ us))
      ≡ length (in_window w now ts) + length (in_window w now us)
unfolding in_window
length-in_window-append w now [] us = omega arith
length-in_window-append w now (t ∷ ts) us = ground (arith, length-in_window-append w now ts us)

-- From `from` on, the hits of a key and the log agree on how many are in the window.
abbrev Agree : ℕ → ℕ → List ℕ → List ℕ → Type 0
Agree w from hits log =
    (now : ℕ) → from ≤ now → length (in_window w now hits) ≡ length (in_window w now log)

module _ (w limit from now : ℕ) (hits log : List ℕ) (later : from ≤ now) where
  abbrev Step : Verdict × List ℕ → Type 0
  Step r =
      Agree w now r.1 (if is_allowed r.0 then now ∷ log else log)
      × Spread w limit (if is_allowed r.0 then now ∷ log else log)

  kept-Agree :
      (r : Verdict × List ℕ) → Agree w from hits log → Agree w now (in_window w now hits) log
  kept-Agree r agree t h = ground (arith, in_window-in_window w now t hits h, agree t)

  refuse_hits-Step :
      (kept : List ℕ)
      → kept ≡ in_window w now hits
      → Agree w from hits log
      → Spread w limit log
      → Step (refuse_hits w now hits kept)
  unfolding refuse_hits is_allowed
  refuse_hits-Step [] e agree spread = (λ t h. agree t (omega arith), spread)
  refuse_hits-Step (k ∷ ks) e agree spread = (
    λ t h.
        ap (λ ts. length (in_window w t ts)) e
        ∙ ap length (in_window-in_window w now t hits h)
        ∙ agree t (omega arith),
    spread,
  )

  allow_hits-Agree :
      Agree w from hits log → Agree w now (in_window w now hits ++ now ∷ []) (now ∷ log)
  unfolding in_window
  allow_hits-Agree agree t h = ground (
    arith,
    length-in_window-append w t (in_window w now hits) (now ∷ []),
    in_window-in_window w now t hits h,
    agree t,
  )

  check_hits-Step : Agree w from hits log → Spread w limit log → Step (check_hits w limit now hits)
  unfolding check_hits is_allowed
  check_hits-Step agree spread =
      if-either Step (leb limit (length (in_window w now hits)))
        (λ full. refuse_hits-Step (in_window w now hits) refl agree spread)
        (λ room.
          (allow_hits-Agree agree, (ground (arith, agree now, length-in_window w now log), spread)))

same_kind-eq : (a b : Kind) → same_kind a b ≡ true → a ≡ b
unfolding same_kind
same_kind-eq read read h = refl
same_kind-eq read write h = cc
same_kind-eq write read h = cc
same_kind-eq write write h = refl

-- The check of one key concerns that key alone, and no limit.
module _ (kind : Kind) (c : ℕ) (b : CredentialBudget) where
  pub check-own :
      (k : Kind) (now : ℕ)
      → hits_of (check c k now b).1 k c
        ≡ (check_hits b.window (limit_for b k) now (hits_of b k c)).1
  unfolding check hits_of set_hits put
  check-own read now = ground (arith, ==_refl c)
  check-own write now = ground (arith, ==_refl c)

  check-other :
      (call : Call)
      → (same_kind call.kind kind && call.credential == c) ≡ false
      → hits_of (check call.credential call.kind call.at b).1 kind c ≡ hits_of b kind c
  unfolding check hits_of set_hits put limit_for same_kind
  check-other call other = ground arith

  pub check-limits :
      (call : Call)
      → ((check call.credential call.kind call.at b).1.window ≡ b.window)
        × (limit_for (check call.credential call.kind call.at b).1 kind ≡ limit_for b kind)
  unfolding check set_hits limit_for
  check-limits call = ground arith

  -- The state of the key and its log, after a check of whichever key.
  abbrev Kept : ℕ → CredentialBudget → List ℕ → Type 0
  Kept from b' log =
      Agree b.window from (hits_of b' kind c) log × Spread b.window (limit_for b kind) log

  abbrev logged : Call → List ℕ → List ℕ
  logged call log =
      if (same_kind call.kind kind && call.credential == c)
        && is_allowed (check call.credential call.kind call.at b).0
      then call.at ∷ log
      else log

  own-Kept :
      (from now : ℕ) (log : List ℕ)
      → from ≤ now
      → Kept from b log
      → Kept now
          (check c kind now b).1
          (if is_allowed (check c kind now b).0 then now ∷ log else log)
  unfolding check
  own-Kept from now log h kept =
      let r = check_hits b.window (limit_for b kind) now (hits_of b kind c) in
      let s =
        check_hits-Step b.window (limit_for b kind) from now (hits_of b kind c) log h kept.0
          kept.1 in
      (
        subst (λ hs. Agree b.window now hs (if is_allowed r.0 then now ∷ log else log))
            (sym (check-own kind now)) s.0,
        s.1,
      )

  call-Kept :
      (from : ℕ) (call : Call) (log : List ℕ)
      → from ≤ call.at
      → Kept from b log
      → Kept call.at (check call.credential call.kind call.at b).1 (logged call log)
  call-Kept from call log h kept =
      elim (Bool-cases (same_kind call.kind kind && call.credential == c)) [
        | inl same ↦
            let k : kind ≡ call.kind = sym (same_kind-eq call.kind kind (ground arith)) in
            let o : c ≡ call.credential = ground arith in
            let After : ℕ → Kind → Type 0 = λ c' k'.
              let r = check c' k' call.at b in
              Kept call.at r.1 (if is_allowed r.0 then call.at ∷ log else log) in
            rw same (
              subst (λ c'. After c' call.kind) o
                (subst (λ k'. After c k') k (own-Kept from call.at log h kept)))
        | inr other ↦ rw other (
          λ t le.
              ap (λ hits. length (in_window b.window t hits)) (check-other call other)
              ∙ kept.0 t (omega arith),
          kept.1,
        )
      ]

let_through-Kept :
    (kind : Kind) (c from w limit : ℕ) (calls : List Call) (b : CredentialBudget) (log : List ℕ)
    → b.window ≡ w
    → limit_for b kind ≡ limit
    → InOrder from calls
    → Agree w from (hits_of b kind c) log
    → Spread w limit log
    → Spread w limit (let_through kind c calls b log)
unfolding let_through
let_through-Kept kind c from w limit [] b log ew el order agree spread = spread
let_through-Kept kind c from w limit (call ∷ calls) b log ew el order agree spread =
    let b' = (check call.credential call.kind call.at b).1 in
    let same = check-limits kind c b call in
    let kept : Kept kind c b call.at b' (logged kind c b call log) =
      call-Kept kind c b from call log order.0 (
        subst (λ w'. Agree w' from (hits_of b kind c) log) (sym ew) agree,
        subst (λ w'. Spread w' (limit_for b kind) log) (sym ew)
            (subst (λ l'. Spread w l' log) (sym el) spread),
      ) in
    let Here : ℕ → ℕ → Type 0 = λ w' limit'.
      Agree w' call.at (hits_of b' kind c) (logged kind c b call log)
      × Spread w' limit' (logged kind c b call log) in
    let here : Here w limit =
      subst (λ w'. Here w' limit) ew (subst (λ l'. Here b.window l') el kept) in
    let_through-Kept kind c call.at w limit calls b' (logged kind c b call log) (same.0 ∙ ew)
      (same.1 ∙ el) order.1 here.0 here.1

unfoldable pub fresh : ℕ → ℕ → ℕ → CredentialBudget
fresh read_limit write_limit window = record {
  read_limit = read_limit;
  write_limit = write_limit;
  window = window;
  read_hits = λ c. [];
  write_hits = λ c. [];
}

-- The limit of the kind of call.
unfoldable pub of_kind : Kind → ℕ → ℕ → ℕ
of_kind read read_limit write_limit = read_limit
of_kind write read_limit write_limit = write_limit

-- From a budget without hits, whatever credentials call for reads or writes, at times that do not
-- decrease: of one credential and kind, at most the limit of the kind are let through in any window, that is,
-- each one that is let through finds fewer than the limit earlier ones at less than `window` before it.
pub let_through-Spread :
    (kind : Kind) (c read_limit write_limit window : ℕ) (calls : List Call)
    → InOrder 0 calls
    → Spread window
        (of_kind kind read_limit write_limit)
        (let_through kind c calls (fresh read_limit write_limit window) [])
unfolding fresh hits_of limit_for of_kind
let_through-Spread kind c r w window calls order =
    let b = fresh r w window in
    let no_hits : hits_of b kind c ≡ [] = nothing_yet kind in
    let_through-Kept kind c 0 window (of_kind kind r w) calls b [] refl (limited kind) order
      (λ now h. ap (λ hits. length (in_window window now hits)) no_hits) tt
  where
    limited : (k : Kind) → limit_for (fresh r w window) k ≡ of_kind k r w
    limited read = refl
    limited write = refl

    nothing_yet : (k : Kind) → hits_of (fresh r w window) k c ≡ []
    nothing_yet read = refl
    nothing_yet write = refl
