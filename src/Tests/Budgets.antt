-- ===== src/Tests/Budgets.antt =====
-- The budgets of credentials.
use lockbot.Base.{◌+◌, ◌≤◌, ◌≡◌, ◌<◌, ◌*◌, ◌⊎◌, ℕ, refl, none, some, List, [], ◌∷◌, arith}
use lockbot.Traffic.{
  read, write, CredentialBudget, limit_for, hits_of, in_window, check, check_hits, refuse_hits,
  whole_seconds, allowed, refused, TierGate, node_frees, gate_check, gate_record,
}
use lockbot.Traffic.Window.{Call, Spread, let_through, fresh, of_kind, let_through-Spread}
use lockbot.Traffic.Gate.{check-retries, gate_check-gate_record, node_is_freed}

-- Two writes a minute: the third one of credential 1 is refused, a read of it is not.
abbrev some_calls : List Call
some_calls =
    (record { credential = 1; kind = write; at = 1000 })
    ∷ (record { credential = 1; kind = write; at = 2000 })
    ∷ (record { credential = 1; kind = write; at = 31500 })
    ∷ (record { credential = 1; kind = read; at = 31500 })
    ∷ (record { credential = 1; kind = write; at = 61500 })
    ∷ []

let_through-Spread_example :
    Spread 60000 (of_kind write 120 2) (let_through write 1 some_calls (fresh 120 2 60000) [])
let_through-Spread_example =
    let_through-Spread write 1 120 2 60000 some_calls
      (omega arith, (omega arith, (omega arith, (omega arith, (omega arith, tt)))))

abbrev used : CredentialBudget
used = record {
  read_limit = 120;
  write_limit = 2;
  window = 60000;
  read_hits = λ c. [];
  write_hits = λ c. 1000 ∷ 2000 ∷ [];
}

-- Refused at 31.5 s for 30 s, and let through at 61.5 s.
check-retries_example : (check 1 write 61500 (check 1 write 31500 used).1).0 ≡ allowed
check-retries_example =
    check-retries write 1 31500 30 61500 used (unfold hits_of limit_for in omega arith)
      (unfold check check_hits refuse_hits hits_of limit_for in_window whole_seconds in refl)
      (omega arith)

abbrev a_gate : TierGate
a_gate = record { active = 10000; booking = 20000; discovery = 40000; last = λ c. none }

gate_check-gate_record_example :
    (((5000 + 10000 ≤ 14000)
        × (gate_check 1 14000 (gate_record 1 (some node_frees) 5000 a_gate) ≡ allowed))
      ⊎ ((14000 < 5000 + 10000)
          × ((n : ℕ) × (gate_check 1 14000 (gate_record 1 (some node_frees) 5000 a_gate)
                ≡ refused n)
              × (5000 + 10000 < 14000 + n * 1000)
              × (14000 + n * 1000 ≤ 5000 + 10000 + 1000))))
    × (gate_check 2 14000 (gate_record 1 (some node_frees) 5000 a_gate) ≡ gate_check 2 14000 a_gate)
gate_check-gate_record_example =
    gate_check-gate_record 1 2 5000 14000 10000 (some node_frees) a_gate refl node_is_freed
