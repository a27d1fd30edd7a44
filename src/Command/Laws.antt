-- ===== src/Command/Laws.antt =====
-- What a parsed command gives: known nodes, each once.
use lockbot.Base.{
  ℕ, Bool, ◌≡◌, refl, Option, none, some, List, [], ◌∷◌, map, ◌==◌, ==_iff, dedup,
  dedup_onto-Distinct, Distinct, elem, arith,
}
use lockbot.Keys.{Key, machine, key_eq}
use lockbot.Config.{Config}
use lockbot.Reply.{pass}
use lockbot.Command.{Match, parse_command}

elem-machine : (a : ℕ) (xs : List ℕ) → elem key_eq (machine a) (map machine xs) ≡ elem ◌==◌ a xs
unfolding elem key_eq
elem-machine a [] = refl
elem-machine a (x ∷ xs) = ground (arith, elem-machine a xs)

machines-Distinct : (xs : List ℕ) → Distinct ◌==◌ xs → Distinct key_eq (map machine xs)
machines-Distinct [] d = tt
machines-Distinct (x ∷ xs) d = ground (arith, elem-machine x xs, machines-Distinct xs d.1)

dedup-Distinct : (xs : List ℕ) → Distinct ◌==◌ (dedup xs)
unfolding dedup
dedup-Distinct xs = dedup_onto-Distinct ◌==◌ ==_iff [] xs tt

pub parse_command-Distinct :
    (cfg : Config) (user : ℕ) (timed : Bool) (text : Option Match) {keys : List Key} {duration : ℕ}
    → parse_command cfg user timed text ≡ pass (keys, duration)
    → Distinct key_eq keys
unfolding parse_command
parse_command-Distinct cfg user timed none e = cc
parse_command-Distinct cfg user timed (some m) {keys} e =
    ground (arith, machines-Distinct (dedup m.words), dedup-Distinct m.words)
