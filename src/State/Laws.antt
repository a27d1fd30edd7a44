-- ===== src/State/Laws.antt =====
-- What looking up and modifying entries do to a store.
use lockbot.Base.{
  ℕ, Bool, true, false, ◌≡◌, refl, sym, Option, none, some, Option-cases, List, [], ◌∷◌,
  if◌then◌else◌, arith, Bool-cases, elem, Distinct, inl, inr, ◌⊎◌, Each, all, map, ap,
}
use mathlib.Core.Path.{subst, subst₂}
use lockbot.Keys.{Key, key_eq, key_eq_iff}
use lockbot.Users.{UserInfo, find_user_info}
use lockbot.State.{Entry, Store, lookup, get_all, modify, modify_all, modify_each}

-- A statement about each entry of a store.
abbrev pub EachEntry : (Key → Entry → Type 0) → Store → Type 0
EachEntry P = Each (λ p. P p.0 p.1)

pub modify-EachEntry :
    (P : Key → Entry → Type 0) (f : Key → Entry → Entry)
    → ((k : Key) (e : Entry) → P k e → P k (f k e))
    → (k : Key) (s : Store) → EachEntry P s
    → EachEntry P (modify f k s)
unfolding modify
modify-EachEntry P f h k [] a = tt
modify-EachEntry P f h k ((j, e) ∷ s) a = elim (Bool-cases (key_eq j k)) [
  | inl hit ↦ rw hit (h j e a.0, a.1)
  | inr miss ↦ rw miss (a.0, modify-EachEntry P f h k s a.1)
]

pub modify_all-EachEntry :
    (P : Key → Entry → Type 0) (f : Key → Entry → Entry)
    → ((k : Key) (e : Entry) → P k e → P k (f k e))
    → (ks : List Key) (s : Store) → EachEntry P s
    → EachEntry P (modify_all f ks s)
unfolding modify_all
modify_all-EachEntry P f h [] s a = a
modify_all-EachEntry P f h (k ∷ ks) s a =
    modify_all-EachEntry P f h ks (modify f k s) (modify-EachEntry P f h k s a)

pub modify_each-EachEntry :
    (P : Key → Entry → Type 0) (f : Key → Entry → Entry)
    → ((k : Key) (e : Entry) → P k e → P k (f k e))
    → (s : Store) → EachEntry P s
    → EachEntry P (modify_each f s)
unfolding modify_each
modify_each-EachEntry P f h [] a = tt
modify_each-EachEntry P f h ((j, e) ∷ s) a = (h j e a.0, modify_each-EachEntry P f h s a.1)

-- An update of an optional entry.
abbrev pub map_entry : (Entry → Entry) → Option Entry → Option Entry
map_entry f none = none
map_entry f (some e) = some (f e)

pub lookup-modify :
    (f : Key → Entry → Entry) (k q : Key) (s : Store)
    → lookup q (modify f k s) ≡ (if key_eq q k then map_entry (f q) (lookup q s) else lookup q s)
unfolding lookup modify
lookup-modify f k q [] = elim (Bool-cases (key_eq q k)) [ inl e ↦ rw e | inr e ↦ rw e ]
lookup-modify f k q ((j, e) ∷ s) =
    ground (arith, lookup-modify f k q s, key_eq_iff j k, key_eq_iff j q, key_eq_iff q k)

pub lookup-modify_all :
    (f : Key → Entry → Entry) (ks : List Key) (q : Key) (s : Store)
    → Distinct key_eq ks
    → lookup q (modify_all f ks s)
      ≡ (if elem key_eq q ks then map_entry (f q) (lookup q s) else lookup q s)
unfolding modify_all elem
lookup-modify_all f [] q s d = refl
lookup-modify_all f (k ∷ ks) q s d = ground (
  arith,
  lookup-modify_all f ks q (modify f k s) d.1,
  lookup-modify f k q s,
  key_eq_iff k q,
  key_eq_iff q k,
)

pub lookup-modify_each :
    (f : Key → Entry → Entry) (q : Key) (s : Store)
    → lookup q (modify_each f s) ≡ map_entry (f q) (lookup q s)
unfolding lookup modify_each
lookup-modify_each f q [] = refl
lookup-modify_each f q ((j, e) ∷ s) = ground (arith, lookup-modify_each f q s, key_eq_iff j q)

-- The entries that `get_all` gives are those of the store: what holds of each holds at each key.
pub get_all-Each :
    (P : Key × Entry → Type 0) (ks : List Key) (s : Store) (es : List (Key × Entry))
    → get_all ks s ≡ some es
    → Each P es
    → (q : Key) → elem key_eq q ks ≡ true
    → (e : Entry) × (lookup q s ≡ some e) × P (q, e)
unfolding get_all elem
get_all-Each P [] s es g a q m = cc
get_all-Each P (k ∷ ks) s es g a q m = elim (Option-cases (lookup k s)) [
  | inl miss ↦ absurd (ground arith)
  | inr (e, hit) ↦ elim (Option-cases (get_all ks s)) [
    | inl miss ↦ absurd (ground arith)
    | inr (rest, got) ↦
        let listed : (k, e) ∷ rest ≡ es = ground arith in
        let each : Each P ((k, e) ∷ rest) = subst (Each P) (sym listed) a in
        elim (Bool-cases (key_eq k q)) [
          | inl same ↦
              let k≡q : k ≡ q = (key_eq_iff k q).0 same in
              subst (λ x. (y : Entry) × (lookup x s ≡ some y) × P (x, y)) k≡q (e, hit, each.0)
          | inr other ↦ get_all-Each P ks s rest got each.1 q (ground arith)
        ]
  ]
]

-- The entries that `get_all` gives are listed under the keys asked for, each as it stands.
pub get_all-keys :
    (ks : List Key) (s : Store) (es : List (Key × Entry))
    → get_all ks s ≡ some es
    → map (λ p. p.0) es ≡ ks
unfolding get_all
get_all-keys [] s es g = ground arith
get_all-keys (k ∷ ks) s es g = elim (Option-cases (lookup k s)) [
  | inl miss ↦ absurd (ground arith)
  | inr (e, hit) ↦ elim (Option-cases (get_all ks s)) [
    | inl miss ↦ absurd (ground arith)
    | inr (rest, got) ↦
        let listed : (k, e) ∷ rest ≡ es = ground arith in
        subst (λ x. map (λ p. p.0) x ≡ k ∷ ks) listed (ap (λ x. k ∷ x) (get_all-keys ks s rest got))
  ]
]

pub get_all-Tracks :
    (ks : List Key) (s : Store) (es : List (Key × Entry))
    → get_all ks s ≡ some es
    → Each (λ p. lookup p.0 s ≡ some p.1) es
unfolding get_all
get_all-Tracks [] s es g = subst (Each (λ p. lookup p.0 s ≡ some p.1)) (none_there es g) tt
  where
    none_there : (es : List (Key × Entry)) → some [] ≡ some es → [] ≡ es
    none_there es g = ground arith
get_all-Tracks (k ∷ ks) s es g = elim (Option-cases (lookup k s)) [
  | inl miss ↦ absurd (ground arith)
  | inr (e, hit) ↦ elim (Option-cases (get_all ks s)) [
    | inl miss ↦ absurd (ground arith)
    | inr (rest, got) ↦
        let listed : (k, e) ∷ rest ≡ es = ground arith in
        subst (Each (λ p. lookup p.0 s ≡ some p.1)) listed (hit, get_all-Tracks ks s rest got)
  ]
]

all-Each {ℓ} :
    {A : Type ℓ} (p : A → Bool) (xs : List A) → all p xs ≡ true → Each (λ x. p x ≡ true) xs
all-Each p [] h = tt
all-Each p (x ∷ xs) h = (ground arith, all-Each p xs (ground arith))

pub get_all-all :
    (p : Key × Entry → Bool) (ks : List Key) (s : Store) (es : List (Key × Entry))
    → get_all ks s ≡ some es
    → all p es ≡ true
    → (q : Key) → elem key_eq q ks ≡ true
    → (e : Entry) × (lookup q s ≡ some e) × (p (q, e) ≡ true)
get_all-all p ks s es g a = get_all-Each (λ x. p x ≡ true) ks s es g (all-Each p es a)

-- The record under which a user holds a resource.
unfoldable pub held_by : ℕ → Option Entry → Option UserInfo
held_by user none = none
held_by user (some e) = find_user_info e.current_users user

unfoldable pub holding : ℕ → Key → Store → Option UserInfo
unfolding held_by
holding user k s = held_by user (lookup k s)

pub lookup_EachEntry :
    (P : Key → Entry → Type 0) (k : Key) (s : Store) (e : Entry)
    → EachEntry P s
    → lookup k s ≡ some e
    → P k e
unfolding lookup
lookup_EachEntry P k [] e a h = cc
lookup_EachEntry P k ((j, x) ∷ s) e a h = elim (Bool-cases (key_eq j k)) [
  | inl same ↦ let x≡e : x ≡ e = ground arith in subst₂ P ((key_eq_iff j k).0 same) x≡e a.0
  | inr other ↦ lookup_EachEntry P k s e a.1 (rw other at h)
]

-- The change needs to keep the statement only at the entry it meets.
pub modify-EachEntry_at :
    (P : Key → Entry → Type 0) (f : Key → Entry → Entry) (k : Key) (s : Store)
    → EachEntry P s
    → ((e : Entry) → lookup k s ≡ some e → P k e → P k (f k e))
    → EachEntry P (modify f k s)
unfolding modify lookup
modify-EachEntry_at P f k [] a h = tt
modify-EachEntry_at P f k ((j, e) ∷ s) a h = elim (Bool-cases (key_eq j k)) [
  | inl hit ↦
      let k≡j : k ≡ j = sym ((key_eq_iff j k).0 hit) in
      rw hit (subst (λ x. P x (f x e)) k≡j (h e (rw hit) (subst (λ x. P x e) (sym k≡j) a.0)), a.1)
  | inr miss ↦ rw miss (a.0, modify-EachEntry_at P f k s a.1 (λ x at. h x (rw miss at)))
]

-- A statement that the mutation keeps at each entry it meets holds of all entries after it.
pub modify_all-EachEntry_at :
    (P : Key → Entry → Type 0) (f : Key → Entry → Entry) (ks : List Key) (s : Store)
    → Distinct key_eq ks
    → EachEntry P s
    → ((q : Key) (e : Entry) → elem key_eq q ks ≡ true → lookup q s ≡ some e → P q e → P q (f q e))
    → EachEntry P (modify_all f ks s)
unfolding modify_all elem
modify_all-EachEntry_at P f [] s d a h = a
modify_all-EachEntry_at P f (k ∷ ks) s d a h =
    modify_all-EachEntry_at P f ks (modify f k s) d.1
      (modify-EachEntry_at P f k s a (λ e at. h k e (ground (arith, key_eq_iff k k)) at))
      λ q e in_ at.
        let same : lookup q s ≡ some e = ground (arith, lookup-modify f k q s, key_eq_iff q k) in
        h q e (ground arith) same

pub holding-modify_all :
    (f : Key → Entry → Entry) (ks : List Key) (user : ℕ) (q : Key) (s : Store)
    → Distinct key_eq ks
    → ((e : Entry)
        → elem key_eq q ks ≡ true
        → lookup q s ≡ some e
        → find_user_info (f q e).current_users user ≡ find_user_info e.current_users user)
    → holding user q (modify_all f ks s) ≡ holding user q s
unfolding holding
holding-modify_all f ks user q s d h = elim (Bool-cases (elem key_eq q ks)) [
  | inr out ↦ rw (lookup-modify_all f ks q s d, out)
  | inl in_ ↦ elim (Option-cases (lookup q s)) [
    | inl miss ↦ rw (lookup-modify_all f ks q s d, in_, miss)
    | inr (e, hit) ↦ rw (lookup-modify_all f ks q s d, in_, hit) (h e in_ hit)
  ]
]

-- What a command that names some keys has done at one key: nothing to a key that it does not name,
-- and a change of the given kind to an entry that was there under a key that it names.
abbrev pub Changes : (Entry → Entry → Type 0) → List Key → Key → Store → Store → Type 0
Changes P keys q s s' =
    ((elem key_eq q keys ≡ false) × (lookup q s' ≡ lookup q s))
    ⊎ ((elem key_eq q keys ≡ true)
        × (e e' : Entry) × (lookup q s ≡ some e)
        × (lookup q s' ≡ some e')
        × P e e')

pub modify_all-Changes :
    (P : Entry → Entry → Type 0) (f : Key → Entry → Entry) (keys : List Key) (q : Key) (s : Store)
    → Distinct key_eq keys
    → (elem key_eq q keys ≡ true → (e : Entry) × (lookup q s ≡ some e) × P e (f q e))
    → Changes P keys q s (modify_all f keys s)
modify_all-Changes P f keys q s d h = elim (Bool-cases (elem key_eq q keys)) [
  | inr out ↦ inl (out, rw (lookup-modify_all f keys q s d, out))
  | inl in_ ↦
      let at = h in_ in
      inr (in_, at.0, f q at.0, at.1, rw (lookup-modify_all f keys q s d, in_, at.1), at.2)
]
