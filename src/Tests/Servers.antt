-- ===== src/Tests/Servers.antt =====
-- Two Redis servers on which the modules below run the model: keys with their times, and a sorted set
-- as the list of its writes, the newest first.
use tg_auto_msg.Prelude.{
  ℕ, zero, suc, ◌+◌, ◌≡◌, refl, inl, inr, Bool, true, ◌&&◌, not, Option, none, some, List, [], ◌∷◌,
  map, String, arith, if◌then◌else◌, is_some, any, keep, take, Bool-cases, All,
}
use mathlib.Core.Path.{subst}
use tg_auto_msg.Prelude.Text.{str_eq, eq_iff}
use tg_auto_msg.Redis.{Keys, IsKeys, SortedSet, IsSortedSet, scores_at_most, until}

abbrev pub Store : Type 0
Store = String → ℕ → Option String

abbrev put : Bool → String → String → ℕ → Store → Store
put got k v end st j t = if got && str_eq k j then until t end v else st j t

abbrev pub keys : Keys Store
keys = record {
  get = λ k t st. st k t;
  set_nx = λ k v ttl now st.
      (not (is_some (st k now)), put (not (is_some (st k now))) k v (now + ttl) st);
  delete = λ k st j t. if str_eq k j then none else st j t;
}

pub keys-IsKeys : IsKeys keys
keys-IsKeys = record {
  set_free = λ k v ttl now st. refl;
  get_set = λ k v ttl now st j t le. refl;
  get_delete = λ k st j t. refl;
}

abbrev pub empty_store : Store
empty_store k t = none

abbrev pub Scores : Type 0
Scores = List (String × ℕ)

abbrev score : String → Scores → Option ℕ
score k [] = none
score k ((j, n) ∷ st) = if str_eq j k then some n else score k st

abbrev without : List String → Scores → Scores
without ks st = keep (λ e. not (any (λ k. str_eq k e.0) ks)) st

abbrev due : ℕ → Scores → List String
due max st = keep (λ k. scores_at_most max (score k st)) (map (λ (e : String × ℕ). e.0) st)

abbrev pub sorted_set : SortedSet Scores
sorted_set = record {
  zscore = score;
  zadd = λ k n st. (k, n) ∷ st;
  zrem = without;
  zrangebyscore = λ max n st. take n (due max st);
}

score-without :
    (ks : List String) (st : Scores) (j : String)
    → score j (without ks st) ≡ (if any (λ k. str_eq k j) ks then none else score j st)
score-without ks [] j = ground arith
score-without ks ((i, n) ∷ st) j = elim (Bool-cases (str_eq i j)) [
  | inr other ↦ ground (arith, score-without ks st j)
  | inl same ↦
      let here : any (λ k. str_eq k i) ks ≡ any (λ k. str_eq k j) ks =
        subst (λ x. any (λ k. str_eq k i) ks ≡ any (λ k. str_eq k x) ks) ((eq_iff i j).0 same)
          refl in
      ground (arith, here, score-without ks st j)
]

take-due :
    (max n : ℕ) (st : Scores) (ks : List String)
    → All
        (λ k. scores_at_most max (score k st) ≡ true)
        (take n (keep (λ k. scores_at_most max (score k st)) ks))
take-due max zero st ks = tt
take-due max (suc n) st [] = tt
take-due max (suc n) st (k ∷ ks) = elim (Bool-cases (scores_at_most max (score k st))) [
  | inl hit ↦ rw hit (hit, take-due max n st ks)
  | inr miss ↦ rw miss (take-due max (suc n) st ks)
]

pub sorted_set-IsSortedSet : IsSortedSet sorted_set
sorted_set-IsSortedSet = record {
  score_add = λ k n st j. refl;
  score_remove = score-without;
  range_due = λ max n st. take-due max n st (map (λ (e : String × ℕ). e.0) st);
}
