-- ===== src/Redis.antt =====
-- The commands of the Redis server that the program calls, with what it relies on. Times are
-- microseconds of one clock, and a key that has expired is not there.
use tg_auto_msg.Prelude.{
  ℕ, ◌+◌, ◌≤◌, ◌≡◌, Bool, true, false, ◌&&◌, not, Option, none, some, List, String, if◌then◌else◌,
  ltb, leb, is_some, any, All,
}
use tg_auto_msg.Prelude.Text.{str_eq}

-- `GET key`, `SET key value NX EX ttl` and `DEL key`; `get k t st` reads at the time t.
pub record Keys (S : Type 0) : Type 0 where
  pub get : String → ℕ → S → Option String
  pub set_nx : String → String → ℕ → ℕ → S → Bool × S
  pub delete : String → S → S

abbrev pub until : ℕ → ℕ → String → Option String
until t end v = if ltb t end then some v else none

-- SET NX writes exactly where the key is not there; what it writes is there for its time to live; DEL
-- takes one key away.
pub record IsKeys {S : Type 0} (r : Keys S) : Type 0 where
  pub set_free :
      (k v : String) (ttl now : ℕ) (st : S)
      → (r.set_nx k v ttl now st).0 ≡ not (is_some (r.get k now st))
  pub get_set :
      (k v : String) (ttl now : ℕ) (st : S) (j : String) (t : ℕ)
      → now ≤ t
      → r.get j t (r.set_nx k v ttl now st).1 ≡ (
          if (r.set_nx k v ttl now st).0 && str_eq k j then until t (now + ttl) v else r.get j t st)
  pub get_delete :
      (k : String) (st : S) (j : String) (t : ℕ)
      → r.get j t (r.delete k st) ≡ (if str_eq k j then none else r.get j t st)

-- ZSCORE, ZADD, ZREM and `ZRANGEBYSCORE key 0 max LIMIT 0 n` of one sorted set.
pub record SortedSet (S : Type 0) : Type 0 where
  pub zscore : String → S → Option ℕ
  pub zadd : String → ℕ → S → S
  pub zrem : List String → S → S
  pub zrangebyscore : ℕ → ℕ → S → List String

abbrev pub scores_at_most : ℕ → Option ℕ → Bool
scores_at_most max none = false
scores_at_most max (some score) = leb score max

pub record IsSortedSet {S : Type 0} (r : SortedSet S) : Type 0 where
  pub score_add :
      (k : String) (score : ℕ) (st : S) (j : String)
      → r.zscore j (r.zadd k score st) ≡ (if str_eq k j then some score else r.zscore j st)
  pub score_remove :
      (ks : List String) (st : S) (j : String)
      → r.zscore j (r.zrem ks st) ≡ (if any (λ k. str_eq k j) ks then none else r.zscore j st)
  pub range_due :
      (max n : ℕ) (st : S)
      → All (λ k. scores_at_most max (r.zscore k st) ≡ true) (r.zrangebyscore max n st)
