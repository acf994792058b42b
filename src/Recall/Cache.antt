-- ===== src/Recall/Cache.antt =====
-- internal/memory/cache.go: the recalls that the server keeps, and the flights that fill them.
--
-- An entry or a flight is a shared object in the source, which its pointer identifies: here a
-- number that it gets when it is made. What a method does under the cache's lock is one step. A
-- result is copied in the source where it enters or leaves, so that here it is a value. The time is
-- an argument, and so is what `updateHit` makes of a hit. A follower's wait ends its step.
pub mod Laws
use personal_memory.Prelude.{
  ◌%◌, ◌&&◌, ◌+◌, ◌-◌, ◌==◌, Bool, List, Option, [], ◌^◌, false, if◌then◌else◌, ltb, none, not,
  some, ℕ, ◌∷◌,
}
use personal_memory.Go.Text.{Text, text_eq}
use personal_memory.Lifecycle.Model.{is_some}

-- recallFlight, without its channel
pub record Flight : Type 0 where
  pub serial : ℕ
  pub generation : ℕ
  pub waiters : ℕ

-- `flight.waiters--`, after the flight is done or the wait is cancelled
unfoldable pub leave : Flight → Flight
leave f = record f { waiters = f.waiters - 1 }

-- `c.inflight[key] == flight`
abbrev pub is_flight : Flight → Option Flight → Bool
is_flight f none = false
is_flight f (some g) = g.serial == f.serial

module _ {ℓ} {A : Type ℓ} where
  -- m[key]
  unfoldable pub lookup : Text → List (Text × A) → Option A
  lookup key [] = none
  lookup key ((k, a) ∷ m) = if text_eq k key then some a else lookup key m

  -- delete(m, key)
  unfoldable pub drop_key : Text → List (Text × A) → List (Text × A)
  drop_key key [] = []
  drop_key key ((k, a) ∷ m) =
      let rest = drop_key key m in if text_eq k key then rest else (k, a) ∷ rest

  -- m[key] = a
  unfoldable pub store : Text → A → List (Text × A) → List (Text × A)
  unfolding drop_key
  store key a m = (key, a) ∷ drop_key key m

-- recallCacheEntry, without its lock
pub record Entry (R : Type 0) : Type 0 where
  pub timestamp : ℕ
  pub result : R

-- Cache, with the number that the next flight gets
pub record Cache (R : Type 0) : Type 0 where
  pub recalls : List (Text × Entry R)
  pub inflight : List (Text × Flight)
  pub generation : ℕ
  pub ttl : ℕ
  pub next_serial : ℕ

-- What a pass of AcquireRecall's loop ends in.
pub data Acquired (R : Type 0) : Type 0 where
  hit : R → Acquired R
  update_failed : Acquired R
  leads : Flight → Acquired R
  waits : Flight → Acquired R

module _ {R : Type 0} where
  -- NewCache
  unfoldable pub new_cache : ℕ → Cache R
  new_cache ttl = record { recalls = []; inflight = []; generation = 0; ttl = ttl; next_serial = 0 }

  abbrev pub is_stale : ℕ → Cache R → Entry R → Bool
  is_stale now c e = ltb c.ttl (now - e.timestamp)

  -- The part of AcquireRecall for a key without an entry.
  unfoldable pub join : Text → Option Flight → Cache R → Cache R × Acquired R
  unfolding store
  join key (some f) c =
      let f' : Flight = record f { waiters = f.waiters + 1 } in
      (record c { inflight = store key f' c.inflight }, waits f')
  join key none c =
      let f : Flight = record { serial = c.next_serial; generation = c.generation; waiters = 0 } in
      (record c { inflight = store key f c.inflight; next_serial = c.next_serial + 1 }, leads f)

  abbrev pub hit_of : Text → Entry R → Option R → Cache R → Cache R × Acquired R
  hit_of key e none c = (c, update_failed)
  hit_of key e (some r) c =
      (record c { recalls = store key (record e { result = r }) c.recalls }, hit r)

  abbrev pub acquire_entry :
      ℕ → Text → (R → Option R) → Option (Entry R) → Cache R → Cache R × Acquired R
  acquire_entry now key update none c = join key (lookup key c.inflight) c
  acquire_entry now key update (some e) c =
      if is_stale now c e
      then (let c' = record c { recalls = drop_key key c.recalls } in
          join key (lookup key c'.inflight) c')
      else hit_of key e (update e.result) c

  -- AcquireRecall
  unfoldable pub acquire : ℕ → Text → (R → Option R) → Cache R → Cache R × Acquired R
  unfolding join lookup
  acquire now key update c = acquire_entry now key update (lookup key c.recalls) c

  abbrev pub published : ℕ → Text → Option R → Cache R → Cache R
  published now key none c = c
  published now key (some r) c = record c {
    recalls = store key (record { timestamp = now; result = r }) c.recalls;
  }

  -- FinishRecall
  unfoldable pub finish_recall : ℕ → Text → Flight → Option R → Cache R → Cache R × Bool
  unfolding store drop_key lookup
  finish_recall now key f r c =
      let publishes = is_some r && f.generation == c.generation in
      let c' = if publishes then published now key r c else c in
      if not (is_flight f (lookup key c.inflight))
      then (c, false)
      else (record c' { inflight = drop_key key c'.inflight }, publishes)

  abbrev pub fresh_result : ℕ → Cache R → Option (Entry R) → Option R
  fresh_result now c none = none
  fresh_result now c (some e) = if is_stale now c e then none else some e.result

  -- GetRecall
  unfoldable pub get_recall : ℕ → Text → Cache R → Option R
  unfolding lookup
  get_recall now key c = fresh_result now c (lookup key c.recalls)

  -- SetRecall
  unfoldable pub set_recall : ℕ → Text → R → Cache R → Cache R
  unfolding store
  set_recall now key r c = record c {
    recalls = store key (record { timestamp = now; result = r }) c.recalls;
  }

  -- Invalidate; the generation is a uint64.
  unfoldable pub invalidate : Cache R → Cache R
  invalidate c = record c { recalls = []; inflight = []; generation = (c.generation + 1) % 2 ^ 64 }
