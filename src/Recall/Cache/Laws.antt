-- ===== src/Recall/Cache/Laws.antt =====
-- Which results internal/memory/cache.go publishes.
use personal_memory.Recall.Cache.{
  Cache, Entry, Flight, acquire, acquire_entry, drop_key, finish_recall, hit_of, invalidate,
  is_flight, is_stale, join, lookup, set_recall, store, get_recall, published, leads, waits,
}
use personal_memory.Prelude.{
  ◌<◌, All, Bool-cases, List, Option, [], arith, false, inl, inr, none, refl, some, some_inj, subst,
  ℕ, ◌∷◌, ◌≡◌, ◌≤◌, ◌&&◌, ◌+◌, ◌==◌, Bool, if◌then◌else◌, true, ◌-◌, ==_iff, ltb,
}
use personal_memory.Go.Text.{Text, text_eq}
use personal_memory.Lifecycle.Model.{is_some}
use personal_memory.Go.Text.Laws.{text_eq_refl}

-- Every flight in a map is at least as young as a serial number.
abbrev pub AreYoung : ℕ → List (Text × Flight) → Type 0
AreYoung n = All (λ e. n ≤ e.1.serial)

lookup-AreYoung :
    (n : ℕ) (key : Text) (m : List (Text × Flight)) (f : Flight)
    → AreYoung n m
    → lookup key m ≡ some f
    → n ≤ f.serial
unfolding lookup
lookup-AreYoung n key [] f y h = ground arith
lookup-AreYoung n key ((k, g) ∷ m) f y h = elim (Bool-cases (text_eq k key)) [
  | inl e ↦ subst (λ x. n ≤ x.serial) (some_inj (rw e at h)) y.0
  | inr e ↦ lookup-AreYoung n key m f y.1 (rw e at h)
]

drop_key-AreYoung :
    (n : ℕ) (key : Text) (m : List (Text × Flight)) → AreYoung n m → AreYoung n (drop_key key m)
unfolding drop_key
drop_key-AreYoung n key [] y = tt
drop_key-AreYoung n key ((k, g) ∷ m) y =
    let ih = drop_key-AreYoung n key m y.1 in
    elim (Bool-cases (text_eq k key)) [ inl e ↦ rw e ih | inr e ↦ rw e (y.0, ih) ]

store-AreYoung :
    (n : ℕ) (key : Text) (f : Flight) (m : List (Text × Flight))
    → n ≤ f.serial
    → AreYoung n m
    → AreYoung n (store key f m)
unfolding store
store-AreYoung n key f m h y = (h, drop_key-AreYoung n key m y)

not_flight :
    (n : ℕ) (f : Flight) (r : Option Flight)
    → f.serial < n
    → ((g : Flight) → r ≡ some g → n ≤ g.serial)
    → is_flight f r ≡ false
not_flight n f none h y = refl
not_flight n f (some g) h y = let l = y g refl in ground arith

-- A step of a client of the cache.
pub data Step (R : Type 0) : Type 0 where
  acquires : ℕ → Text → (R → Option R) → Step R
  finishes : ℕ → Text → Flight → Option R → Step R
  sets : ℕ → Text → R → Step R
  invalidates : Step R

module _ {R : Type 0} where
  unfoldable pub step : Step R → Cache R → Cache R
  unfolding acquire finish_recall set_recall invalidate
  step (acquires now key update) c = (acquire now key update c).0
  step (finishes now key f r) c = (finish_recall now key f r c).0
  step (sets now key r) c = set_recall now key r c
  step invalidates c = invalidate c

  unfoldable pub steps : List (Step R) → Cache R → Cache R
  unfolding step
  steps [] c = c
  steps (s ∷ ss) c = steps ss (step s c)

  -- All flights, those under way and those to come, are at least as young as `n`.
  abbrev pub IsYoung : ℕ → Cache R → Type 0
  IsYoung n c = AreYoung n c.inflight × (n ≤ c.next_serial)

  join-IsYoung :
      (n : ℕ) (key : Text) (r : Option Flight) (c : Cache R)
      → lookup key c.inflight ≡ r
      → IsYoung n c
      → IsYoung n ((join key r c).0)
  unfolding join
  join-IsYoung n key none c e (y, l) = (
    store-AreYoung n key (record { serial = c.next_serial; generation = c.generation; waiters = 0 })
        c.inflight l y,
    omega arith,
  )
  join-IsYoung n key (some f) c e (y, l) = (
    store-AreYoung n key (record f { waiters = f.waiters + 1 }) c.inflight
        (lookup-AreYoung n key c.inflight f y e) y,
    l,
  )

  acquire-IsYoung :
      (n now : ℕ) (key : Text) (update : R → Option R) (c : Cache R)
      → IsYoung n c
      → IsYoung n ((acquire now key update c).0)
  unfolding acquire
  acquire-IsYoung n now key update c y = entry-IsYoung (lookup key c.recalls)
    where
      updated-IsYoung : (e : Entry R) (r : Option R) → IsYoung n ((hit_of key e r c).0)
      updated-IsYoung e none = y
      updated-IsYoung e (some r) = y

      entry-IsYoung : (r : Option (Entry R)) → IsYoung n ((acquire_entry now key update r c).0)
      entry-IsYoung none = join-IsYoung n key (lookup key c.inflight) c refl y
      entry-IsYoung (some e) = elim (Bool-cases (is_stale now c e)) [
        | inl t ↦ rw t (
            join-IsYoung n key (lookup key c.inflight)
              (record c { recalls = drop_key key c.recalls }) refl y)
        | inr t ↦ rw t (updated-IsYoung e (update e.result))
      ]

  published-IsYoung :
      (n now : ℕ) (key : Text) (t : Bool) (r : Option R) (c : Cache R)
      → IsYoung n c
      → IsYoung n (if t then published now key r c else c)
  published-IsYoung n now key true none c y = y
  published-IsYoung n now key true (some r) c y = y
  published-IsYoung n now key false r c y = y

  finish_recall-IsYoung :
      (n now : ℕ) (key : Text) (f : Flight) (r : Option R) (c : Cache R)
      → IsYoung n c
      → IsYoung n ((finish_recall now key f r c).0)
  unfolding finish_recall
  finish_recall-IsYoung n now key f r c y =
      elim (Bool-cases (is_flight f (lookup key c.inflight))) [
        | inr e ↦ rw e y
        | inl e ↦
            let p = published-IsYoung n now key (is_some r && f.generation == c.generation) r c y in
            rw e (drop_key-AreYoung n key _ p.0, p.1)
      ]

  step-IsYoung : (n : ℕ) (s : Step R) (c : Cache R) → IsYoung n c → IsYoung n (step s c)
  unfolding step set_recall invalidate
  step-IsYoung n (acquires now key update) c y = acquire-IsYoung n now key update c y
  step-IsYoung n (finishes now key f r) c y = finish_recall-IsYoung n now key f r c y
  step-IsYoung n (sets now key r) c y = y
  step-IsYoung n invalidates c y = (tt, y.1)

  steps-IsYoung : (n : ℕ) (ss : List (Step R)) (c : Cache R) → IsYoung n c → IsYoung n (steps ss c)
  unfolding steps
  steps-IsYoung n [] c y = y
  steps-IsYoung n (s ∷ ss) c y = steps-IsYoung n ss (step s c) (step-IsYoung n s c y)

  -- A flight that started before Invalidate publishes nothing after it, whatever happened since:
  -- FinishRecall returns false and changes nothing.
  pub finish_recall-steps-invalidate :
      (ss : List (Step R)) (c : Cache R) (now : ℕ) (key : Text) (f : Flight) (r : Option R)
      → f.serial < c.next_serial
      → finish_recall now key f r (steps ss (invalidate c)) ≡ (steps ss (invalidate c), false)
  unfolding finish_recall
  finish_recall-steps-invalidate ss c now key f r h =
      let y =
        steps-IsYoung c.next_serial ss (invalidate c) (unfold invalidate in (tt, omega arith)) in
      rw
        (not_flight c.next_serial f (lookup key (steps ss (invalidate c)).inflight) h
          (λ g. lookup-AreYoung c.next_serial key _ g y.0))
        refl

  -- For a key without an entry or a flight AcquireRecall makes its caller the leader; the next
  -- caller waits for that flight, and the result that the leader publishes is what GetRecall then
  -- returns.
  pub acquire-leads :
      (now now' : ℕ) (key : Text) (update update' : R → Option R) (c : Cache R) (r : R)
      → lookup key c.recalls ≡ none
      → lookup key c.inflight ≡ none
      → (f : Flight) × (c' : Cache R) × (acquire now key update c ≡ (c', leads f))
        × ((acquire now' key update' c').1 ≡ waits (record f { waiters = 1 }))
        × ((finish_recall now' key f (some r) c').1 ≡ true)
        × (get_recall now' key ((finish_recall now' key f (some r) c').0) ≡ some r)
  unfolding acquire join finish_recall get_recall store
  acquire-leads now now' key update update' c r h k =
      let f : Flight = record { serial = c.next_serial; generation = c.generation; waiters = 0 } in
      let c' : Cache R = record c {
        inflight = store key f c.inflight;
        next_serial = c.next_serial + 1;
      } in
      let same = text_eq_refl key in
      let serial = (==_iff c.next_serial c.next_serial).1 refl in
      let generation = (==_iff c.generation c.generation).1 refl in
      let young : ltb c.ttl (now' - now') ≡ false = ground arith in
      (
        f,
        c',
        rw (h, k) refl,
        rw (h, same) refl,
        rw (same, serial, generation) refl,
        rw (same, serial, generation, same, young) refl,
      )
