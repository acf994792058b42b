-- ===== src/Policy/Budget/Laws.antt =====
-- The ledger of internal/aipolicy/budget.go: what validLedger asks of it, and that Begin and Finish
-- keep it.
use personal_memory.Prelude.{
  ◌+◌, ◌++◌, ◌<◌, All, Bool-cases, [], arith, inl, inr, length, refl, some, true, ℕ, ◌↔◌, ◌∷◌, ◌≡◌,
  ◌≤◌, ◌%◌, ◌^◌, some_inj, subst, sym,
}
use personal_memory.Policy.Budget.{
  Ledger, Pending, is_valid_pending, pending_of, remove, valid_ledger, Limits, empty_ledger,
  reservation_id, reserve, put,
}
use personal_memory.Go.Text.{Text, text, text_eq}
use personal_memory.Go.Strings.{has_prefix}
use personal_memory.Lifecycle.Model.{is_some}
use personal_memory.Go.Time.{parse_date}
use personal_memory.Go.Text.Laws.{text_eq_iff}
use mathlib.Core.List.{append_assoc}

abbrev pub total : Pending → ℕ
total [] = 0
total ((id, n) ∷ ps) = n + total ps

-- A reservation of a day.
abbrev pub IsReserved : Text → Text × ℕ → Type 0
IsReserved day (id, n) = (has_prefix id (day ++ text "-") ≡ true) × (0 < n)

pub record IsLedger (s : Ledger) : Type 0 where
  pub dated : is_some (parse_date s.day) ≡ true
  pub counted : s.calls ≤ s.next
  pub pending_few : length s.pending ≤ s.calls
  pub pending_dated : All (IsReserved s.day) s.pending
  pub pending_within : total s.pending ≤ s.tokens

valid_pending→ :
    (day : Text) (tokens t : ℕ) (ps : Pending)
    → t ≤ tokens
    → is_valid_pending day tokens t ps ≡ true
    → All (IsReserved day) ps × (t + total ps ≤ tokens)
unfolding is_valid_pending
valid_pending→ day tokens t [] le h = (tt, ground arith)
valid_pending→ day tokens t ((id, n) ∷ ps) le h =
    let ih = valid_pending→ day tokens (t + n) ps (ground arith) (ground arith) in
    (((ground arith, ground arith), ih.0), omega arith)

valid_pending← :
    (day : Text) (tokens t : ℕ) (ps : Pending)
    → All (IsReserved day) ps
    → t + total ps ≤ tokens
    → is_valid_pending day tokens t ps ≡ true
unfolding is_valid_pending
valid_pending← day tokens t [] h le = refl
valid_pending← day tokens t ((id, n) ∷ ps) ((p, pos), h) le =
    let ih = valid_pending← day tokens (t + n) ps h (omega arith) in ground arith

-- validLedger accepts a ledger exactly if it is one.
pub valid_ledger_iff : (s : Ledger) → (valid_ledger s ≡ true) ↔ IsLedger s
unfolding valid_ledger
valid_ledger_iff s = (
  λ h.
      let (all, sum) = valid_pending→ s.day s.tokens 0 s.pending (ground arith) (ground arith) in
      record {
        dated = ground arith;
        counted = ground arith;
        pending_few = ground arith;
        pending_dated = all;
        pending_within = omega arith;
      },
  λ w.
      let v =
        valid_pending← s.day s.tokens 0 s.pending w.pending_dated
          (let k = w.pending_within in omega arith) in
      let d = w.dated in let c = w.counted in let f = w.pending_few in ground arith,
)

module _ (id : Text) where
  pub total-remove : (ps : Pending) → total (remove id ps) ≤ total ps
  unfolding remove
  total-remove [] = omega arith
  total-remove ((k, n) ∷ ps) = let ih = total-remove ps in ground arith

  pub length-remove : (ps : Pending) → length (remove id ps) ≤ length ps
  unfolding remove
  length-remove [] = omega arith
  length-remove ((k, n) ∷ ps) = let ih = length-remove ps in ground arith

  pub remove-All : (P : Text × ℕ → Type 0) (ps : Pending) → All P ps → All P (remove id ps)
  unfolding remove
  remove-All P [] h = tt
  remove-All P ((k, n) ∷ ps) h =
      let ih = remove-All P ps h.1 in
      elim (Bool-cases (text_eq k id)) [ inl e ↦ rw e ih | inr e ↦ rw e (h.0, ih) ]

  -- What is pending under an id counts towards the total.
  pub total-pending_of :
      (ps : Pending) (n : ℕ) → pending_of id ps ≡ some n → total (remove id ps) + n ≤ total ps
  unfolding remove pending_of
  total-pending_of [] n h = ground arith
  total-pending_of ((k, m) ∷ ps) n h = elim (Bool-cases (text_eq k id)) [
    | inl e ↦ let le = total-remove ps in ground arith
    | inr e ↦ let ih = total-pending_of ps n (ground arith) in ground arith
  ]

  pub length-pending_of :
      (ps : Pending) (n : ℕ) → pending_of id ps ≡ some n → length (remove id ps) + 1 ≤ length ps
  unfolding remove pending_of
  length-pending_of [] n h = ground arith
  length-pending_of ((k, m) ∷ ps) n h = elim (Bool-cases (text_eq k id)) [
    | inl e ↦ let le = length-remove ps in ground arith
    | inr e ↦ let ih = length-pending_of ps n (ground arith) in ground arith
  ]

  pub pending_of-All :
      (P : Text × ℕ → Type 0) (ps : Pending) (n : ℕ)
      → All P ps
      → pending_of id ps ≡ some n
      → P (id, n)
  unfolding pending_of
  pending_of-All P [] n h e = ground arith
  pending_of-All P ((k, m) ∷ ps) n (p, h) e = elim (Bool-cases (text_eq k id)) [
    | inl t ↦
        let same = (text_eq_iff k id).0 t in
        let value = some_inj (rw t at e) in
        subst (λ j. P (j, n)) same (subst (λ j. P (k, j)) value p)
    | inr t ↦ pending_of-All P ps n h (rw t at e)
  ]

prefix_of_append : (p s : Text) → has_prefix (p ++ s) p ≡ true
unfolding has_prefix
prefix_of_append [] s = refl
prefix_of_append (c ∷ p) s = let ih = prefix_of_append p s in ground arith

reservation_id-IsReserved :
    (day : Text) (n k : ℕ) → 0 < k → IsReserved day (reservation_id day n, k)
reservation_id-IsReserved day n k h = (
  subst (λ t. has_prefix t (day ++ text "-") ≡ true) (append_assoc day (text "-") _)
      (prefix_of_append (day ++ text "-") _),
  h,
)

pub empty_ledger-IsLedger :
    (day : Text) → is_some (parse_date day) ≡ true → IsLedger (empty_ledger day)
empty_ledger-IsLedger day h = record {
  dated = h;
  counted = omega arith;
  pending_few = omega arith;
  pending_dated = tt;
  pending_within = omega arith;
}

-- Another reservation keeps the ledger, as long as the counter does not wrap.
pub reserve-IsLedger :
    (l : Limits) (day : Text) (s : Ledger)
    → 0 < l.reservation_tokens
    → s.day ≡ day
    → s.next + 1 < 2 ^ 64
    → IsLedger s
    → IsLedger (reserve l day s)
unfolding reserve put
reserve-IsLedger l day s pos d fits w =
    let few = length-remove (reservation_id day ((s.next + 1) % 2 ^ 64)) s.pending in
    let within = total-remove (reservation_id day ((s.next + 1) % 2 ^ 64)) s.pending in
    record {
      dated = w.dated;
      counted = let k = w.counted in omega arith;
      pending_few = let k = w.pending_few in omega arith;
      pending_dated = (
        subst (λ t. IsReserved t (reservation_id day ((s.next + 1) % 2 ^ 64), l.reservation_tokens))
            (sym d)
            (reservation_id-IsReserved day ((s.next + 1) % 2 ^ 64) l.reservation_tokens pos),
        remove-All (reservation_id day ((s.next + 1) % 2 ^ 64)) (IsReserved s.day) s.pending
            w.pending_dated,
      );
      pending_within = let k = w.pending_within in omega arith;
    }
