-- ===== src/Budget/Accounts.antt =====
-- The account of the open reservations (internal/budget/ledger.go): what `reserved` stands for.
use agentapi_doctor.Common.{
  ℕ, ◌+◌, ◌<◌, ◌≡◌, Bool, true, false, not, List, [], ◌∷◌, none, some, arith, refl, sym, ap, ◌∙◌,
  add64, lookup, insert, nat_eq, is_some, All, if◌then◌else◌, lookup-insert, lookup-delete, inl,
  inr, Bool-cases, subst, eqb,
}
use agentapi_doctor.Budget.{
  Usage, Reservation, Ledger, add, subtract, no_usage, open_reservation, close,
}
use agentapi_doctor.Budget.Words.{
  IsWords, add_comm, add_assoc, add-IsWords, subtract-add, add-subtract,
}

-- What the reservations that are not closed have planned, together.
unfoldable pub open_total : List (ℕ × Reservation) → Usage
open_total [] = no_usage
open_total ((id, r) ∷ rs) = if r.closed then open_total rs else add r.planned (open_total rs)

abbrev pub AllWords : List (ℕ × Reservation) → Type 0
AllWords = All λ p. IsWords p.1.planned

open_total-IsWords : (rs : List (ℕ × Reservation)) → IsWords (open_total rs)
unfolding open_total
open_total-IsWords [] = omega arith
open_total-IsWords ((id, r) ∷ rs) =
    ground (arith, open_total-IsWords rs, add-IsWords r.planned (open_total rs))

add_left_comm : (u v w : Usage) → add u (add v w) ≡ add v (add u w)
add_left_comm u v w = sym (add_assoc u v w) ∙ ap (λ x. add x w) (add_comm u v) ∙ add_assoc v u w

-- A new id adds what it plans.
open_total-insert :
    (id : ℕ) (r : Reservation) (rs : List (ℕ × Reservation))
    → r.closed ≡ false
    → lookup id rs ≡ none
    → open_total (insert id r rs) ≡ add r.planned (open_total rs)
unfolding open_total lookup insert
open_total-insert id r [] o h = ground arith
open_total-insert id r ((j, s) ∷ rs) o h =
    ground (arith, open_total-insert id r rs o, add_left_comm r.planned s.planned (open_total rs))

lookup-IsWords :
    (id : ℕ) (r : Reservation) (rs : List (ℕ × Reservation))
    → AllWords rs
    → lookup id rs ≡ some r
    → IsWords r.planned
unfolding lookup
lookup-IsWords id r [] w h = cc
lookup-IsWords id r ((j, s) ∷ rs) w h = elim (Bool-cases (eqb j id)) [
  | inl e ↦
      let same : s ≡ r = ground arith in subst (λ (t : Reservation). IsWords t.planned) same w.0
  | inr e ↦ lookup-IsWords id r rs w.1 (ground arith)
]

-- Closing an open reservation takes away what it planned.
open_total-close :
    (id : ℕ) (r : Reservation) (rs : List (ℕ × Reservation))
    → r.closed ≡ false
    → AllWords rs
    → lookup id rs ≡ some r
    → open_total (insert id (record r { closed = true }) rs) ≡ subtract (open_total rs) r.planned
unfolding open_total lookup insert
open_total-close id r [] o w h = cc
open_total-close id r ((j, s) ∷ rs) o w h = elim (Bool-cases (eqb j id)) [
  | inl e ↦
      let same : s ≡ r = ground arith in
      let away = subtract-add (open_total rs) s.planned (open_total-IsWords rs) w.0 in
      ground (arith, away, add_comm s.planned (open_total rs))
  | inr e ↦
      let found : lookup id rs ≡ some r = ground arith in
      let rest = open_total-close id r rs o w.1 found in
      let moved =
        add-subtract s.planned (open_total rs) r.planned (lookup-IsWords id r rs w.1 found) in
      ground (arith, rest, moved)
]

-- What holds of a ledger between two calls.
pub record Inv (l : Ledger) : Type 0 where
  pub words : AllWords l.reservations
  pub balanced : l.reserved ≡ open_total l.reservations
  pub old_ids : (id : ℕ) → l.next_id < id → lookup id l.reservations ≡ none
  pub open_known :
      (id : ℕ)
      → is_some (lookup id l.open_ids)
        ≡ (elim (lookup id l.reservations) [ none ↦ false | some r ↦ not r.closed ])

insert-AllWords :
    (id : ℕ) (r : Reservation) (rs : List (ℕ × Reservation))
    → IsWords r.planned
    → AllWords rs
    → AllWords (insert id r rs)
unfolding insert
insert-AllWords id r [] w v = (w, tt)
insert-AllWords id r ((j, s) ∷ rs) w v = elim (Bool-cases (eqb j id)) [
  | inl e ↦ rw (e, insert) (w, v.1)
  | inr e ↦ rw (e, insert) (v.0, insert-AllWords id r rs w v.1)
]

pub open_reservation-Inv :
    (l : Ledger) (planned : Usage)
    → l.next_id + 1 < 18446744073709551616
    → IsWords planned
    → Inv l
    → Inv (open_reservation l planned)
unfolding open_reservation
open_reservation-Inv l planned room w v = record {
  words = insert-AllWords (add64 l.next_id 1) _ l.reservations w v.words;
  balanced = ground (
    arith,
    v.balanced,
    fresh,
    add_comm l.reserved planned,
    open_total-insert (add64 l.next_id 1) (record { planned = planned; closed = false })
        l.reservations refl,
  );
  old_ids = λ id h. ground (
    arith,
    v.old_ids id,
    lookup-insert (add64 l.next_id 1) id (record { planned = planned; closed = false })
        l.reservations,
  );
  open_known = λ id. ground (
    arith,
    v.open_known id,
    lookup-insert (add64 l.next_id 1) id tt l.open_ids,
    lookup-insert (add64 l.next_id 1) id (record { planned = planned; closed = false })
        l.reservations,
  );
}
  where
    fresh : lookup (add64 l.next_id 1) l.reservations ≡ none
    fresh = v.old_ids (add64 l.next_id 1) (omega arith)

pub close-Inv :
    (l : Ledger) (id : ℕ) (r : Reservation)
    → lookup id l.reservations ≡ some r
    → r.closed ≡ false
    → Inv l
    → Inv (close l id r)
unfolding close
close-Inv l id r found is_open v = record {
  words =
      insert-AllWords id (record r { closed = true }) l.reservations
        (lookup-IsWords id r l.reservations v.words found) v.words;
  balanced = ground (arith, v.balanced, open_total-close id r l.reservations is_open v.words found);
  old_ids = λ j h.
      ground (arith, v.old_ids j h, lookup-insert id j (record r { closed = true }) l.reservations);
  open_known = λ j. ground (
    arith,
    v.open_known j,
    lookup-delete id j l.open_ids,
    lookup-insert id j (record r { closed = true }) l.reservations,
  );
}

-- The account reads neither the consumption nor the flags.
pub spend-Inv :
    (l : Ledger) (c d o : Usage) (x : Bool)
    → Inv l
    → Inv (record l { consumed = c; cleanup_consumed = d; overshoot = o; is_exhausted = x })
spend-Inv l c d o x v = record {
  words = v.words;
  balanced = v.balanced;
  old_ids = v.old_ids;
  open_known = v.open_known;
}
