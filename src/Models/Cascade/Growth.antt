-- ===== src/Models/Cascade/Growth.antt =====
-- Rows that are added under keys that hold.
pub mod Tables
use counselready.Common.{ℕ, Bool, true, Option, none, some, List, [], ◌∷◌, ◌++◌, ◌≡◌, refl, arith}
use counselready.Common.Equality.{◌==◌, nat_eq}
use counselready.Common.Table.{any_row}
use counselready.Models.Cases.{Case, CaseAuditEvent}
use counselready.Models.Documents.{Document, DocumentPage}
use counselready.Models.Timeline.{CaseEvent, CaseEventNote}
use counselready.Models.Database.{Database}
use counselready.Models.Cascade.{points, refers, ForeignKeys}

pub any_row-append_left :
    {R : Type 0} (p : R → Bool) (xs ys : List R) → any_row p xs ≡ true → any_row p (xs ++ ys) ≡ true
unfolding any_row
any_row-append_left p [] ys h = absurd (cc)
any_row-append_left p (x ∷ xs) ys h = ground (arith, any_row-append_left p xs ys)

pub any_row-append_right :
    {R : Type 0} (p : R → Bool) (xs ys : List R) → any_row p ys ≡ true → any_row p (xs ++ ys) ≡ true
unfolding any_row
any_row-append_right p [] ys h = h
any_row-append_right p (x ∷ xs) ys h = ground (arith, any_row-append_right p xs ys h)

pub any_row-one : {R : Type 0} (p : R → Bool) (x : R) → p x ≡ true → any_row p (x ∷ []) ≡ true
unfolding any_row
any_row-one p x h = ground arith

module _ {C P : Type 0} (key : C → Option ℕ) (id : P → ℕ) where
  pub points-more :
      (ps qs : List P) (k : Option ℕ) → points id ps k ≡ true → points id (ps ++ qs) k ≡ true
  points-more ps qs none h = refl
  points-more ps qs (some i) h = any_row-append_left (λ p. id p == i) ps qs h

  pub refers-append :
      (cs ds : List C) (ps : List P)
      → refers key id cs ps ≡ true
      → refers key id ds ps ≡ true
      → refers key id (cs ++ ds) ps ≡ true
  unfolding refers
  refers-append [] ds ps h k = k
  refers-append (c ∷ cs) ds ps h k = ground (arith, refers-append cs ds ps)

  pub refers-more :
      (cs : List C) (ps qs : List P)
      → refers key id cs ps ≡ true
      → refers key id cs (ps ++ qs) ≡ true
  unfolding refers
  refers-more [] ps qs h = refl
  refers-more (c ∷ cs) ps qs h = ground (arith, points-more ps qs (key c), refers-more cs ps qs)

  pub refers-one :
      (c : C) (ps : List P) → points id ps (key c) ≡ true → refers key id (c ∷ []) ps ≡ true
  unfolding refers
  refers-one c ps h = ground arith
