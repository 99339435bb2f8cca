-- ===== src/Models/Cascade/References.antt =====
-- The foreign keys under the deletion of an account.
use counselready.Common.{
  inl, inr, ℕ, Bool, true, false, ◌&&◌, ◌||◌, Option, none, some, List, [], ◌∷◌, map, ◌≡◌, refl,
  ◌∙◌, arith, Bool-cases,
}
use counselready.Common.Equality.{◌==◌, nat_eq}
use counselready.Common.Table.{any_row, delete_rows}
use counselready.Models.Database.{Database}
use counselready.Models.Cascade.{
  gone_case, removed, lost, set_null, points, refers, ForeignKeys, delete_user, account_goes,
  session_goes, case_goes, document_goes, page_goes, passage_goes, fact_goes, event_goes, note_goes,
  detach_event, anonymize, anonymize_trail,
}

module _ {P : Type 0} (id : P → ℕ) (goes : P → Bool) where
  stays :
      (i : ℕ) (ps : List P)
      → any_row (λ p. id p == i) ps ≡ true
      → any_row (λ p. (id p == i) && goes p) ps ≡ false
      → any_row (λ p. id p == i) (delete_rows goes ps) ≡ true
  unfolding any_row delete_rows
  stays i [] h k = h
  stays i (p ∷ ps) h k = ground (arith, stays i ps)

  points-delete_rows :
      (ps : List P) (key : Option ℕ)
      → points id ps key ≡ true
      → lost (removed id goes ps) key ≡ false
      → points id (delete_rows goes ps) key ≡ true
  unfolding removed
  points-delete_rows ps none h k = refl
  points-delete_rows ps (some i) h k = stays i ps h k

  points-set_null :
      (ps : List P) (key : Option ℕ)
      → points id ps key ≡ true
      → points id (delete_rows goes ps) (set_null (removed id goes ps) key) ≡ true
  unfolding removed
  points-set_null ps none h = refl
  points-set_null ps (some i) h = elim (Bool-cases (any_row (λ p. (id p == i) && goes p) ps)) [
    | inl gone ↦ rw gone refl
    | inr kept ↦ rw kept (stays i ps h kept)
  ]

module _ {C P : Type 0} (key : C → Option ℕ) (id : P → ℕ) where
  -- ON DELETE CASCADE: the children that stay are those whose parent stays.
  refers-cascade :
      (goes : P → Bool) (q : C → Bool) (cs : List C) (ps : List P)
      → ((c : C) → q c ≡ false → lost (removed id goes ps) (key c) ≡ false)
      → refers key id cs ps ≡ true
      → refers key id (delete_rows q cs) (delete_rows goes ps) ≡ true
  unfolding refers delete_rows
  refers-cascade goes q [] ps safe h = refl
  refers-cascade goes q (c ∷ cs) ps safe h =
      ground
        (arith, safe c, points-delete_rows id goes ps (key c), refers-cascade goes q cs ps safe)

  -- ON DELETE SET NULL, by a change `f` of the child.
  refers-set_null :
      (goes : P → Bool) (f : C → C) (cs : List C) (ps : List P)
      → ((c : C) → key (f c) ≡ set_null (removed id goes ps) (key c))
      → refers key id cs ps ≡ true
      → refers key id (map f cs) (delete_rows goes ps) ≡ true
  unfolding refers
  refers-set_null goes f [] ps nulled h = refl
  refers-set_null goes f (c ∷ cs) ps nulled h =
      ground
        (arith, nulled c, points-set_null id goes ps (key c), refers-set_null goes f cs ps nulled)

  refers-fewer :
      (q : C → Bool) (cs : List C) (ps : List P)
      → refers key id cs ps ≡ true
      → refers key id (delete_rows q cs) ps ≡ true
  unfolding refers delete_rows
  refers-fewer q [] ps h = refl
  refers-fewer q (c ∷ cs) ps h = ground (arith, refers-fewer q cs ps)

  -- Changes that keep the key, and the id it points at.
  refers-map :
      (f : C → C) (cs : List C) (ps : List P)
      → ((c : C) → key (f c) ≡ key c)
      → refers key id (map f cs) ps ≡ refers key id cs ps
  unfolding refers
  refers-map f [] ps same = refl
  refers-map f (c ∷ cs) ps same = rw (same c, refers-map f cs ps same) refl

  any_row-map :
      (f : P → P) (ps : List P) (i : ℕ)
      → ((p : P) → id (f p) ≡ id p)
      → any_row (λ p. id p == i) (map f ps) ≡ any_row (λ p. id p == i) ps
  unfolding any_row
  any_row-map f [] i same = refl
  any_row-map f (p ∷ ps) i same = rw (same p, any_row-map f ps i same) refl

  points-map :
      (f : P → P) (ps : List P) (k : Option ℕ)
      → ((p : P) → id (f p) ≡ id p)
      → points id (map f ps) k ≡ points id ps k
  points-map f ps none same = refl
  points-map f ps (some i) same = any_row-map f ps i same

  refers-map_parents :
      (f : P → P) (cs : List C) (ps : List P)
      → ((p : P) → id (f p) ≡ id p)
      → refers key id cs (map f ps) ≡ refers key id cs ps
  unfolding refers
  refers-map_parents f [] ps same = refl
  refers-map_parents f (c ∷ cs) ps same =
      rw (points-map f ps (key c) same, refers-map_parents f cs ps same) refl

-- As `refers-cascade`, for children that are changed besides, but not in the key.
refers-cascade_changed :
    {C P : Type 0} (key : C → Option ℕ) (id : P → ℕ) (goes : P → Bool) (q : C → Bool) (f : C → C)
    (cs : List C) (ps : List P)
    → ((c : C) → key (f c) ≡ key c)
    → ((c : C) → q c ≡ false → lost (removed id goes ps) (key c) ≡ false)
    → refers key id cs ps ≡ true
    → refers key id (map f (delete_rows q cs)) (delete_rows goes ps) ≡ true
refers-cascade_changed key id goes q f cs ps same safe h =
    refers-map key id f (delete_rows q cs) (delete_rows goes ps) same
    ∙ refers-cascade key id goes q cs ps safe h

left_of : (a b : Bool) → a || b ≡ false → a ≡ false
left_of a b h = ground arith

right_of : (a b : Bool) → a || b ≡ false → b ≡ false
right_of a b h = ground arith

-- If every foreign key of the tables points at a row, then so does every one that the deletion of an
-- account leaves.
pub delete_user-ForeignKeys :
    (user_id : ℕ) (db : Database) → ForeignKeys db → ForeignKeys (delete_user user_id db)
unfolding delete_user
delete_user-ForeignKeys u db
      (
        sessions, tokens, attempts, mfas, codes, passkeys, challenges, owners, parties, actors,
        trail, documents, pages, passages, fact_docs, fact_passages, events, cited, recorded,
        asserted, about, notes, authors,
      ) =
    (
      refers-cascade _ _ (account_goes u db) (session_goes u db) _ _ (λ s h. h) sessions,
      refers-cascade _ _ (session_goes u db) _ _ _ (λ t h. h) tokens,
      refers-set_null _ _ (account_goes u db) (anonymize u db) _ _ (λ e. refl) attempts,
      refers-cascade _ _ (account_goes u db) _ _ _ (λ m h. h) mfas,
      refers-cascade _ _ (account_goes u db) _ _ _ (λ r h. h) codes,
      refers-cascade _ _ (account_goes u db) _ _ _ (λ p h. h) passkeys,
      refers-cascade _ _ (account_goes u db) _ _ _ (λ p h. h) challenges,
      refers-cascade _ _ (account_goes u db) (case_goes u db) _ _ (λ c h. h) owners,
      refers-cascade _ _ (case_goes u db) _ _ _ (λ p h. h) parties,
      refers-set_null _ _ (account_goes u db) (anonymize_trail u db) _ _ (λ e. refl) actors,
      refers-set_null _ _ (case_goes u db) (anonymize_trail u db) _ _ (λ e. refl) trail,
      refers-cascade _ _ (case_goes u db) (document_goes u db) _ _ (λ d h. h) documents,
      refers-cascade _ _ (document_goes u db) (page_goes u db) _ _ (λ p h. h) pages,
      refers-cascade _ _ (page_goes u db) (passage_goes u db) _ _ (λ p h. h) passages,
      refers-cascade _ _ (document_goes u db) (fact_goes u db) _ _ (λ f h. left_of _ _ h) fact_docs,
      refers-cascade _ _ (passage_goes u db) (fact_goes u db) _ _ (λ f h. right_of _ _ h)
          fact_passages,
      refers-cascade_changed _ _ (case_goes u db) (event_goes u db) (detach_event u db) _ _
          (λ e. refl) (λ e h. left_of _ _ (left_of _ _ h)) events,
      refers-cascade_changed _ _ (passage_goes u db) (event_goes u db) (detach_event u db) _ _
          (λ e. refl) (λ e h. right_of _ _ (left_of _ _ h)) cited,
      refers-cascade_changed _ _ (account_goes u db) (event_goes u db) (detach_event u db) _ _
          (λ e. refl) (λ e h. right_of _ _ h) recorded,
      refers-set_null _ _ (λ p. gone_case u db p.case_id) (detach_event u db) _ _ (λ e. refl)
          (refers-fewer _ _ (event_goes u db) _ _ asserted),
      refers-set_null _ _ (λ p. gone_case u db p.case_id) (detach_event u db) _ _ (λ e. refl)
          (refers-fewer _ _ (event_goes u db) _ _ about),
      refers-map_parents _ _ (detach_event u db) _ _ (λ e. refl)
          ∙ refers-cascade _ _ (event_goes u db) (note_goes u db) _ _ (λ n h. left_of _ _ h) notes,
      refers-cascade _ _ (account_goes u db) (note_goes u db) _ _ (λ n h. right_of _ _ h) authors,
    )
