-- ===== src/Jobs/Queue/Rows.antt =====
-- The rows of the job table: the invariant of each and of their ids, and how an insertion, an update and
-- a query of the table keep it.
use counselready.Common.{
  List, [], ◌∷◌, ℕ, ◌≤◌, ◌<◌, Bool, true, false, none, some, ◌≡◌, refl, sym, subst, arith,
  if◌then◌else◌, Bool-cases, inl, inr, All, All-map, All-append,
}
use counselready.Common.Equality.{◌==◌, nat_eq, ==-sound, ==-refl}
use counselready.Common.Table.{any_row, add_row, find_row, update_rows, where_rows}
use counselready.Models.Jobs.{Job, JobStatus, queued, running, succeeded, failed, max_attempts}
use counselready.Models.Database.{Database}
use counselready.Jobs.Queue.{job_by_id, update_job}

-- A job that waits has attempts left; one that runs has spent one and not too many; one that succeeded
-- has not spent too many; one that has failed has spent them all.
abbrev pub InBudget : JobStatus → ℕ → Type 0
InBudget queued attempts = attempts < max_attempts
InBudget running attempts = (1 ≤ attempts) × (attempts ≤ max_attempts)
InBudget succeeded attempts = attempts ≤ max_attempts
InBudget failed attempts = attempts ≡ max_attempts

abbrev pub IsSound : Job → Type 0
IsSound j = InBudget j.status j.attempts

-- The primary key: no row has the id of another.
abbrev pub Apart : List Job → Type 0
Apart [] = Unit
Apart (j ∷ js) = (any_row (λ k. k.id == j.id) js ≡ false) × Apart js

abbrev pub IsWellFormed : Database → Type 0
IsWellFormed db = Apart db.job × All IsSound db.job

-- An update of rows of other ids changes nothing.
update-none :
    (i : ℕ) (f : Job → Job) (js : List Job)
    → any_row (λ k. k.id == i) js ≡ false
    → update_rows (λ k. k.id == i) f js ≡ js
unfolding any_row update_rows
update-none i f [] h = refl
update-none i f (j ∷ js) h = ground (arith, update-none i f js)

-- An update finds nothing to change where a search finds nothing.
pub update-missing :
    (p : Job → Bool) (f : Job → Job) (js : List Job)
    → find_row p js ≡ none
    → update_rows p f js ≡ js
unfolding find_row update_rows
update-missing p f [] h = refl
update-missing p f (j ∷ js) h = ground (arith, update-missing p f js)

any_row-update :
    (i k : ℕ) (f : Job → Job)
    → ((j : Job) → (f j).id ≡ j.id)
    → (js : List Job)
    → any_row (λ j. j.id == k) (update_rows (λ j. j.id == i) f js) ≡ any_row (λ j. j.id == k) js
unfolding any_row update_rows
any_row-update i k f keeps [] = refl
any_row-update i k f keeps (j ∷ js) = rw (any_row-update i k f keeps js) (ground (arith, keeps j))

update-Apart :
    (i : ℕ) (f : Job → Job)
    → ((j : Job) → (f j).id ≡ j.id)
    → (js : List Job) → Apart js
    → Apart (update_rows (λ j. j.id == i) f js)
unfolding update_rows
update-Apart i f keeps [] h = tt
update-Apart i f keeps (j ∷ js) (apart, rest) =
    let own : (if j.id == i then f j else j).id ≡ j.id = ground (arith, keeps j) in
    (rw (own, any_row-update i j.id f keeps js) apart, update-Apart i f keeps js rest)

update-Sound :
    (i : ℕ) (f : Job → Job) (js : List Job) (j : Job)
    → Apart js
    → All IsSound js
    → find_row (λ k. k.id == i) js ≡ some j
    → IsSound (f j)
    → All IsSound (update_rows (λ k. k.id == i) f js)
unfolding find_row update_rows
update-Sound i f [] j apart sound found h = tt
update-Sound i f (k ∷ ks) j apart sound found h = elim (Bool-cases (k.id == i)) [
  | inl same ↦
      let e : k ≡ j = ground (arith, same, found) in
      let own : (k.id ≡ i) = ==-sound k.id i same in
      rw
        (same, e, update-none i f ks (subst (λ n. any_row (λ r. r.id == n) ks ≡ false) own apart.0))
        (h, sound.1)
  | inr other ↦
      let later : find_row (λ r. r.id == i) ks ≡ some j = ground (arith, other, found) in
      rw other (sound.0, update-Sound i f ks j apart.1 sound.1 later h)
]

find_row-here : (j : Job) (js : List Job) → find_row (λ k. k.id == j.id) (j ∷ js) ≡ some j
unfolding find_row
find_row-here j js = rw (==-refl j.id) refl

pub job-Sound :
    (js : List Job) (i : ℕ) (j : Job)
    → All IsSound js
    → find_row (λ k. k.id == i) js ≡ some j
    → IsSound j
unfolding find_row
job-Sound [] i j sound found = absurd (cc)
job-Sound (k ∷ ks) i j sound found = elim (Bool-cases (k.id == i)) [
  | inl same ↦ let e : k ≡ j = ground (arith, same, found) in subst IsSound e sound.0
  | inr other ↦ job-Sound ks i j sound.1 (ground (arith, other, found))
]

any_row-add :
    (p : Job → Bool) (x : Job) (js : List Job)
    → any_row p js ≡ false
    → p x ≡ false
    → any_row p (add_row x js) ≡ false
unfolding any_row add_row
any_row-add p x [] h k = ground arith
any_row-add p x (j ∷ js) h k = ground (arith, any_row-add p x js)

==-sym : (a b : ℕ) → (a == b) ≡ false → (b == a) ≡ false
==-sym a b h = ground arith

found-any :
    (p : Job → Bool) (js : List Job) {j : Job} → find_row p js ≡ some j → any_row p js ≡ true
unfolding find_row any_row
found-any p [] h = absurd (cc)
found-any p (j ∷ js) {j = k} h = ground (arith, found-any p js {j = k})

-- A row of which no other has the id is found behind another row too.
found-behind :
    (j k : Job) (js : List Job)
    → any_row (λ r. r.id == j.id) js ≡ false
    → find_row (λ r. r.id == k.id) js ≡ some k
    → find_row (λ r. r.id == k.id) (j ∷ js) ≡ some k
unfolding find_row
found-behind j k js lone found = elim (Bool-cases (j.id == k.id)) [
  | inl same ↦
      let e : k.id ≡ j.id = sym (==-sound j.id k.id same) in
      let seen = subst (λ n. any_row (λ r. r.id == n) js ≡ true) e (found-any _ js found) in
      absurd (cc)
  | inr other ↦ rw other found
]

-- What a query returns are rows that meet it, each the one of its id.
abbrev pub IsRow : (Job → Bool) → List Job → Job → Type 0
IsRow p js j = (p j ≡ true) × (find_row (λ k. k.id == j.id) js ≡ some j)

pub where_rows-IsRow :
    (p : Job → Bool) (js : List Job) → Apart js → All (IsRow p js) (where_rows p js)
unfolding where_rows
where_rows-IsRow p [] h = tt
where_rows-IsRow p (j ∷ js) (lone, apart) =
    let rest : All (IsRow p (j ∷ js)) (where_rows p js) =
      All-map (IsRow p js) (IsRow p (j ∷ js))
        (λ k (meets, found). (meets, found-behind j k js lone found)) (where_rows p js)
        (where_rows-IsRow p js apart) in
    elim (Bool-cases (p j)) [
      | inl meets ↦ rw meets ((meets, find_row-here j js), rest)
      | inr fails ↦ rw fails rest
    ]

pub update-keeps :
    (i : ℕ) (f : Job → Job) (db : Database) (j : Job)
    → ((k : Job) → (f k).id ≡ k.id)
    → job_by_id i db ≡ some j
    → IsSound (f j)
    → IsWellFormed db
    → IsWellFormed (update_job i f db)
update-keeps i f db j keeps found good (apart, sound) =
    (update-Apart i f keeps db.job apart, update-Sound i f db.job j apart sound found good)

pub add-Apart :
    (x : Job) (js : List Job)
    → Apart js
    → any_row (λ k. k.id == x.id) js ≡ false
    → Apart (add_row x js)
unfolding any_row add_row
add-Apart x [] apart fresh = (refl, tt)
add-Apart x (j ∷ js) (lone, apart) fresh =
    let other : (j.id == x.id) ≡ false = ground arith in
    let fresh' : any_row (λ k. k.id == x.id) js ≡ false = ground arith in
    (
      any_row-add (λ k. k.id == j.id) x js lone (==-sym j.id x.id other),
      add-Apart x js apart fresh',
    )

pub add-Sound : (x : Job) (js : List Job) → All IsSound js → IsSound x → All IsSound (add_row x js)
unfolding add_row
add-Sound x js sound h = All-append IsSound js (x ∷ []) sound (h, tt)
