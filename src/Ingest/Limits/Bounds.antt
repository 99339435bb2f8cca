-- ===== src/Ingest/Limits/Bounds.antt =====
-- What a bounded read returns, and how much of the stream it has read.
use counselready.Common.{
  ℕ, ◌≤◌, ◌<◌, ◌≡◌, ◌⊎◌, inl, inr, refl, sym, arith, ap, ◌∙◌, subst, true, false, Option, List, [],
  ◌∷◌, ◌++◌, length, ltb, ltb→lt, Bool-cases, append_assoc, append-nil,
}
use counselready.Effects.Exceptions.{upload_too_large, empty_upload}
use counselready.Effects.Action.{Result, ok, err, ◌>>=◌}
use counselready.Effects.Library.{Bytes}
use counselready.Ingest.Limits.{is_declared_too_large, read_chunks, refuse_empty, read_bounded}

-- The bytes of a stream, one chunk after another.
abbrev pub joined : List Bytes → Bytes
joined [] = []
joined (c ∷ cs) = c ++ joined cs

-- How a stream was read: to its end, within the limit; or up to the chunk that crossed it.
abbrev pub Reads : ℕ → Bytes → List Bytes → Result Bytes × List Bytes → Type 0
Reads max_bytes buffer chunks (ok bytes, rest) =
    (bytes ≡ buffer ++ joined chunks) × (length bytes ≤ max_bytes) × (rest ≡ [])
Reads max_bytes buffer chunks (err e, rest) =
    (taken : List Bytes) × (c : Bytes) × (e ≡ upload_too_large max_bytes)
    × (chunks ≡ taken ++ c ∷ rest)
    × (length (buffer ++ joined taken) ≤ max_bytes)
    × (max_bytes < length (buffer ++ joined (taken ++ c ∷ [])))

Reads-step :
    (max_bytes : ℕ) (buffer c : Bytes) (cs : List Bytes) (r : Result Bytes × List Bytes)
    → length buffer ≤ max_bytes
    → Reads max_bytes (buffer ++ c) cs r
    → Reads max_bytes buffer (c ∷ cs) r
Reads-step max_bytes buffer c cs (ok bytes, rest) small (e, n, done) =
    (e ∙ append_assoc buffer c (joined cs), n, done)
Reads-step max_bytes buffer c cs (err x, rest) small (taken, last, e, split, below, above) = (
  c ∷ taken,
  last,
  e,
  ap (◌∷◌ c) split,
  subst (λ b. length b ≤ max_bytes) (append_assoc buffer c (joined taken)) below,
  subst (λ b. max_bytes < length b) (append_assoc buffer c (joined (taken ++ last ∷ []))) above,
)

read_chunks-Reads :
    (max_bytes : ℕ) (buffer : Bytes) (chunks : List Bytes)
    → length buffer ≤ max_bytes
    → Reads max_bytes buffer chunks (read_chunks max_bytes buffer chunks)
unfolding read_chunks
read_chunks-Reads max_bytes buffer [] small = (sym (append-nil buffer), small, refl)
read_chunks-Reads max_bytes buffer (c ∷ cs) small =
    elim (Bool-cases (ltb max_bytes (length (buffer ++ c)))) [
      | inl over ↦ rw over (
        [],
        c,
        refl,
        refl,
        rw (append-nil buffer) small,
        rw (append-nil c) (ltb→lt max_bytes (length (buffer ++ c)) over),
      )
      | inr under ↦ rw under (
          Reads-step max_bytes buffer c cs (read_chunks max_bytes (buffer ++ c) cs) small
            (read_chunks-Reads max_bytes (buffer ++ c) cs (ground arith)))
    ]

-- The three ways in which a bounded read ends.
abbrev pub Bounded : ℕ → Option ℕ → List Bytes → Result Bytes × List Bytes → Type 0
Bounded max_bytes declared chunks (ok bytes, rest) =
    (is_declared_too_large max_bytes declared ≡ false)
    × (bytes ≡ joined chunks)
    × (1 ≤ length bytes)
    × (length bytes ≤ max_bytes)
Bounded max_bytes declared chunks (err e, rest) =
    (e ≡ upload_too_large max_bytes)
      × (is_declared_too_large max_bytes declared ≡ true)
      × (rest ≡ chunks)
    ⊎ (e ≡ empty_upload) × (joined chunks ≡ [])
    ⊎ (taken : List Bytes) × (c : Bytes) × (e ≡ upload_too_large max_bytes)
      × (chunks ≡ taken ++ c ∷ rest)
      × (length (joined taken) ≤ max_bytes)
      × (max_bytes < length (joined (taken ++ c ∷ [])))

refuse_empty-Bounded :
    (max_bytes : ℕ) (declared : Option ℕ) (chunks : List Bytes) (r : Result Bytes × List Bytes)
    → is_declared_too_large max_bytes declared ≡ false
    → Reads max_bytes [] chunks r
    → Bounded max_bytes declared chunks (((λ s. r) >>= refuse_empty) chunks)
unfolding refuse_empty
refuse_empty-Bounded max_bytes declared chunks (ok [], rest) fits (e, n, done) =
    inr (inl (refl, sym e))
refuse_empty-Bounded max_bytes declared chunks (ok (b ∷ bs), rest) fits (e, n, done) =
    (fits, e, omega arith, n)
refuse_empty-Bounded max_bytes declared chunks (err x, rest) fits h = inr (inr h)

-- A bounded read returns exactly the bytes of the stream, at least one and no more than the limit; or
-- it stops with the rest unread: at once if too much was declared, or at the very chunk that crosses
-- the limit, so that the buffer never holds more than the limit and that chunk; or the stream was empty.
pub read_bounded-Bounded :
    (max_bytes : ℕ) (declared : Option ℕ) (chunks : List Bytes)
    → Bounded max_bytes declared chunks (read_bounded max_bytes declared chunks)
unfolding read_bounded
read_bounded-Bounded max_bytes declared chunks =
    elim (Bool-cases (is_declared_too_large max_bytes declared)) [
      | inl over ↦ rw (over, read_bounded) (inl (refl, over, refl))
      | inr fits ↦
          rw (fits, read_bounded)
            (refuse_empty-Bounded max_bytes declared chunks (read_chunks max_bytes [] chunks) fits
              (read_chunks-Reads max_bytes [] chunks (omega arith)))
    ]
