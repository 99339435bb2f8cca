-- ===== src/Api/Uploads/Streams.antt =====
-- The stream of an upload carries the file, chunk by chunk.
use counselready.Common.{
  ℕ, zero, suc, ◌≤◌, ◌<◌, ◌≡◌, refl, ap, ◌∙◌, subst, arith, Option, List, [], ◌∷◌, ◌++◌, length,
  take, drop, take-append-drop, length-drop, All, length-take,
}
use counselready.Effects.Action.{Result, ok, err}
use counselready.Effects.Library.{Bytes}
use counselready.Ingest.Limits.{read_bounded, default_max_upload_bytes}
use counselready.Ingest.Limits.Bounds.{joined, Bounded, read_bounded-Bounded}
use counselready.Api.Uploads.{chunks_of, stream, upload_chunk, read_upload}

-- With as many rounds as there are bytes, or more, and a chunk size above 0, the chunks join to the
-- bytes, and none is larger than that size.
pub joined-chunks_of :
    (rounds chunk : ℕ) (bytes : Bytes)
    → 0 < chunk
    → length bytes ≤ rounds
    → (joined (chunks_of rounds chunk bytes) ≡ bytes)
      × All (λ c. length c ≤ chunk) (chunks_of rounds chunk bytes)
unfolding chunks_of
joined-chunks_of zero chunk [] h n = (refl, tt)
joined-chunks_of zero chunk (b ∷ bytes) h n = absurd (omega arith)
joined-chunks_of (suc rounds) chunk [] h n = (refl, tt)
joined-chunks_of (suc rounds) chunk (b ∷ bytes) h n =
    let rest : length (drop chunk (b ∷ bytes)) ≤ rounds =
      omega (arith, length-drop chunk (b ∷ bytes)) in
    let (whole, small) = joined-chunks_of rounds chunk (drop chunk (b ∷ bytes)) h rest in
    (
      ap (λ x. take chunk (b ∷ bytes) ++ x) whole ∙ take-append-drop chunk (b ∷ bytes),
      (omega (arith, length-take chunk (b ∷ bytes)), small),
    )

abbrev Whole : Bytes → Result Bytes → Type 0
Whole file (ok bytes) =
    (bytes ≡ file) × (1 ≤ length bytes) × (length bytes ≤ default_max_upload_bytes)
Whole file (err e) = Unit

Bounded-Whole :
    (declared : Option ℕ) (file : Bytes) (r : Result Bytes × List Bytes)
    → Bounded default_max_upload_bytes declared (stream file) r
    → Whole file r.0
Bounded-Whole declared file (ok bytes, rest) (fits, e, low, high) = (
  e ∙ (joined-chunks_of (length file) upload_chunk file (omega arith) (omega arith)).0,
  low,
  high,
)
Bounded-Whole declared file (err e, rest) h = tt

-- What the bounded reader returns of an upload is the file.
pub read_upload_whole :
    {S : Type 0} (declared : Option ℕ) (file : Bytes) (s : S) {bytes : Bytes} {s' : S}
    → read_upload declared file s ≡ (ok bytes, s')
    → (bytes ≡ file) × (1 ≤ length bytes) × (length bytes ≤ default_max_upload_bytes)
unfolding read_upload
read_upload_whole declared file s h =
    subst (λ x. Whole file x.0) h
      (Bounded-Whole declared file (read_bounded default_max_upload_bytes declared (stream file))
        (read_bounded-Bounded default_max_upload_bytes declared (stream file)))
