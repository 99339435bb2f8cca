-- ===== src/Migrations/Metadata/Names.antt =====
-- The names of constraints and indexes (`NAMING_CONVENTION` of backend/app/db/base.py).
use Prim.Native.String.{◌++◌}
use counselready.Common.{String, List, [], ◌∷◌}

-- The parts of a name joined by underscores.
unfoldable pub joined : String → List String → String
joined s [] = s
joined s (t ∷ ts) = joined (s ++ ("_" ++ t)) ts
