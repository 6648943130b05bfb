-- ===== src/Runtime/Materialization/Outcome.antt =====
-- The outcomes of materialize_frame (src/runtime/materialization.cpp).
use uni_jit.Common.{◌+◌, ◌≡◌, ◌⊎◌, List, length}
use uni_jit.Status.{Status, Result, failure}
use uni_jit.Runtime.Deoptimization.{ReconstructedFrame}
use uni_jit.Runtime.Materialization.{ObjectRecipe}
use uni_jit.Runtime.Materialization.Build.{MaterializationCallbacks, MaterializedFrame}
use uni_jit.Runtime.Materialization.Transaction.{Counts, IsTransaction}
use uni_jit.Runtime.Materialization.Calls.{fields_of}

-- The calls that a transaction needs: an allocation for each recipe, a store for each of its fields, and an
-- installation for each recovered value and each object.
abbrev pub needed : ReconstructedFrame → List ObjectRecipe → Counts
needed frame recipes = (length recipes, fields_of recipes, length frame.values + length recipes)

module _ {World : Type 0} (host : MaterializationCallbacks World) where
  -- Refused before the host is called, which is left as it was; or a transaction with all calls.
  abbrev pub IsOutcome : World → Counts → World × Result MaterializedFrame → Type 0
  IsOutcome start n r = ((s : Status) × (r ≡ (start, failure s))) ⊎ IsTransaction host start n r
