-- ===== src/Runtime/Materialization/Calls.antt =====
-- How many calls materialize_frame makes on its host (src/runtime/materialization.cpp).
use mathlib.Core.Path.{subst}
use uni_jit.Common.{
  ℕ, suc, ◌+◌, ◌≡◌, refl, ap, List, [], ◌∷◌, map, length, length-append, if_each, arith,
}
use uni_jit.Status.{is_ok, Result, success, failure}
use uni_jit.Runtime.Deoptimization.{ReconstructedFrame}
use uni_jit.Runtime.Materialization.{MaterializationSource, MaterializationInput, ObjectRecipe}
use uni_jit.Runtime.Materialization.Build.{
  MaterializationCallbacks, MaterializedValueKind, MaterializedValue, kept, installed, output,
  consed, allocate_all, store_field, field_stores, object_stores, install, installs,
}
use uni_jit.Runtime.Materialization.Transaction.{Call, Went, Fails, Chain, Chain-append}

abbrev pub fields_of : List ObjectRecipe → ℕ
fields_of [] = 0
fields_of (recipe ∷ recipes) = length recipe.fields + fields_of recipes

length-map {ℓ κ} :
    {A : Type ℓ} {B : Type κ} (f : A → B) (xs : List A) → length (map f xs) ≡ length xs
length-map f [] = refl
length-map f (x ∷ xs) = ap suc (length-map f xs)

length-installed :
    (recipes : List ObjectRecipe) (handles : List ℕ)
    → length handles ≡ length recipes
    → length (installed recipes handles) ≡ length recipes
length-installed [] handles e = refl
length-installed (recipe ∷ recipes) [] e = absurd (omega arith)
length-installed (recipe ∷ recipes) (handle ∷ handles) e =
    ap suc (length-installed recipes handles (omega arith))

pub length-output :
    (frame : ReconstructedFrame) (recipes : List ObjectRecipe) (handles : List ℕ)
    → length handles ≡ length recipes
    → length (output frame recipes handles).values ≡ length frame.values + length recipes
length-output frame recipes handles e = omega (
  arith,
  length-append (map kept frame.values) (installed recipes handles),
  length-map kept frame.values,
  length-installed recipes handles e,
)

module _ {World : Type 0} (host : MaterializationCallbacks World) where
  -- The outcome of the allocations: all have succeeded, with a handle for each; or one has failed.
  abbrev pub Allocated : World → ℕ → ℕ → World × Result (List ℕ) → Type 0
  Allocated start total count (w, success handles) =
      Went host start (total, 0, 0) w × (length handles ≡ count)
  Allocated start total count (w, failure s) = Fails host start (w, s)

  consed-Allocated :
      (start : World) (total count handle : ℕ) (r : World × Result (List ℕ))
      → Allocated start total count r
      → Allocated start total (suc count) (consed host handle r)
  consed-Allocated start total count handle (w, success handles) h = (h.0, ap suc h.1)
  consed-Allocated start total count handle (w, failure s) h = h

  pub allocate_all-Allocated :
      (start : World) (a total : ℕ) (recipes : List ObjectRecipe) (w : World)
      → a + length recipes ≡ total
      → Went host start (a, 0, 0) w
      → Allocated start total (length recipes) (allocate_all host recipes w)
  unfolding allocate_all
  allocate_all-Allocated start a total [] w e h =
      let same : a ≡ total = omega arith in
      (subst (λ (n : ℕ). Went host start (n, 0, 0) w) same h, refl)
  allocate_all-Allocated start a total (recipe ∷ recipes) w e h =
      let (v, s, handle) = host.allocate recipe.id recipe.kind (length recipe.fields) w in
      let call = Call.allocates recipe.id recipe.kind (length recipe.fields) in
      if_each {A = World × Result (List ℕ)} (Allocated start total (suc (length recipes))) (is_ok s)
        (consed host handle (allocate_all host recipes v)) (v, failure s)
        (λ good.
          consed-Allocated start total (length recipes) handle (allocate_all host recipes v) (
            allocate_all-Allocated start (suc a) total recipes v (omega arith)
              (Went.then h call good)))
        (λ bad. Fails.call_fails h call bad)

  store_field-Call :
      (frame : ReconstructedFrame) (all : List ObjectRecipe) (handles : List ℕ)
      (source : MaterializationSource) (handle index : ℕ) (input : MaterializationInput) (a s : ℕ)
      (w : World)
      → Call host
          (a, s, 0)
          (a, suc s, 0)
          w
          (store_field host frame all handles source handle index input w)
  store_field-Call frame all handles MaterializationSource.object handle index input a s w =
      Call.stores_object handle index _
  store_field-Call frame all handles MaterializationSource.constant handle index input a s w =
      Call.stores_primitive handle index input.type _
  store_field-Call frame all handles MaterializationSource.recovered_slot handle index input a s w =
      Call.stores_primitive handle index input.type _

  field_stores-Chain :
      (frame : ReconstructedFrame) (all : List ObjectRecipe) (handles : List ℕ) (handle index : ℕ)
      (fields : List MaterializationInput) (a s e : ℕ)
      → s + length fields ≡ e
      → Chain host (a, s, 0) (field_stores host frame all handles handle index fields) (a, e, 0)
  field_stores-Chain frame all handles handle index [] a s e h =
      let same : s ≡ e = omega arith in ap (λ (n : ℕ). (a, n, 0)) same
  field_stores-Chain frame all handles handle index (input ∷ fields) a s e h = (
    (a, suc s, 0),
    store_field-Call frame all handles input.source handle index input a s,
    field_stores-Chain frame all handles handle (index + 1) fields a (suc s) e (omega arith),
  )

  pub object_stores-Chain :
      (frame : ReconstructedFrame) (all : List ObjectRecipe) (handles : List ℕ)
      (recipes : List ObjectRecipe) (rest : List ℕ) (a s e : ℕ)
      → length rest ≡ length recipes
      → s + fields_of recipes ≡ e
      → Chain host (a, s, 0) (object_stores host frame all handles recipes rest) (a, e, 0)
  object_stores-Chain frame all handles [] rest a s e sized h =
      let same : s ≡ e = omega arith in ap (λ (n : ℕ). (a, n, 0)) same
  object_stores-Chain frame all handles (recipe ∷ recipes) [] a s e sized h = absurd (omega arith)
  object_stores-Chain frame all handles (recipe ∷ recipes) (handle ∷ rest) a s e sized h =
      let m : ℕ = s + length recipe.fields in
      Chain-append host (a, s, 0) (a, m, 0) (a, e, 0)
        (field_stores host frame all handles handle 0 recipe.fields)
        (object_stores host frame all handles recipes rest)
        (field_stores-Chain frame all handles handle 0 recipe.fields a s m refl)
        (object_stores-Chain frame all handles recipes rest a m e (omega arith) (omega arith))

  install-Call :
      (kind : MaterializedValueKind) (value : MaterializedValue) (a s i : ℕ) (w : World)
      → Call host (a, s, i) (a, s, suc i) w (install host kind value w)
  install-Call MaterializedValueKind.object value a s i w = Call.installs_object _ _
  install-Call MaterializedValueKind.float64 value a s i w = Call.installs_primitive _ _ _
  install-Call MaterializedValueKind.word value a s i w = Call.installs_primitive _ _ _

  pub installs-Chain :
      (values : List MaterializedValue) (a s i e : ℕ)
      → i + length values ≡ e
      → Chain host (a, s, i) (installs host values) (a, s, e)
  installs-Chain [] a s i e h = let same : i ≡ e = omega arith in ap (λ (n : ℕ). (a, s, n)) same
  installs-Chain (value ∷ values) a s i e h = (
    (a, s, suc i),
    install-Call value.kind value a s i,
    installs-Chain values a s (suc i) e (omega arith),
  )
