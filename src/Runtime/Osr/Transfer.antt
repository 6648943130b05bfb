-- ===== src/Runtime/Osr/Transfer.antt =====
-- What OsrEntryPlan.marshal carries over, and when (src/runtime/on_stack_replacement.cpp).
use uni_jit.Common.{
  ℕ, suc, ◌≡◌, refl, ap, ◌∙◌, Bool, true, false, not, ◌||◌, Option, none, some, List, [], ◌∷◌,
  length, ◌==◌, ==→eq, eq→==, if◌then◌else◌, if_true, if_false, arith, Bool-cases, inl, inr,
  IsFirst, find_if-IsFirst, IsFirst-find_if,
}
use uni_jit.Status.{StatusCode, Status, status, ok_status, is_ok}
use uni_jit.Ir.Opcode.{ValueType, same_type, same_type→eq, same_type_refl}
use uni_jit.Runtime.Osr.{
  OsrValue, OsrFrame, OsrBinding, OsrEntryPlan, OsrArguments, find_slot, value_of, turn, written,
  marshal_loop, marshal, arguments_of,
}

-- The value that a frame has for a slot: the first of its values in that slot.
abbrev pub Has : OsrFrame → ℕ → OsrValue → Type 0
Has frame slot w = IsFirst (λ (v : OsrValue). v.slot) slot w frame.values

-- The frame's value of each binding in turn, of the type of the binding, which is that of the parameter.
abbrev pub Carried : OsrFrame → List OsrBinding → List ValueType → List ℕ → Type 0
Carried frame [] [] [] = Unit
Carried frame (b ∷ bs) (t ∷ ts) (v ∷ vs) =
    (t ≡ b.type)
    × ((w : OsrValue) × Has frame b.slot w × (w.type ≡ b.type) × (w.value ≡ v))
    × Carried frame bs ts vs
Carried frame _ _ _ = ⊥

read-value :
    (type : ValueType) (o : Option OsrValue) (v : ℕ)
    → value_of type o ≡ some v
    → (w : OsrValue) × (o ≡ some w) × (w.type ≡ type) × (w.value ≡ v)
read-value type none v h = absurd (ground (arith, h))
read-value type (some w) v h = elim (Bool-cases (same_type w.type type)) [
  | inl same ↦ (w, refl, same_type→eq w.type type same, ground (arith, h, same))
  | inr other ↦ absurd (ground (arith, h, other))
]

found-Has :
    (frame : OsrFrame) (slot : ℕ) (w : OsrValue) → find_slot slot frame ≡ some w → Has frame slot w
unfolding find_slot
found-Has frame slot w found = find_if-IsFirst (λ (v : OsrValue). v.slot) slot w frame.values found

Has-found :
    (frame : OsrFrame) (slot : ℕ) (w : OsrValue) → Has frame slot w → find_slot slot frame ≡ some w
unfolding find_slot
Has-found frame slot w has = IsFirst-find_if (λ (v : OsrValue). v.slot) slot w frame.values has

-- A turn carries its value over if it and the turns that follow end well.
turn-Carried :
    (frame : OsrFrame) (b : OsrBinding) (bs : List OsrBinding) (t : ValueType) (ts : List ValueType)
    (same : Bool) (o : Option ℕ) (rest : List ℕ × Status)
    → same_type t b.type ≡ same
    → value_of b.type (find_slot b.slot frame) ≡ o
    → is_ok
        (if not same then ([], status StatusCode.invalid_argument b.slot) else turn b.slot o rest).1
      ≡ true
    → (is_ok rest.1 ≡ true → Carried frame bs ts rest.0)
    → Carried frame
        (b ∷ bs)
        (t ∷ ts)
        (if not same then ([], status StatusCode.invalid_argument b.slot) else turn b.slot o rest).0
turn-Carried frame b bs t ts false o rest same found ends later = absurd (ground (arith, ends))
turn-Carried frame b bs t ts true none rest same found ends later = absurd (ground (arith, ends))
turn-Carried frame b bs t ts true (some v) (vs, s) same found ends later =
    let (w, there, type, value) = read-value b.type (find_slot b.slot frame) v found in
    (same_type→eq t b.type same, (w, found-Has frame b.slot w there, type, value), later ends)

marshal_loop-Carried :
    (frame : OsrFrame) (bs : List OsrBinding) (ts : List ValueType)
    → length ts ≡ length bs
    → is_ok (marshal_loop frame bs ts).1 ≡ true
    → Carried frame bs ts (marshal_loop frame bs ts).0
unfolding marshal_loop
marshal_loop-Carried frame [] [] sized ends = _
marshal_loop-Carried frame [] (t ∷ ts) sized ends = absurd (omega (arith, sized))
marshal_loop-Carried frame (b ∷ bs) [] sized ends = absurd (omega (arith, sized))
marshal_loop-Carried frame (b ∷ bs) (t ∷ ts) sized ends =
    turn-Carried frame b bs t ts (same_type t b.type) (value_of b.type (find_slot b.slot frame))
      (marshal_loop frame bs ts) refl refl ends
      (λ ended. marshal_loop-Carried frame bs ts (omega (arith, sized)) ended)

value-read :
    (type : ValueType) (w : OsrValue) (v : ℕ)
    → w.type ≡ type
    → w.value ≡ v
    → value_of type (some w) ≡ some v
value-read type w v same value =
    if_true _ _ (ap (λ t. same_type t type) same ∙ same_type_refl type) ∙ ap some value

Carried-marshal_loop :
    (frame : OsrFrame) (bs : List OsrBinding) (ts : List ValueType) (vs : List ℕ)
    → Carried frame bs ts vs
    → (length ts ≡ length bs) × (marshal_loop frame bs ts ≡ (vs, ok_status))
unfolding marshal_loop
Carried-marshal_loop frame [] [] [] h = (refl, refl)
Carried-marshal_loop frame [] [] (v ∷ vs) h = elim h [ ]
Carried-marshal_loop frame [] (t ∷ ts) vs h = elim h [ ]
Carried-marshal_loop frame (b ∷ bs) [] vs h = elim h [ ]
Carried-marshal_loop frame (b ∷ bs) (t ∷ ts) [] h = elim h [ ]
Carried-marshal_loop frame (b ∷ bs) (t ∷ ts) (v ∷ vs) (same, (w, found, type, value), later) =
    let tail = Carried-marshal_loop frame bs ts vs later in
    (
      ap suc tail.0,
      if_false _ _ (ap not (ap (λ u. same_type u b.type) same ∙ same_type_refl b.type))
          ∙ ap (λ o. turn b.slot o (marshal_loop frame bs ts))
              (ap (value_of b.type) (Has-found frame b.slot w found)
                ∙ value-read b.type w v type value)
          ∙ ap (written v) tail.1,
    )

-- When marshal succeeds, the frame is of the plan's entry site and offset, and each binding has a value
-- of its type in the frame, the first one in its slot, which is the type of the parameter at its place; the values
-- written are these, in the order of the bindings.
pub marshal-Carried :
    (frame : OsrFrame) (ts : List ValueType) (plan : OsrEntryPlan)
    → is_ok (marshal frame ts plan).status ≡ true
    → (frame.entry_site ≡ plan.entry_site)
      × (frame.resume_offset ≡ plan.resume_offset)
      × Carried frame plan.bindings ts (marshal frame ts plan).values
unfolding marshal
marshal-Carried frame ts plan ends =
    carries (frame.entry_site == plan.entry_site) (frame.resume_offset == plan.resume_offset)
      (length ts == length plan.bindings) refl refl refl ends
  where
    outcome : Bool → Bool → Bool → OsrArguments
    outcome site offset sized =
        if not site || not offset
        then arguments_of plan ([], status StatusCode.invalid_argument frame.entry_site)
        else if not sized
        then arguments_of plan ([], status StatusCode.invalid_argument plan.entry_site)
        else arguments_of plan (marshal_loop frame plan.bindings ts)

    carries :
        (site offset sized : Bool)
        → (frame.entry_site == plan.entry_site) ≡ site
        → (frame.resume_offset == plan.resume_offset) ≡ offset
        → (length ts == length plan.bindings) ≡ sized
        → is_ok (outcome site offset sized).status ≡ true
        → (frame.entry_site ≡ plan.entry_site)
          × (frame.resume_offset ≡ plan.resume_offset)
          × Carried frame plan.bindings ts (outcome site offset sized).values
    carries false offset sized a b c ends = absurd (ground (arith, ends))
    carries true false sized a b c ends = absurd (ground (arith, ends))
    carries true true false a b c ends = absurd (ground (arith, ends))
    carries true true true a b c ends =
        (==→eq a, ==→eq b, marshal_loop-Carried frame plan.bindings ts (==→eq c) ends)

-- What a frame must have for the plan and the parameters.
abbrev pub Accepts : OsrFrame → List ValueType → OsrEntryPlan → Type 0
Accepts frame ts plan =
    (frame.entry_site ≡ plan.entry_site)
    × (frame.resume_offset ≡ plan.resume_offset)
    × ((vs : List ℕ) × Carried frame plan.bindings ts vs)

pub marshal_refuses :
    (frame : OsrFrame) (ts : List ValueType) (plan : OsrEntryPlan)
    → (Accepts frame ts plan → ⊥)
    → is_ok (marshal frame ts plan).status ≡ false
marshal_refuses frame ts plan unfit = elim (Bool-cases (is_ok (marshal frame ts plan).status)) [
  | inl good ↦
      let (site, offset, values) = marshal-Carried frame ts plan good in
      absurd (unfit (site, offset, ((marshal frame ts plan).values, values)))
  | inr bad ↦ bad
]

-- Conversely, marshal succeeds when the frame is of the plan's entry site and offset and has, for each
-- binding, as the first in its slot a value of the type that the binding and the parameter have; the arguments are then all of
-- these values, in the order of the bindings.
pub marshal_succeeds :
    (frame : OsrFrame) (ts : List ValueType) (plan : OsrEntryPlan) (vs : List ℕ)
    → frame.entry_site ≡ plan.entry_site
    → frame.resume_offset ≡ plan.resume_offset
    → Carried frame plan.bindings ts vs
    → marshal frame ts plan ≡ record {
      status = ok_status;
      entry_site = plan.entry_site;
      resume_offset = plan.resume_offset;
      count = length plan.bindings;
      values = vs;
    }
unfolding marshal
marshal_succeeds frame ts plan vs site offset carried =
    let (sized, looped) = Carried-marshal_loop frame plan.bindings ts vs carried in
    if_false _ _ (both (eq→== site) (eq→== offset))
    ∙ if_false _ _ (ap not (eq→== sized))
    ∙ ap (arguments_of plan) looped
  where
    both : {a b : Bool} → a ≡ true → b ≡ true → (not a || not b) ≡ false
    both h k = ground (arith, h, k)
