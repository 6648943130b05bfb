-- ===== src/Jit/Scheduler/Lanes.antt =====
-- Which lane pop_task_locked serves (src/jit/compilation_scheduler.cpp).
use uni_jit.Common.{
  ℕ, zero, suc, ◌+◌, ◌-◌, ◌*◌, ◌≤◌, ◌<◌, ◌≡◌, ◌⊎◌, inl, inr, refl, Bool, true, false, not, ◌&&◌,
  ◌||◌, Option, some, List, [], ◌∷◌, length, get_elem?, ap, arith, ltb, if_each, ◌%◌, ◌^◌,
  if◌then◌else◌,
}
use uni_jit.Jit.Scheduler.{
  CompilationPriority, Choice, choose_lane, maximum_urgent_burst, maximum_normal_burst,
}

-- A choice serves a lane, or brings it nearer by a measure.
abbrev pub Nears : CompilationPriority → (ℕ → ℕ → ℕ) → ℕ → ℕ → Choice → Type 0
Nears lane measure urgent_burst normal_burst choice =
    (choice.0 ≡ some lane) ⊎ (measure choice.1 choice.2 < measure urgent_burst normal_burst)

-- How often other lanes may still be served before a lane that has a task.
abbrev pub background_wait : ℕ → ℕ → ℕ
background_wait urgent_burst normal_burst = 5 * (2 - normal_burst) + (4 - urgent_burst)

abbrev pub normal_wait : ℕ → ℕ → ℕ
normal_wait urgent_burst normal_burst = (if ltb normal_burst 2 then 0 else 5) + (4 - urgent_burst)

abbrev pub urgent_wait : ℕ → ℕ → ℕ
urgent_wait urgent_burst normal_burst = if ltb urgent_burst 4 then 0 else 1

choose_lane-background :
    (urgents normals : Bool) (urgent_burst normal_burst : ℕ)
    → Nears CompilationPriority.background background_wait urgent_burst normal_burst
        (choose_lane urgents normals true urgent_burst normal_burst)
unfolding choose_lane
choose_lane-background urgents normals urgent_burst normal_burst =
    let P = Nears CompilationPriority.background background_wait urgent_burst normal_burst in
    if_each P (urgents && (ltb urgent_burst maximum_urgent_burst || not normals && false)) _ _
      (λ urgent_turn. inr (urgent_nears (ground (arith, urgent_turn))))
      (λ no_urgent.
        if_each P (normals && (ltb normal_burst maximum_normal_burst || false)) _ _
          (λ normal_turn. inr (normal_nears (ground (arith, normal_turn)))) (λ no_normal. inl refl))
  where
    urgent_nears :
        urgent_burst < 4
        → background_wait ((urgent_burst + 1) % 2 ^ 64) normal_burst
          < background_wait urgent_burst normal_burst
    urgent_nears h = omega (arith, h)

    normal_nears :
        normal_burst < 2
        → background_wait 0 ((normal_burst + 1) % 2 ^ 64)
          < background_wait urgent_burst normal_burst
    normal_nears h = omega (arith, h)

choose_lane-normal :
    (urgents backgrounds : Bool) (urgent_burst normal_burst : ℕ)
    → Nears CompilationPriority.normal normal_wait urgent_burst normal_burst
        (choose_lane urgents true backgrounds urgent_burst normal_burst)
unfolding choose_lane
choose_lane-normal urgents backgrounds urgent_burst normal_burst =
    let P = Nears CompilationPriority.normal normal_wait urgent_burst normal_burst in
    if_each P (urgents && (ltb urgent_burst maximum_urgent_burst || false)) _ _
      (λ urgent_turn. inr (urgent_nears (ground (arith, urgent_turn))))
      (λ no_urgent.
        if_each P (ltb normal_burst maximum_normal_burst || not backgrounds) _ _
          (λ normal_turn. inl refl)
          (λ no_normal.
            if_each P backgrounds _ _
              (λ has_background. inr (background_nears (ground (arith, no_normal))))
              (λ no_background. absurd (ground (arith, no_normal, no_background)))))
  where
    background_nears : 2 ≤ normal_burst → normal_wait 0 0 < normal_wait urgent_burst normal_burst
    background_nears h = ground (arith, h)

    urgent_nears :
        urgent_burst < 4
        → normal_wait ((urgent_burst + 1) % 2 ^ 64) normal_burst
          < normal_wait urgent_burst normal_burst
    urgent_nears h = ground (arith, h)

choose_lane-urgent :
    (normals backgrounds : Bool) (urgent_burst normal_burst : ℕ)
    → Nears CompilationPriority.urgent urgent_wait urgent_burst normal_burst
        (choose_lane true normals backgrounds urgent_burst normal_burst)
unfolding choose_lane
choose_lane-urgent normals backgrounds urgent_burst normal_burst =
    let P = Nears CompilationPriority.urgent urgent_wait urgent_burst normal_burst in
    if_each P (ltb urgent_burst maximum_urgent_burst || not normals && not backgrounds) _ _
      (λ urgent_turn. inl refl)
      (λ no_urgent.
        if_each P (normals && (ltb normal_burst maximum_normal_burst || not backgrounds)) _ _
          (λ normal_turn. inr (nears (ground (arith, no_urgent))))
          (λ no_normal.
            if_each P backgrounds _ _ (λ has_background. inr (nears (ground (arith, no_urgent))))
              (λ no_background. inl refl)))
  where
    nears : 4 ≤ urgent_burst → urgent_wait 0 0 < urgent_wait urgent_burst normal_burst
    nears h = ground (arith, h)

-- The lanes that a run of pops serves, each with what is queued in the other two lanes.
abbrev pub lanes_served :
    (Bool × Bool → ℕ → ℕ → Choice) → List (Bool × Bool) → ℕ → ℕ → List (Option CompilationPriority)
lanes_served choose [] urgent_burst normal_burst = []
lanes_served choose (others ∷ run) urgent_burst normal_burst =
    let choice = choose others urgent_burst normal_burst in
    choice.0 ∷ lanes_served choose run choice.1 choice.2

-- One of the first `bound` pops of a run serves the lane.
abbrev pub ServedWithin : ℕ → CompilationPriority → List (Option CompilationPriority) → Type 0
ServedWithin bound lane served = (i : ℕ) × (i < bound) × (get_elem? served i ≡ some (some lane))

module _ (choose : Bool × Bool → ℕ → ℕ → Choice) (lane : CompilationPriority) (measure : ℕ → ℕ → ℕ)
    (nears : (others : Bool × Bool) (u n : ℕ) → Nears lane measure u n (choose others u n)) where
  served_in_time :
      (bound : ℕ) (run : List (Bool × Bool)) (u n : ℕ)
      → bound ≤ length run
      → measure u n < bound
      → ServedWithin bound lane (lanes_served choose run u n)
  served_in_time zero run u n long near = absurd (omega (arith, near))
  served_in_time (suc bound) [] u n long near = absurd (omega (arith, long))
  served_in_time (suc bound) (others ∷ run) u n long near = elim (nears others u n) [
    | inl now ↦ (0, omega arith, ap some now)
    | inr nearer ↦
        let choice = choose others u n in
        let (i, early, at) =
          served_in_time bound run choice.1 choice.2 (omega (arith, long))
            (omega (arith, near, nearer)) in
        (suc i, omega (arith, early), at)
  ]

-- No lane starves, whatever is queued in the others from pop to pop, and whatever the bursts are. In any
-- run of at least 15 pops, one of the first 15 serves the background lane if that has a task at each of
-- them, one of the first 10 the normal lane if that has, and one of the first 2 the urgent lane if that has.
pub choose_lane_serves :
    (run : List (Bool × Bool)) (urgent_burst normal_burst : ℕ)
    → 15 ≤ length run
    → ServedWithin 15 CompilationPriority.background
        (lanes_served (λ o u n. choose_lane o.0 o.1 true u n) run urgent_burst normal_burst)
      × ServedWithin 10 CompilationPriority.normal
          (lanes_served (λ o u n. choose_lane o.0 true o.1 u n) run urgent_burst normal_burst)
      × ServedWithin 2 CompilationPriority.urgent
          (lanes_served (λ o u n. choose_lane true o.0 o.1 u n) run urgent_burst normal_burst)
choose_lane_serves run urgent_burst normal_burst long = (
  served_in_time (λ o u n. choose_lane o.0 o.1 true u n) CompilationPriority.background
      background_wait (λ o u n. choose_lane-background o.0 o.1 u n) 15 run urgent_burst normal_burst
      long (omega arith),
  served_in_time (λ o u n. choose_lane o.0 true o.1 u n) CompilationPriority.normal normal_wait
      (λ o u n. choose_lane-normal o.0 o.1 u n) 10 run urgent_burst normal_burst
      (omega (arith, long)) (ground arith),
  served_in_time (λ o u n. choose_lane true o.0 o.1 u n) CompilationPriority.urgent urgent_wait
      (λ o u n. choose_lane-urgent o.0 o.1 u n) 2 run urgent_burst normal_burst
      (omega (arith, long)) (ground arith),
)
