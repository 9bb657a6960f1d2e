-- ===== src/Failsafe/Invariant.antt =====
-- The valid states of CompanionLinkFailsafe.cpp, between two calls.
use onboard_autonomy.Base.{
  ℕ, ◌≤◌, ◌<◌, ◌≡◌, refl, ◌↔◌, sym, ap, ◌∙◌, Bool, true, false, Option, none, some, Text, arith,
  has_value, Floating, inl, inr, ltb, Bool-cases,
}
use onboard_autonomy.Failsafe.{
  waiting_for_vehicle, reading_parameters, accepted, Failsafe, initial, reset, empty_snapshot,
  observe_vehicle, judge, received, validate, Slot, action_slot, other_slot, slot_of, fill,
  accept_value, on_parameter, count_value, exact_integer, timeout_in_range,
}
use onboard_autonomy.Failsafe.Gate.{IsSafe, judge_sound, judge_complete}

count_value-le {ℓ} : {A : Type ℓ} (o : Option A) → count_value o ≤ 1
count_value-le none = omega arith
count_value-le (some a) = omega arith

module _ {D : Type 0} ⦃fp : Floating D⦄ where
  pub record IsValid (f : Failsafe D) : Type 0 where
    pub required : f.snapshot.parameters_required ≡ 4
    pub counted : f.snapshot.parameters_received ≡ received f
    pub unwatched :
        f.snapshot.heartbeat_system_id ≡ none
        → (f.snapshot.phase ≡ waiting_for_vehicle) × (received f ≡ 0)
    pub partial :
        has_value f.snapshot.heartbeat_system_id ≡ true
        → received f < 4
        → f.snapshot.phase ≡ reading_parameters
    pub judged : received f ≡ 4 → judge f ≡ f

  pub initial-IsValid : IsValid initial
  unfolding initial received empty_snapshot
  initial-IsValid = ground arith

  reset-IsValid : (id : Option ℕ) → IsValid (reset id)
  unfolding reset received
  reset-IsValid none = ground arith
  reset-IsValid (some id) = ground arith

  pub observe_vehicle-IsValid :
      (connected : Bool) (id : Option ℕ) (f : Failsafe D)
      → IsValid f
      → IsValid (observe_vehicle connected id f)
  unfolding observe_vehicle
  observe_vehicle-IsValid connected none f v = ground (arith, reset-IsValid none)
  observe_vehicle-IsValid connected (some id) f v =
      ground (arith, reset-IsValid none, reset-IsValid (some id))

  judge-received : (f : Failsafe D) → received (judge f) ≡ received f
  unfolding received judge
  judge-received f = refl

  judge_idem : (f : Failsafe D) → judge (judge f) ≡ judge f
  unfolding judge
  judge_idem f = refl

  judge-unchanged :
      (f : Failsafe D)
      → ((judge f).snapshot.heartbeat_system_id ≡ f.snapshot.heartbeat_system_id)
        × ((judge f).snapshot.parameters_required ≡ f.snapshot.parameters_required)
        × ((judge f).snapshot.parameters_received ≡ f.snapshot.parameters_received)
  unfolding judge
  judge-unchanged f = (refl, refl, refl)

  received-le : (f : Failsafe D) → received f ≤ 4
  unfolding received
  received-le f = omega (
    arith,
    count_value-le f.raw_action,
    count_value-le f.raw_timeout_s,
    count_value-le f.raw_options,
    count_value-le f.raw_gcs_system_id,
  )

  -- Validation reads the raw values alone: the rest of the snapshot it writes.
  pub validate-partial :
      (f : Failsafe D)
      → f.snapshot.parameters_required ≡ 4
      → received f < 4
      → ((validate f).snapshot.phase ≡ reading_parameters)
        × ((validate f).snapshot.heartbeat_system_id ≡ f.snapshot.heartbeat_system_id)
        × ((validate f).snapshot.parameters_required ≡ 4)
        × ((validate f).snapshot.parameters_received ≡ received f)
        × (received (validate f) ≡ received f)
  unfolding validate received
  validate-partial f q l =
      let e : ltb (received f) f.snapshot.parameters_required ≡ true = ground arith in
      rw e (refl, refl, q, refl, refl)

  abbrev pub with_count : Failsafe D → Failsafe D
  with_count f = record f { snapshot = record f.snapshot { parameters_received = received f } }

  pub validate-full :
      (f : Failsafe D)
      → f.snapshot.parameters_required ≡ 4
      → received f ≡ 4
      → validate f ≡ judge (with_count f)
  unfolding validate
  validate-full f q l =
      let e : ltb (received f) f.snapshot.parameters_required ≡ false = ground arith in rw e

  with_count-received : (f : Failsafe D) → received (with_count f) ≡ received f
  unfolding received
  with_count-received f = refl

  judge-IsValid :
      (f : Failsafe D)
      → f.snapshot.parameters_required ≡ 4
      → f.snapshot.parameters_received ≡ 4
      → has_value f.snapshot.heartbeat_system_id ≡ true
      → received f ≡ 4
      → IsValid (judge f)
  judge-IsValid f q k h l =
      let (same_id, same_required, same_received) = judge-unchanged f in
      record {
        required = same_required ∙ q;
        counted = same_received ∙ k ∙ sym l ∙ sym (judge-received f);
        unwatched = λ e. ground (arith, judge-unchanged f);
        partial = λ e n. absurd (omega (arith, judge-received f));
        judged = λ e. judge_idem f;
      }

  pub validate-IsValid :
      (f : Failsafe D)
      → f.snapshot.parameters_required ≡ 4
      → has_value f.snapshot.heartbeat_system_id ≡ true
      → IsValid (validate f)
  validate-IsValid f q h = elim (Bool-cases (ltb (received f) 4)) [
    | inl few ↦
        let (phase, id, required, count, same_raw) = validate-partial f q (ground arith) in
        record {
          required = required;
          counted = count ∙ sym same_raw;
          unwatched = λ e. ground arith;
          partial = λ e n. phase;
          judged = λ e. absurd (ground arith);
        }
    | inr all ↦
        let four : received f ≡ 4 = ground (arith, received-le f) in
        rw (validate-full f q four)
          (judge-IsValid (with_count f) q four h (with_count-received f ∙ four))
  ]

  fill-snapshot : (s : Slot) (value : D) (f : Failsafe D) → (fill s value f).snapshot ≡ f.snapshot
  unfolding fill
  fill-snapshot action_slot value f = refl
  fill-snapshot _ value f = refl

  fill-IsValid :
      (s : Slot) (value : D) (f : Failsafe D)
      → IsValid f
      → has_value f.snapshot.heartbeat_system_id ≡ true
      → IsValid (validate (fill s value f))
  fill-IsValid s value f v h =
      let e = fill-snapshot s value f in
      validate-IsValid (fill s value f) (ap (λ t. t.parameters_required) e ∙ v.required) (rw e h)

  accept_value-IsValid :
      (s : Slot) (value : D) (f : Failsafe D)
      → IsValid f
      → has_value f.snapshot.heartbeat_system_id ≡ true
      → IsValid (accept_value s value f)
  unfolding accept_value
  accept_value-IsValid other_slot value f v h = v
  accept_value-IsValid s value f v h = fill-IsValid s value f v h

  -- Every report of a parameter keeps the state valid, whoever sends it and whatever it names.
  pub on_parameter-IsValid :
      (system component : ℕ) (id : Text) (value : D) (f : Failsafe D)
      → IsValid f
      → IsValid (on_parameter system component id value f)
  unfolding on_parameter
  on_parameter-IsValid system component id value f v =
      ground (arith, accept_value-IsValid (slot_of id) value f v)

  IsSafe-received : (f : Failsafe D) → IsSafe f → received f ≡ 4
  unfolding received exact_integer timeout_in_range
  IsSafe-received f s = ground arith

  -- In a valid state the phase is `accepted` exactly when the four parameters make the controller
  -- land on the loss of this companion's heartbeat.
  pub accepted_iff : (f : Failsafe D) → IsValid f → (f.snapshot.phase ≡ accepted) ↔ IsSafe f
  accepted_iff f v = (sound, complete)
    where
      sound : f.snapshot.phase ≡ accepted → IsSafe f
      sound e =
          let four : received f ≡ 4 = ground (arith, received-le f, v.unwatched, v.partial) in
          judge_sound f (ap (λ g. g.snapshot.phase) (v.judged four) ∙ e)

      complete : IsSafe f → f.snapshot.phase ≡ accepted
      complete s =
          sym (ap (λ g. g.snapshot.phase) (v.judged (IsSafe-received f s))) ∙ judge_complete f s
