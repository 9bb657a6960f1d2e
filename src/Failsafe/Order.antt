-- ===== src/Failsafe/Order.antt =====
-- `on_parameter` of CompanionLinkFailsafe.cpp, on two reports one after the other.
use onboard_autonomy.Base.{
  ℕ, ◌≡◌, refl, sym, ap, ◌∙◌, some, Text, text, text_eq, text_eq_iff, Bool-cases, ◌⊎◌, inl, inr,
  arith, Floating, ◌≢◌,
}
use onboard_autonomy.Failsafe.{
  Failsafe, judge, received, validate, Slot, action_slot, timeout_slot, options_slot, gcs_slot,
  other_slot, slot_of, fill, accept_value, on_parameter,
}

-- The name that a slot is for.
abbrev IsNamed : Slot → Text → Type 0
IsNamed action_slot id = id ≡ text "FS_GCS_ENABLE"
IsNamed timeout_slot id = id ≡ text "FS_GCS_TIMEOUT"
IsNamed options_slot id = id ≡ text "FS_OPTIONS"
IsNamed gcs_slot id = id ≡ text "SYSID_MYGCS"
IsNamed other_slot id = Unit {0}

slot_of-IsNamed : (id : Text) → IsNamed (slot_of id) id
unfolding slot_of
slot_of-IsNamed id = elim (Bool-cases (text_eq id (text "FS_GCS_ENABLE"))) [
  | inl e ↦ rw e ((text_eq_iff id (text "FS_GCS_ENABLE")).0 e)
  | inr a ↦ rw a (elim (Bool-cases (text_eq id (text "FS_GCS_TIMEOUT"))) [
    | inl e ↦ rw e ((text_eq_iff id (text "FS_GCS_TIMEOUT")).0 e)
    | inr b ↦ rw b (elim (Bool-cases (text_eq id (text "FS_OPTIONS"))) [
      | inl e ↦ rw e ((text_eq_iff id (text "FS_OPTIONS")).0 e)
      | inr c ↦ rw c (elim (Bool-cases (text_eq id (text "SYSID_MYGCS"))) [
        | inl e ↦ rw e ((text_eq_iff id (text "SYSID_MYGCS")).0 e)
        | inr d ↦ rw d tt
      ])
    ])
  ])
]

different_slots :
    (s t : Slot) (id id' : Text)
    → IsNamed s id
    → IsNamed t id'
    → id ≢ id'
    → (s ≢ t) ⊎ (s ≡ other_slot)
different_slots other_slot t id id' a b n = inr refl
different_slots action_slot action_slot id id' a b n = absurd (n (a ∙ sym b))
different_slots timeout_slot timeout_slot id id' a b n = absurd (n (a ∙ sym b))
different_slots options_slot options_slot id id' a b n = absurd (n (a ∙ sym b))
different_slots gcs_slot gcs_slot id id' a b n = absurd (n (a ∙ sym b))
different_slots s t id id' a b n = inl (λ e. cc)

-- Different names are for different slots, or the first is for none.
differing : (id id' : Text) → id ≢ id' → (slot_of id ≢ slot_of id') ⊎ (slot_of id ≡ other_slot)
differing id id' n =
    different_slots (slot_of id) (slot_of id') id id' (slot_of-IsNamed id) (slot_of-IsNamed id') n

module _ {D : Type 0} ⦃fp : Floating D⦄ where
  -- Validating before a parameter is stored makes no difference to validating after.
  validate_action :
      (v : D) (f : Failsafe D)
      → validate (record (validate f) { raw_action = some v })
        ≡ validate (record f { raw_action = some v })
  unfolding validate judge received
  validate_action v f = ground arith

  validate_timeout :
      (v : D) (f : Failsafe D)
      → validate (record (validate f) { raw_timeout_s = some v })
        ≡ validate (record f { raw_timeout_s = some v })
  unfolding validate judge received
  validate_timeout v f = ground arith

  validate_options :
      (v : D) (f : Failsafe D)
      → validate (record (validate f) { raw_options = some v })
        ≡ validate (record f { raw_options = some v })
  unfolding validate judge received
  validate_options v f = ground arith

  validate_gcs :
      (v : D) (f : Failsafe D)
      → validate (record (validate f) { raw_gcs_system_id = some v })
        ≡ validate (record f { raw_gcs_system_id = some v })
  unfolding validate judge received
  validate_gcs v f = ground arith

  validate_idem : (f : Failsafe D) → validate (validate f) ≡ validate f
  unfolding validate judge received
  validate_idem f = ground arith

  pub validate-fill :
      (s : Slot) (v : D) (f : Failsafe D) → validate (fill s v (validate f)) ≡ validate (fill s v f)
  unfolding fill
  validate-fill action_slot v f = validate_action v f
  validate-fill timeout_slot v f = validate_timeout v f
  validate-fill options_slot v f = validate_options v f
  validate-fill gcs_slot v f = validate_gcs v f
  validate-fill other_slot v f = validate_idem f

  fill_comm :
      (s t : Slot) (v w : D) (f : Failsafe D)
      → s ≢ t
      → fill s v (fill t w f) ≡ fill t w (fill s v f)
  unfolding fill
  fill_comm s t v w f h = ground arith

  both :
      (s t : Slot) (v w : D) (f : Failsafe D)
      → s ≢ t
      → validate (fill s v (validate (fill t w f))) ≡ validate (fill t w (validate (fill s v f)))
  both s t v w f h =
      validate-fill s v (fill t w f)
      ∙ ap validate (fill_comm s t v w f h)
      ∙ sym (validate-fill t w (fill s v f))

  -- What no slot takes is ignored; two others commute.
  accept_value_comm :
      (s t : Slot) (v w : D) (f : Failsafe D)
      → (s ≢ t) ⊎ (s ≡ other_slot)
      → accept_value s v (accept_value t w f) ≡ accept_value t w (accept_value s v f)
  unfolding accept_value
  accept_value_comm other_slot t v w f h = refl
  accept_value_comm s other_slot v w f h = refl
  accept_value_comm s t v w f (inl n) = both s t v w f n
  accept_value_comm s t v w f (inr e) = cc

  pub accept_value-heartbeat :
      (s : Slot) (v : D) (f : Failsafe D)
      → (accept_value s v f).snapshot.heartbeat_system_id ≡ f.snapshot.heartbeat_system_id
  unfolding accept_value fill validate judge
  accept_value-heartbeat s v f = ground arith

  -- Two reports of parameters with different names leave the same state in either order, whoever
  -- sends them, whether or not the check reads those parameters, and whatever was known before.
  pub on_parameter_comm :
      (system system' component component' : ℕ) (id id' : Text) (v w : D) (f : Failsafe D)
      → id ≢ id'
      → on_parameter system component id v (on_parameter system' component' id' w f)
        ≡ on_parameter system' component' id' w (on_parameter system component id v f)
  unfolding on_parameter
  on_parameter_comm system system' component component' id id' v w f h = ground (
    arith,
    accept_value_comm (slot_of id) (slot_of id') v w f (differing id id' h),
    accept_value-heartbeat (slot_of id) v f,
    accept_value-heartbeat (slot_of id') w f,
  )
