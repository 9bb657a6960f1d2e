-- ===== src/App/Told.antt =====
-- What the observation sinks of CompanionApplication::Impl were told of the failsafe's phase.
use onboard_autonomy.Base.{
  ℕ, ◌≡◌, refl, ◌∙◌, Option, none, some, List, [], ◌∷◌, All, ◌==◌, if◌then◌else◌, ℤ, Bool-cases,
  inl, inr, ==_iff,
}
use onboard_autonomy.App.State.{Observation, LinkEvent, link_event, failsafe_transition}
use onboard_autonomy.App.Events.{tell}
use onboard_autonomy.Failsafe

module _ {D : Type 0} where
  -- The phase that a sink was told last; before any transition, that of a new failsafe.
  unfoldable pub heard_phase : ℕ → List (ℕ × Observation D) → Failsafe.Phase
  heard_phase sink [] = Failsafe.waiting_for_vehicle
  heard_phase sink ((to, link_event e) ∷ log) = heard_phase sink log
  heard_phase sink ((to, failsafe_transition before current at) ∷ log) =
      if to == sink then current.phase else heard_phase sink log

  abbrev pub HasHeard : List (ℕ × Observation D) → Failsafe.Phase → Option ℕ → Type 0
  HasHeard log phase none = Unit {0}
  HasHeard log phase (some sink) = heard_phase sink log ≡ phase

  -- Every sink that is not null was told this phase last.
  abbrev pub Told : List (Option ℕ) → List (ℕ × Observation D) → Failsafe.Phase → Type 0
  Told sinks log phase = All (HasHeard log phase) sinks

  -- The application's previous phase is the current one, and so is the one that each sink heard.
  abbrev pub IsReported :
      List (Option ℕ) → List (ℕ × Observation D) → Failsafe.Phase → Failsafe.Phase → Type 0
  IsReported sinks log reported current = (reported ≡ current) × Told sinks log current

pub Told-new :
    (D : Type 0) (sinks : List (Option ℕ)) → Told {D = D} sinks [] Failsafe.waiting_for_vehicle
unfolding heard_phase
Told-new D [] = tt
Told-new D (none ∷ sinks) = (tt, Told-new D sinks)
Told-new D (some sink ∷ sinks) = (refl, Told-new D sinks)

module _ {D : Type 0} where
  heard_phase-tell_event :
      (sink : ℕ) (sinks : List (Option ℕ)) (e : LinkEvent) (log : List (ℕ × Observation D))
      → heard_phase sink (tell sinks (link_event e) log) ≡ heard_phase sink log
  unfolding heard_phase tell
  heard_phase-tell_event sink [] e log = refl
  heard_phase-tell_event sink (none ∷ sinks) e log = heard_phase-tell_event sink sinks e log
  heard_phase-tell_event sink (some s ∷ sinks) e log =
      heard_phase-tell_event sink sinks e ((s, link_event e) ∷ log)

  -- A link event tells nothing of the failsafe.
  pub tell_event-Told :
      (sinks told : List (Option ℕ)) (e : LinkEvent) (log : List (ℕ × Observation D))
      (phase : Failsafe.Phase)
      → Told sinks log phase
      → Told sinks (tell told (link_event e) log) phase
  tell_event-Told [] told e log phase h = tt
  tell_event-Told (none ∷ sinks) told e log phase (h, hs) =
      (tt, tell_event-Told sinks told e log phase hs)
  tell_event-Told (some s ∷ sinks) told e log phase (h, hs) =
      (heard_phase-tell_event s told e log ∙ h, tell_event-Told sinks told e log phase hs)

  heard_phase-tell :
      (sink : ℕ) (sinks : List (Option ℕ)) (before : Failsafe.Phase) (current : Failsafe.Snapshot D)
      (at : ℤ) (log : List (ℕ × Observation D))
      → heard_phase sink log ≡ current.phase
      → heard_phase sink (tell sinks (failsafe_transition before current at) log) ≡ current.phase
  unfolding heard_phase tell
  heard_phase-tell sink [] before current at log h = h
  heard_phase-tell sink (none ∷ sinks) before current at log h =
      heard_phase-tell sink sinks before current at log h
  heard_phase-tell sink (some s ∷ sinks) before current at log h =
      heard_phase-tell sink sinks before current at
        ((s, failsafe_transition before current at) ∷ log)
        (elim (Bool-cases (s == sink)) [ inl same ↦ rw same refl | inr other ↦ rw other h ])

  -- A transition that is told to every sink.
  pub tell-Told :
      (sinks : List (Option ℕ)) (before : Failsafe.Phase) (current : Failsafe.Snapshot D) (at : ℤ)
      (log : List (ℕ × Observation D))
      → Told sinks (tell sinks (failsafe_transition before current at) log) current.phase
  unfolding tell heard_phase
  tell-Told [] before current at log = tt
  tell-Told (none ∷ sinks) before current at log = (tt, tell-Told sinks before current at log)
  tell-Told (some s ∷ sinks) before current at log =
      let longer = (s, failsafe_transition before current at) ∷ log in
      (
        heard_phase-tell s sinks before current at longer (rw ((==_iff s s).1 refl) refl),
        tell-Told sinks before current at longer,
      )
