-- ===== src/Vehicle/Warnings.antt =====
-- The warnings of VehicleState.cpp: `see_warning`, `on_status_text` and what a snapshot lists.
use mathlib.Core.Path.{subst}
use onboard_autonomy.Base.{
  ℕ, ◌+◌, ◌≤◌, ◌≡◌, refl, ◌↔◌, Bool, true, false, List, [], ◌∷◌, arith, leb, map, Text, text_eq,
  text_eq_iff, text_eq_refl, is_empty, any, All, ◌⊎◌, inl, inr, Bool-cases, Floating,
}
use onboard_autonomy.Vehicle.State.{
  VehicleState, WarningEntry, see_warning, on_status_text, contains_prearm, severity_warning,
  warning_timeout,
}
use onboard_autonomy.Vehicle.Report.{snapshot, recent_warnings, identity, telemetry}

abbrev pub Absent : Text → List WarningEntry → Type 0
Absent body = All (λ w. ¬ (w.body ≡ body))

-- No two entries have the same text.
abbrev pub Distinct : List WarningEntry → Type 0
Distinct [] = Unit
Distinct (w ∷ ws) = Absent w.body ws × Distinct ws

see_warning-Absent :
    (body other : Text) (now : ℕ) (ws : List WarningEntry)
    → ¬ (other ≡ body)
    → Absent body ws
    → Absent body (see_warning other now ws)
unfolding see_warning
see_warning-Absent body other now [] n a = (n, tt)
see_warning-Absent body other now (w ∷ ws) n (h, a) =
    ground (arith, see_warning-Absent body other now ws n a, h, text_eq_iff w.body other)

-- Seeing a warning keeps the texts distinct, new or not.
pub see_warning-Distinct :
    (body : Text) (now : ℕ) (ws : List WarningEntry)
    → Distinct ws
    → Distinct (see_warning body now ws)
unfolding see_warning
see_warning-Distinct body now [] d = (tt, tt)
see_warning-Distinct body now (w ∷ ws) (a, d) = elim (Bool-cases (text_eq w.body body)) [
  | inl old ↦ rw old (a, d)
  | inr new ↦ rw new (
    see_warning-Absent w.body body now ws (λ e. ground (arith, text_eq_refl body, e)) a,
    see_warning-Distinct body now ws d,
  )
]

recent_warnings-Absent :
    (body : Text) (now : ℕ) (ws : List WarningEntry)
    → Absent body ws
    → Absent body (recent_warnings now ws)
unfolding recent_warnings
recent_warnings-Absent body now [] a = tt
recent_warnings-Absent body now (w ∷ ws) (h, a) =
    ground (arith, recent_warnings-Absent body now ws a, h)

pub recent_warnings-Distinct :
    (now : ℕ) (ws : List WarningEntry) → Distinct ws → Distinct (recent_warnings now ws)
unfolding recent_warnings
recent_warnings-Distinct now [] d = tt
recent_warnings-Distinct now (w ∷ ws) (a, d) =
    ground (arith, recent_warnings-Distinct now ws d, recent_warnings-Absent w.body now ws a)

abbrev pub listed : Text → List Text → Bool
listed body = any (λ t. text_eq t body)

Absent-unlisted :
    (body : Text) (now : ℕ) (ws : List WarningEntry)
    → Absent body ws
    → listed body (map (λ w. w.body) (recent_warnings now ws)) ≡ false
unfolding recent_warnings
Absent-unlisted body now [] a = refl
Absent-unlisted body now (w ∷ ws) (h, a) =
    ground (arith, Absent-unlisted body now ws a, h, text_eq_iff w.body body)

-- What a snapshot at `now` lists of a warning seen at `t`.
see_warning-listed :
    (body : Text) (t now : ℕ) (ws : List WarningEntry)
    → Distinct ws
    → listed body (map (λ w. w.body) (recent_warnings now (see_warning body t ws)))
      ≡ leb now (t + warning_timeout)
unfolding see_warning recent_warnings
see_warning-listed body t now [] d = ground (arith, text_eq_refl body)
see_warning-listed body t now (w ∷ ws) (a, d) = elim (Bool-cases (text_eq w.body body)) [
  | inl old ↦
      let gone : Absent body ws = subst (λ b. Absent b ws) ((text_eq_iff w.body body).0 old) a in
      rw old (ground (arith, old, Absent-unlisted body now ws gone))
  | inr new ↦ rw new (ground (arith, new, see_warning-listed body t now ws d))
]

-- Where the stored texts are distinct: after a text that is not empty and is a warning, or names a
-- check before arming, was received, a snapshot taken of that state lists it exactly when it is taken
-- at most thirty seconds after the receipt, connected or not.
pub on_status_text-listed :
    {D : Type 0} ⦃fp : Floating D⦄ (severity : ℕ) (body : Text) (t now : ℕ) (v : VehicleState D)
    → Distinct v.warnings
    → is_empty body ≡ false
    → (severity ≤ severity_warning) ⊎ (contains_prearm body ≡ true)
    → (listed body (snapshot now (on_status_text severity body t v)).1.warnings ≡ true)
      ↔ (now ≤ t + warning_timeout)
unfolding on_status_text snapshot identity telemetry
on_status_text-listed severity body t now v d e h =
    ground (arith, see_warning-listed body t now v.warnings d)
