-- ===== src/Controller/Conditions.antt =====
-- What the reconcilers rely on of `meta.SetStatusCondition`, by its documentation: the entry of the
-- condition's type is set to the new one, but for the transition time, or appended; the entries of
-- other types stay; a condition that is there already changes nothing.
use rancher_operator.Common.{
  ℕ, Bool, true, false, Option, none, some, Bool-cases, ◌⊎◌, inl, inr, List, [], ◌∷◌, ◌≡◌, ap,
  if◌then◌else◌,
}
use rancher_operator.Common.Text.{Text, text_eq}
use rancher_operator.Api.Meta.{Condition, ConditionStatus, condition_true, condition_false}
use rancher_operator.Runtime.{Env, Log}
use rancher_operator.Controller.Outcome.{condition_type_available}

-- `meta.FindStatusCondition`
unfoldable pub find_condition : Text → List Condition → Option Condition
find_condition t [] = none
find_condition t (c ∷ cs) = if text_eq c.type t then some c else find_condition t cs

-- A condition without its transition time.
abbrev pub content : Option Condition → Option Condition
content none = none
content (some c) = some (record c { last_transition_time = 0 })

-- The literals of type `metav1.Condition` in the reconcilers.
abbrev pub available_condition : ConditionStatus → ℕ → Text → Text → Condition
available_condition status generation reason message = record {
  type = condition_type_available;
  status = status;
  observed_generation = generation;
  last_transition_time = 0;
  reason = reason;
  message = message;
}

-- The status that `ready` calls for.
abbrev pub status_of : Bool → ConditionStatus
status_of true = condition_true
status_of false = condition_false

abbrev pub status_at : Option Condition → Option ConditionStatus
status_at none = none
status_at (some c) = some c.status

pub record SetsConditions (env : Env) : Type 0 where
  pub found :
      (log : Log) (cs : List Condition) (c : Condition)
      → content (find_condition c.type (env.set_status_condition log cs c)) ≡ content (some c)
  pub kept :
      (log : Log) (cs : List Condition) (c : Condition) (t : Text)
      → text_eq c.type t ≡ false
      → find_condition t (env.set_status_condition log cs c) ≡ find_condition t cs
  pub settled :
      (log later : Log) (cs : List Condition) (c : Condition)
      → env.set_status_condition later (env.set_status_condition log cs c) c
        ≡ env.set_status_condition log cs c

status_at-content :
    (o : Option Condition) (c : Condition)
    → content o ≡ content (some c)
    → status_at o ≡ some c.status
status_at-content none c h = cc
status_at-content (some d) c h = ap status_at h

module _ (env : Env) (laws : SetsConditions env) where
  -- The condition that was set has the status that was asked for.
  pub status_at-set :
      (log : Log) (cs : List Condition) (status : ConditionStatus) (generation : ℕ)
      (reason message : Text)
      → status_at (
          find_condition condition_type_available (
            env.set_status_condition log cs (available_condition status generation reason message)))
        ≡ some status
  status_at-set log cs status generation reason message =
      let c = available_condition status generation reason message in
      status_at-content _ c (laws.found log cs c)

  -- The conditions of other types stay.
  pub kept_or_available :
      (log : Log) (cs : List Condition) (status : ConditionStatus) (generation : ℕ)
      (reason message : Text) (t : Text)
      → (text_eq condition_type_available t ≡ true)
        ⊎ (find_condition t (
              env.set_status_condition log cs
                (available_condition status generation reason message))
            ≡ find_condition t cs)
  kept_or_available log cs status generation reason message t =
      elim (Bool-cases (text_eq condition_type_available t)) [
        | inl same ↦ inl same
        | inr different ↦ inr (laws.kept log cs _ t different)
      ]
