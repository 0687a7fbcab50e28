-- ===== src/Controller/ClusterPrerequisites/History.antt =====
-- The life of a ClusterPrerequisites object: edits of its spec, and runs of the reconciler, each in a
-- world of its own, whose last write went through.
use rancher_operator.Common.{
  ◌≤◌, ◌≡◌, ◌⊎◌, refl, inl, inr, subst, ◌∙◌, true, false, [], ◌∷◌, none, some, ok, arith,
}
use rancher_operator.Common.Text.{Text, text_eq}
use rancher_operator.Api.Meta.{NamespacedName, ObjectMeta}
use rancher_operator.Api.ClusterPrerequisites.{ClusterPrerequisites, ClusterPrerequisitesSpec}
use rancher_operator.Runtime.{Env, Log, updated_cluster_prerequisites_status}
use rancher_operator.Controller.Outcome.{Outcome, condition_type_available}
use rancher_operator.Controller.Conditions.{SetsConditions, find_condition, status_at, status_of}
use rancher_operator.Controller.ClusterPrerequisites.{reconcile}
use rancher_operator.Controller.ClusterPrerequisites.Status.{
  IsReport, Concludes, reconcile-Concludes,
}

-- What the API server holds at some time.
pub data Reachable : ClusterPrerequisites → Type 0 where
  created :
      (cp : ClusterPrerequisites)
      → cp.status.ready ≡ false
      → cp.status.observed_generation ≡ 0
      → cp.status.conditions ≡ []
      → Reachable cp
  edited :
      (cp : ClusterPrerequisites) (meta : ObjectMeta) (spec : ClusterPrerequisitesSpec)
      → cp.meta.generation ≤ meta.generation
      → Reachable cp
      → Reachable (record cp { meta = meta; spec = spec })
  reconciled :
      (env : Env) (laws : SetsConditions env) (req : NamespacedName) (cp cp' : ClusterPrerequisites)
      (log : Log)
      → env.get_cluster_prerequisites [] req ≡ ok cp
      → (reconcile env req []).1 ≡ updated_cluster_prerequisites_status cp' (ok tt) ∷ log
      → Reachable cp
      → Reachable cp'

-- No run has reported yet, or `Ready` and the condition `Available` agree; the status is on no later
-- generation than the object's; there is no condition of another type.
pub record IsCoherent (cp : ClusterPrerequisites) : Type 0 where
  pub agrees :
      ((cp.status.ready ≡ false) × (cp.status.conditions ≡ []))
      ⊎ (status_at (find_condition condition_type_available cp.status.conditions)
          ≡ some (status_of cp.status.ready))
  pub no_later : cp.status.observed_generation ≤ cp.meta.generation
  pub no_other :
      (t : Text)
      → (text_eq condition_type_available t ≡ true) ⊎ (find_condition t cp.status.conditions ≡ none)

-- A run that ends with a write behind no other made a report.
IsReport-of_write :
    (cp cp' : ClusterPrerequisites) (o : Outcome) (log : Log)
    → Concludes cp [] (o, updated_cluster_prerequisites_status cp' (ok tt) ∷ log)
    → IsReport cp cp'
IsReport-of_write cp cp' o log (inl (report, _, _)) = report
IsReport-of_write cp cp' o log (inr (none_written, _)) = absurd (ground arith)

IsCoherent-of_IsReport :
    (cp cp' : ClusterPrerequisites) → IsReport cp cp' → IsCoherent cp → IsCoherent cp'
IsCoherent-of_IsReport cp cp' report before = record {
  agrees = inr report.agrees;
  no_later = rw (report.current, report.same_meta) (omega arith);
  no_other = λ t. elim (report.others t) [
    | inl own ↦ inl own
    | inr kept ↦ elim (before.no_other t) [
      | inl own ↦ inl own
      | inr none_before ↦ inr (kept ∙ none_before)
    ]
  ];
}

no_conditions : (t : Text) → find_condition t [] ≡ none
unfolding find_condition
no_conditions t = refl

-- Whatever the outside answered in the runs, where conditions are set as documented, and whatever was
-- edited between them with no step back in the generation, the status of a ClusterPrerequisites is
-- consistent: `Ready` agrees with the condition `Available` once a run has reported, no later
-- generation than the object's was observed, and there is no condition of another type.
pub Reachable-IsCoherent : (cp : ClusterPrerequisites) → Reachable cp → IsCoherent cp
Reachable-IsCoherent _ (created cp not_ready unseen empty) = record {
  agrees = inl (not_ready, empty);
  no_later = ground (arith, unseen);
  no_other = λ t. inr (rw empty (no_conditions t));
}
Reachable-IsCoherent _ (edited cp meta spec later before) =
    let ih = Reachable-IsCoherent cp before in
    record {
      agrees = ih.agrees;
      no_later = ground (arith, ih.no_later, later);
      no_other = ih.no_other;
    }
Reachable-IsCoherent _ (reconciled env laws req cp cp' log found ends before) =
    let run = reconcile-Concludes env laws cp req [] found in
    IsCoherent-of_IsReport cp cp'
      (IsReport-of_write cp cp' (reconcile env req []).0 log
        (subst (λ l. Concludes cp [] ((reconcile env req []).0, l)) ends run))
      (Reachable-IsCoherent cp before)
