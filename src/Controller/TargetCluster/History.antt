-- ===== src/Controller/TargetCluster/History.antt =====
-- The life of a TargetCluster: edits of its spec, and runs of the reconciler, each in a world of its
-- own, whose last write went through.
use rancher_operator.Common.{
  ◌≤◌, ◌≡◌, ◌⊎◌, refl, inl, inr, subst, ◌∙◌, true, false, [], ◌∷◌, none, some, ok, arith,
}
use rancher_operator.Common.Text.{Text, text_eq}
use rancher_operator.Api.Meta.{NamespacedName, ObjectMeta}
use rancher_operator.Api.TargetCluster.{TargetCluster, TargetClusterSpec}
use rancher_operator.Runtime.{Env, Log, updated_target_cluster_status}
use rancher_operator.Controller.Outcome.{Outcome, condition_type_available}
use rancher_operator.Controller.Conditions.{SetsConditions, find_condition, status_at, status_of}
use rancher_operator.Controller.TargetCluster.{reconcile}
use rancher_operator.Controller.TargetCluster.Status.{IsReport, Settles, reconcile-Settles}

-- What the API server holds at some time.
pub data Reachable : TargetCluster → Type 0 where
  created :
      (tc : TargetCluster)
      → tc.status.ready ≡ false
      → tc.status.observed_generation ≡ 0
      → tc.status.conditions ≡ []
      → Reachable tc
  edited :
      (tc : TargetCluster) (meta : ObjectMeta) (spec : TargetClusterSpec)
      → tc.meta.generation ≤ meta.generation
      → Reachable tc
      → Reachable (record tc { meta = meta; spec = spec })
  reconciled :
      (env : Env) (laws : SetsConditions env) (req : NamespacedName) (tc tc' : TargetCluster)
      (log : Log)
      → env.get_target_cluster [] req ≡ ok tc
      → (reconcile env req []).1 ≡ updated_target_cluster_status tc' (ok tt) ∷ log
      → Reachable tc
      → Reachable tc'

-- No run has reported yet, or `Ready` and the condition `Available` agree; the status is on no later
-- generation than the object's; there is no condition of another type.
pub record IsConsistent (tc : TargetCluster) : Type 0 where
  pub agrees :
      ((tc.status.ready ≡ false) × (tc.status.conditions ≡ []))
      ⊎ (status_at (find_condition condition_type_available tc.status.conditions)
          ≡ some (status_of tc.status.ready))
  pub no_later : tc.status.observed_generation ≤ tc.meta.generation
  pub no_other :
      (t : Text)
      → (text_eq condition_type_available t ≡ true) ⊎ (find_condition t tc.status.conditions ≡ none)

-- A run that ends with a write behind no other made a report.
IsReport-of_write :
    (tc tc' : TargetCluster) (o : Outcome) (log : Log)
    → Settles tc [] (o, updated_target_cluster_status tc' (ok tt) ∷ log)
    → IsReport tc tc'
IsReport-of_write tc tc' o log (inl (report, _, _)) = report
IsReport-of_write tc tc' o log (inr (none_written, _)) = absurd (ground arith)

IsConsistent-of_IsReport :
    (tc tc' : TargetCluster) → IsReport tc tc' → IsConsistent tc → IsConsistent tc'
IsConsistent-of_IsReport tc tc' report before = record {
  agrees = inr report.agrees;
  no_later = rw (report.current, report.same_meta) (omega arith);
  no_other = λ t. elim (report.others t) [
    | inl own ↦ inl own
    | inr kept ↦ elim (before.no_other t) [
      | inl own ↦ inl own
      | inr none_before ↦ inr (kept ∙ none_before)
    ]
  ];
}

no_conditions : (t : Text) → find_condition t [] ≡ none
unfolding find_condition
no_conditions t = refl

-- Whatever the outside answered in the runs, where conditions are set as documented, and whatever was
-- edited between them with no step back in the generation, the status of a TargetCluster is
-- consistent: `Ready` agrees with the condition `Available` once a run has reported, no later
-- generation than the object's was observed, and there is no condition of another type.
pub Reachable-IsConsistent : (tc : TargetCluster) → Reachable tc → IsConsistent tc
Reachable-IsConsistent _ (created tc not_ready unseen empty) = record {
  agrees = inl (not_ready, empty);
  no_later = ground (arith, unseen);
  no_other = λ t. inr (rw empty (no_conditions t));
}
Reachable-IsConsistent _ (edited tc meta spec later before) =
    let ih = Reachable-IsConsistent tc before in
    record {
      agrees = ih.agrees;
      no_later = ground (arith, ih.no_later, later);
      no_other = ih.no_other;
    }
Reachable-IsConsistent _ (reconciled env laws req tc tc' log found ends before) =
    let run = reconcile-Settles env laws req tc [] found in
    IsConsistent-of_IsReport tc tc'
      (IsReport-of_write tc tc' (reconcile env req []).0 log
        (subst (λ l. Settles tc [] ((reconcile env req []).0, l)) ends run))
      (Reachable-IsConsistent tc before)
