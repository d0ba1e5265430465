-- ===== src/Ivy/Resolve/Finalize.antt =====
-- `finalize_revision` of src/ivy_resolve.c on one report.
use gantt.Prelude.{
  true-ne-false, not, ◌≡◌, refl, ◌∙◌, sym, ap, true, false, some, arith, inl, inr, Bool-cases,
}
use gantt.Text.{Bytes, streq}
use gantt.Dict.{Dict}
use gantt.Ivy.Resolvers.{Outside}
use gantt.Ivy.Walk.{ModuleReport, RevisionReport, CacheEntry}
use gantt.Ivy.Resolve.{
  with_descriptor, with_artifact, is_winner, mark_evicted, fetch_artifact, finalize_report,
}

-- A report that agrees with its descriptor and with the winner of its module.
pub record IsFinal (entry : CacheEntry) (winner : Bytes) (rr : RevisionReport) : Type 0 where
  pub status : rr.status ≡ entry.descriptor.status
  pub homepage : rr.homepage ≡ entry.descriptor.homepage
  pub pubdate : rr.pubdate ≡ entry.descriptor.pubdate
  pub licenses : rr.licenses ≡ entry.descriptor.licenses
  pub resolver_name : rr.resolver_name ≡ entry.resolver.name
  pub default : rr.is_default ≡ streq rr.revision winner
  pub evicted : rr.evicted ≡ not (streq rr.revision winner)
  pub evicted_by : streq rr.revision winner ≡ false → rr.evicted_by_rev ≡ some winner

-- A report that is not marked as what it is not.
pub record IsUnmarked (winner : Bytes) (rr : RevisionReport) : Type 0 where
  pub no_default : streq rr.revision winner ≡ false → rr.is_default ≡ false
  pub not_evicted : streq rr.revision winner ≡ true → rr.evicted ≡ false

module _ (D : (V : Type 0) → Dict V) (O : Outside) (cache_dir : Bytes) where
  -- Fetching the artifact changes the artifacts of the report only.
  fetch_artifact-fields :
      (entry : CacheEntry) (rr : RevisionReport) (w : Outside.World O)
      → let rr' = (fetch_artifact D O cache_dir entry rr w).0 in
        (rr'.revision ≡ rr.revision)
        × (rr'.status ≡ rr.status)
        × (rr'.homepage ≡ rr.homepage)
        × (rr'.pubdate ≡ rr.pubdate)
        × (rr'.licenses ≡ rr.licenses)
        × (rr'.resolver_name ≡ rr.resolver_name)
        × (rr'.is_default ≡ rr.is_default)
        × (rr'.evicted ≡ rr.evicted)
  unfolding fetch_artifact with_artifact
  fetch_artifact-fields entry rr w = (
    ground arith,
    ground arith,
    ground arith,
    ground arith,
    ground arith,
    ground arith,
    ground arith,
    ground arith,
  )

  winner-IsFinal :
      (entry : CacheEntry) (rr : RevisionReport) (w : Outside.World O) (winner : Bytes)
      → streq rr.revision winner ≡ true
      → rr.evicted ≡ false
      → let rr' =
          (fetch_artifact D O cache_dir entry
            (record (with_descriptor entry rr) { is_default = true })
            w).0 in
        IsFinal entry winner rr' × (rr'.revision ≡ rr.revision)
  unfolding with_descriptor
  winner-IsFinal entry rr w winner e u =
      let (revision, status, homepage, pubdate, licenses, resolver_name, is_default, evicted) =
        fetch_artifact-fields entry (record (with_descriptor entry rr) { is_default = true }) w in
      (
        record {
          status = status;
          homepage = homepage;
          pubdate = pubdate;
          licenses = licenses;
          resolver_name = resolver_name;
          default = is_default ∙ sym (ap (λ r. streq r winner) revision ∙ e);
          evicted = evicted ∙ u ∙ sym (ap (λ r. not (streq r winner)) revision ∙ ap not e);
          evicted_by =
              λ h. absurd (true-ne-false (sym (ap (λ r. streq r winner) revision ∙ e) ∙ h));
        },
        revision,
      )

  pub finalize_report-IsFinal :
      (entry : CacheEntry) (mr : ModuleReport) (rr : RevisionReport) (w : Outside.World O)
      (winner : Bytes)
      → mr.id.revision ≡ some winner
      → IsUnmarked winner rr
      → IsFinal entry winner (finalize_report D O cache_dir entry mr rr w).0
        × ((finalize_report D O cache_dir entry mr rr w).0.revision ≡ rr.revision)
  unfolding finalize_report is_winner mark_evicted with_descriptor
  finalize_report-IsFinal entry mr rr w winner m u = elim (Bool-cases (streq rr.revision winner)) [
    | inl e ↦ rw (m, e) (winner-IsFinal entry rr w winner e (u.not_evicted e))
    | inr e ↦
        rw (m, e)
          (
            record {
              status = refl;
              homepage = refl;
              pubdate = refl;
              licenses = refl;
              resolver_name = refl;
              default = u.no_default e ∙ sym e;
              evicted = sym (ap not e);
              evicted_by = λ h. refl;
            },
            refl,
          )
  ]

  -- A final report is finalized again to a final one.
  pub IsFinal-IsUnmarked :
      (entry : CacheEntry) (winner : Bytes) (rr : RevisionReport)
      → IsFinal entry winner rr
      → IsUnmarked winner rr
  IsFinal-IsUnmarked entry winner rr f = record {
    no_default = λ e. f.default ∙ e;
    not_evicted = λ e. f.evicted ∙ ap not e;
  }
