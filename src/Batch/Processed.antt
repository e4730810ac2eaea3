-- ===== src/Batch/Processed.antt =====
-- After the loop every resource of the list is processed, and none is forgotten.
use reposhift.Common.{
  ◌≡◌, refl, ◌∙◌, Bool, true, ◌||◌, String, Option, none, some, List, [], ◌∷◌, arith, str_eq,
  eq_iff, eq_refl, all, any, Bool-cases, inl, inr,
}
use reposhift.Batch.Types.{MigrationResource, ResourceMigrationStatus, Spec, Status}
use reposhift.Batch.Env.{Env, St}
use reposhift.Batch.Resources.{
  is_terminal, is_processed_in, is_resource_processed, put_status, failed_status, completed_status,
  mark_resource_failed, mark_resource_completed, update_progress, process_resource, mark,
  process_one, process_all,
}

-- A terminal status that is put processes its own name, and no name loses its status.
is_processed_in-put_status :
    (name : String) (new : ResourceMigrationStatus) (l : List ResourceMigrationStatus)
    → is_terminal new.status ≡ true
    → is_processed_in name (put_status new l)
      ≡ (str_eq new.source_name name || is_processed_in name l)
unfolding is_processed_in put_status
is_processed_in-put_status name new [] t = ground arith
is_processed_in-put_status name new (s ∷ l) t = ground (
  arith,
  is_processed_in-put_status name new l,
  eq_iff s.source_name new.source_name,
  eq_iff s.source_name name,
  eq_iff new.source_name name,
)

same_name :
    (b : Status) (r q : MigrationResource)
    → is_resource_processed b r ≡ true
    → is_resource_processed b q ≡ (str_eq r.source_name q.source_name || is_resource_processed b q)
unfolding is_resource_processed
same_name b r q done = ground (arith, eq_iff r.source_name q.source_name)

-- Some resource of the list bears the name of `q`.
abbrev bears_name : MigrationResource → List MigrationResource → Bool
bears_name q = any (λ r. str_eq r.source_name q.source_name)

module _ (e : Env) where
  -- the resource is processed once it is marked, and the others stay as they were
  is_resource_processed-mark :
      (r q : MigrationResource) (error : Option String) (s : St e.World)
      → is_resource_processed (mark e r error s).1.status q
        ≡ (str_eq r.source_name q.source_name || is_resource_processed s.status q)
  unfolding mark mark_resource_completed mark_resource_failed is_resource_processed
  is_resource_processed-mark r q none s =
      is_processed_in-put_status q.source_name (completed_status _ r) s.status.resource_statuses
        refl
  is_resource_processed-mark r q (some error) s =
      is_processed_in-put_status q.source_name (failed_status _ r error) s.status.resource_statuses
        refl

  is_resource_processed-update_progress :
      (b : Status) (q : MigrationResource)
      → is_resource_processed (update_progress b) q ≡ is_resource_processed b q
  unfolding update_progress is_resource_processed
  is_resource_processed-update_progress b q = ground arith

  is_resource_processed-process_one :
      (spec : Spec) (r q : MigrationResource) (s : St e.World)
      → is_resource_processed (process_one e spec r s).1.status q
        ≡ (str_eq r.source_name q.source_name || is_resource_processed s.status q)
  unfolding process_one process_resource
  is_resource_processed-process_one spec r q s =
      elim (Bool-cases (is_resource_processed s.status r)) [
        | inl done ↦ rw done (same_name s.status r q done)
        | inr new ↦ rw new (
            is_resource_processed-update_progress _ q
            ∙ is_resource_processed-mark r q (process_resource e spec r s).0
                (process_resource e spec r s).1)
      ]

  -- The loop processes exactly the resources that bear a name of its list, besides those that
  -- were processed before.
  is_resource_processed-process_all :
      (spec : Spec) (rs : List MigrationResource) (q : MigrationResource) (s : St e.World)
      → is_resource_processed (process_all e spec rs s).1.status q
        ≡ (bears_name q rs || is_resource_processed s.status q)
  unfolding process_all
  is_resource_processed-process_all spec [] q s = refl
  is_resource_processed-process_all spec (r ∷ rs) q s =
      let s' = (process_one e spec r s).1 in
      ground (
        arith,
        is_resource_processed-process_all spec rs q s',
        is_resource_processed-process_one spec r q s,
      )

module _ (P : MigrationResource → Bool) where
  -- a test that holds of whatever bears a name of `rs` holds throughout a part of `rs`
  all-bears_name :
      (rs qs : List MigrationResource)
      → ((q : MigrationResource) → bears_name q rs ≡ true → P q ≡ true)
      → ((q : MigrationResource) → bears_name q qs ≡ true → bears_name q rs ≡ true)
      → all P qs ≡ true
  all-bears_name rs [] h sub = refl
  all-bears_name rs (q ∷ qs) h sub = ground (
    arith,
    h q,
    sub q,
    eq_refl q.source_name,
    all-bears_name rs qs h (λ x m. sub x (ground arith)),
  )

-- After the loop over the resources all of them are processed.
pub process_all_done :
    (e : Env) (spec : Spec) (s : St e.World)
    → all
        (λ r. is_resource_processed (process_all e spec spec.resources s).1.status r)
        spec.resources
      ≡ true
process_all_done e spec s =
    all-bears_name _ spec.resources spec.resources
      (λ q m. rw (is_resource_processed-process_all e spec spec.resources q s) (rw m refl))
      (λ q m. m)
