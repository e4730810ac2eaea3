-- ===== src/Batch/Resources.antt =====
-- The work on the resources of a batch: processResource, its helpers, and the loop over them.
use reposhift.Common.{
  ℕ, ◌+◌, ◌*◌, ◌/◌, String, Bool, true, false, Option, none, some, List, [], ◌∷◌, ltb, str_eq,
  str_append, if◌then◌else◌,
}
use reposhift.Common.Result.{Result, ok, err, ◌>>=◌ as bind, wrap, wrap_error}
use reposhift.Batch.Types.{
  ResourceStatus, MigrationResource, ResourceMigrationStatus, SecretReference, Spec, Status,
}
use reposhift.Batch.Env.{Env}
use reposhift.Batch.Action.{M, ◌>>=◌, ◌>>◌, pure, gets, modify, now, update}

abbrev pub is_terminal : ResourceStatus → Bool
is_terminal ResourceStatus.completed = true
is_terminal ResourceStatus.failed = true
is_terminal _ = false

-- the status is the first with the resource's source name
unfoldable pub is_processed_in : String → List ResourceMigrationStatus → Bool
is_processed_in name [] = false
is_processed_in name (s ∷ rest) =
    if str_eq s.source_name name then is_terminal s.status else is_processed_in name rest

unfoldable pub is_resource_processed : Status → MigrationResource → Bool
unfolding is_processed_in
is_resource_processed b r = is_processed_in r.source_name b.resource_statuses

-- replace the first status of that source name, or append
unfoldable pub put_status :
    ResourceMigrationStatus → List ResourceMigrationStatus → List ResourceMigrationStatus
put_status new [] = new ∷ []
put_status new (s ∷ rest) =
    if str_eq s.source_name new.source_name then new ∷ rest else s ∷ put_status new rest

abbrev pub failed_status : ℕ → MigrationResource → String → ResourceMigrationStatus
failed_status t r error = record {
  resource_id = r.source_id;
  type = r.type;
  source_name = r.source_name;
  target_name = r.target_name;
  status = ResourceStatus.failed;
  progress = 0;
  completion_time = some t;
  error_message = error;
}

abbrev pub completed_status : ℕ → MigrationResource → ResourceMigrationStatus
completed_status t r = record {
  resource_id = r.source_id;
  type = r.type;
  source_name = r.source_name;
  target_name = r.target_name;
  status = ResourceStatus.completed;
  progress = 100;
  completion_time = some t;
  error_message = "";
}

unfoldable pub mark_resource_failed : ℕ → MigrationResource → String → Status → Status
mark_resource_failed t r error b = record b {
  resource_statuses = put_status (failed_status t r error) b.resource_statuses;
  progress = record b.progress { failed = b.progress.failed + 1 };
}

unfoldable pub mark_resource_completed : ℕ → MigrationResource → Status → Status
mark_resource_completed t r b = record b {
  resource_statuses = put_status (completed_status t r) b.resource_statuses;
  progress = record b.progress { completed = b.progress.completed + 1 };
}

unfoldable pub update_progress : Status → Status
update_progress b =
    if ltb 0 b.progress.total
    then record b {
      progress = record b.progress {
        percentage = (b.progress.completed + b.progress.failed) * 100 / b.progress.total;
      };
    }
    else b

or_missing_key : String → String → Option String → Result String
or_missing_key key name none =
    err (str_append "key " (str_append key (str_append " not found in secret " name)))
or_missing_key key name (some value) = ok value

module _ (e : Env) where
  unfoldable pub get_secret_value : e.World → String → Option SecretReference → Result String
  unfolding or_missing_key
  get_secret_value w namespace none = err "secret reference is nil"
  get_secret_value w namespace (some ref) =
      bind
        (wrap (str_append "failed to get secret " (str_append ref.name ": "))
          (e.get_secret w (if str_eq ref.namespace "" then namespace else ref.namespace) ref.name))
        (λ values. or_missing_key ref.key ref.name (values ref.key))

  unfoldable pub get_azure_dev_ops_token : e.World → Spec → Result String
  unfolding get_secret_value
  get_azure_dev_ops_token w spec = elim spec.source_auth.pat [
    | some ref ↦ get_secret_value w spec.namespace (some ref)
    | none ↦
        if spec.source_auth.has_service_principal
        then err "service principal authentication not yet implemented in batch controller"
        else err "no Azure DevOps authentication configured"
  ]

  unfoldable pub get_git_hub_token : e.World → Spec → Result String
  unfolding get_secret_value
  get_git_hub_token w spec = elim spec.target_auth.token_ref [
    | some ref ↦ get_secret_value w spec.namespace (some ref)
    | none ↦
        if spec.target_auth.has_app_auth
        then err "GitHub App authentication not yet implemented in batch controller"
        else err "no GitHub authentication configured"
  ]

  unfoldable process_repository_resource :
      Spec → MigrationResource → String → String → e.World → Option String × e.World
  process_repository_resource spec r ado github w =
      let (error, w') = e.migrate_repository w spec r ado github in
      (wrap_error "repository migration failed: " error, w')

  unfoldable pub process_by_type :
      Spec → MigrationResource → String → String → e.World → Option String × e.World
  unfolding process_repository_resource
  process_by_type spec r ado github w =
      if str_eq r.type "repository"
      then process_repository_resource spec r ado github w
      else if str_eq r.type "work-item"
      then (some "work item migration not yet implemented", w)
      else if str_eq r.type "pipeline"
      then (some "pipeline migration not yet implemented", w)
      else (some (str_append "unsupported resource type: " r.type), w)

  unfoldable pub with_tokens :
      Spec → MigrationResource → Result String → Result String → e.World → Option String × e.World
  unfolding process_by_type
  with_tokens spec r (err a) github w = (some a, w)
  with_tokens spec r (ok a) (err g) w = (some g, w)
  with_tokens spec r (ok a) (ok g) w = process_by_type spec r a g w

  unfoldable pub process_resource : Spec → MigrationResource → M e.World (Option String)
  unfolding with_tokens get_azure_dev_ops_token get_git_hub_token
  process_resource spec r s =
      let (error, w) =
        with_tokens spec r (wrap "failed to get ADO token: " (get_azure_dev_ops_token s.world spec))
          (wrap "failed to get GitHub token: " (get_git_hub_token s.world spec)) s.world in
      (error, record s { world = w })

  unfoldable pub mark : MigrationResource → Option String → M e.World (Unit {0})
  mark r none = do t ← now e; modify (mark_resource_completed t r)
  mark r (some error) = do t ← now e; modify (mark_resource_failed t r error)

  -- One round of the loop. An error of the status update is logged only.
  unfoldable pub process_one : Spec → MigrationResource → M e.World (Unit {0})
  unfolding mark
  process_one spec r = do
    done ← gets (λ b. is_resource_processed b r)
    if done then pure tt else do
      error ← process_resource spec r
      mark r error
      modify update_progress
      update e
      pure tt

  unfoldable pub process_all : Spec → List MigrationResource → M e.World (Unit {0})
  process_all spec [] = pure tt
  process_all spec (r ∷ rest) = do process_one spec r; process_all spec rest
