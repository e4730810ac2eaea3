-- ===== src/Migration/Safety/Phases.antt =====
-- The other phases: validation, synchronisation, annotations, and the whole of Reconcile.
use reposhift.Common.{
  ℕ, ◌≢◌, refl, String, Bool, true, false, Option, none, some, List, [], ◌∷◌, ltb, Bool-cases, inl,
  inr,
}
use reposhift.Common.Result.{Result, ok, err}
use reposhift.Batch.Types.{SecretReference}
use reposhift.Migration.Types.{
  MigrationPhase, MigrationResource, ValidationResults, SyncSettings, SyncStatus, Migration,
  MigrationStatus,
}
use reposhift.Migration.Env.{
  Env, Client, Outcome, panics, get_organization, get_repository_by_client, sync_repository,
}
use reposhift.Migration.Action.{modify}
use reposhift.Migration.Running.{with_phase, with_step, sync_interval}
use reposhift.Migration.Validate.{
  validate_repository_with_client, validate_by_type, validate_resources_with_client,
  perform_validation_with_client, fail_validation, save_or_retry, unless_retried, pass_validation,
  handle_validation_results, skip_validation, token_if, validate_with_token, validate_with_client,
  validate_unless_skipped, process_validating, with_results, validation_failed,
}
use reposhift.Migration.Sync.{
  Gathered, with_sync_status, after_sync_error, handle_sync_error, sync_one, sync_all, finish_sync,
  sync_with, sync_with_ado, sync_now, sync_if_due, sync_if_enabled, process_syncing,
}
use reposhift.Migration.Valid.{IsValid}
use reposhift.Migration.Keeps.{
  Keeps, Ends, Inv, Stable, Keeps-pure, Keeps-gets, Ends-pure, Keeps-bind, Ends-bind, Ends-then,
  Keeps-event, Keeps-send, Keeps-modify, Keeps-now, Keeps-ask, Keeps-status_update,
}
use reposhift.Migration.Keeps.Tokens.{
  Keeps-get_git_hub_client, Keeps-get_git_hub_token, Keeps-get_azure_dev_ops_token,
}
use reposhift.Migration.Safety.{
  same_counts, phase-IsValid, step-IsValid, completion_time-IsValid, save_and-Ends,
  fail_migration-Ends, Keeps-condition,
}

with_results-IsValid :
    (v : ValidationResults) (b : MigrationStatus) → IsValid b → IsValid (with_results v b)
unfolding with_results
with_results-IsValid v b i = same_counts b _ refl refl refl (λ h. h) refl (λ h. h) i

validation_failed-IsValid : (b : MigrationStatus) → IsValid b → IsValid (validation_failed b)
unfolding validation_failed
validation_failed-IsValid b v = same_counts b _ refl refl refl (λ h. cc) refl (λ h. h) v

sync_status-IsValid :
    (s : SyncStatus) (b : MigrationStatus) → IsValid b → IsValid (with_sync_status s b)
sync_status-IsValid s b v = same_counts b _ refl refl refl (λ h. h) refl (λ h. h) v

module _ (e : Env) {P : e.World → Type 0} (k : Stable e IsValid P) where
  pub Keeps-phase :
      (phase : MigrationPhase)
      → phase ≢ MigrationPhase.unset
      → Keeps {W = e.World} (Inv IsValid P) (modify (with_phase phase))
  Keeps-phase phase n = Keeps-modify e _ (phase-IsValid phase n)

  pub Keeps-step : (step : String) → Keeps {W = e.World} (Inv IsValid P) (modify (with_step step))
  Keeps-step step = Keeps-modify e _ (step-IsValid step)

  Keeps-validate_by_type :
      (b : Bool) (c : Client) (owner : String) (r : MigrationResource) (v : ValidationResults)
      → Keeps (Inv IsValid P) (validate_by_type e b c owner r v)
  unfolding validate_by_type validate_repository_with_client
  Keeps-validate_by_type false c owner r v = Keeps-pure _
  Keeps-validate_by_type true c owner r v =
      Keeps-bind _ _ (Keeps-ask e k (get_repository_by_client _ _ _)) (λ a. Keeps-pure _)

  Keeps-validate_resources :
      (c : Client) (owner : String) (l : List MigrationResource) (v : ValidationResults)
      → Keeps (Inv IsValid P) (validate_resources_with_client e c owner l v)
  unfolding validate_resources_with_client
  Keeps-validate_resources c owner [] v = Keeps-pure _
  Keeps-validate_resources c owner (r ∷ rest) v =
      Keeps-bind _ _ (Keeps-validate_by_type _ c owner r v)
        (λ judged. Keeps-validate_resources c owner rest judged)

  Keeps-perform_validation :
      (c : Client) (m : Migration) → Keeps (Inv IsValid P) (perform_validation_with_client e c m)
  unfolding perform_validation_with_client
  Keeps-perform_validation c m = Keeps-bind _ _ (Keeps-now e k) λ t.
      Keeps-bind _ _ (Keeps-ask e k (get_organization _ _))
        λ answer. Keeps-validate_resources c _ _ _

  fail_validation-Ends : Ends (Inv IsValid P) (fail_validation e)
  unfolding fail_validation
  fail_validation-Ends = Ends-then _ _ (Keeps-modify e _ validation_failed-IsValid) (
      Ends-bind _ _ (Keeps-now e k) λ t.
        Ends-then _ _ (Keeps-modify e _ (completion_time-IsValid t)) (
          Ends-then _ _ (Keeps-condition e k _ _ _ _) (
            Ends-then _ _ (Keeps-condition e k _ _ _ _) (
              Ends-then _ _ (Keeps-send e _)
                (Ends-then _ _ (Keeps-event e _) (save_and-Ends e k _ (λ p. cc)))))))

  unless_retried-ne-panics :
      (done : Outcome) (error : Option String) → done ≢ panics → unless_retried done error ≢ panics
  unless_retried-ne-panics done none n = n
  unless_retried-ne-panics done (some error) n = λ p. cc

  save_or_retry-Ends :
      (done : Outcome) → done ≢ panics → Ends (Inv IsValid P) (save_or_retry e done)
  unfolding save_or_retry
  save_or_retry-Ends done n =
      Ends-bind _ _ (Keeps-status_update e k)
        (λ error. Ends-pure _ (unless_retried-ne-panics done error n))

  handle_validation_results-Ends :
      (valid : Bool) → Ends (Inv IsValid P) (handle_validation_results e valid)
  unfolding handle_validation_results pass_validation
  handle_validation_results-Ends false = fail_validation-Ends
  handle_validation_results-Ends true = Ends-then _ _ (Keeps-phase _ (λ p. cc)) (
      Ends-then _ _ (Keeps-step _) (
        Ends-then _ _ (Keeps-condition e k _ _ _ _) (
          Ends-then _ _ (Keeps-condition e k _ _ _ _) (
            Ends-then _ _ (Keeps-send e _)
              (Ends-then _ _ (Keeps-event e _) (save_or_retry-Ends _ (λ p. cc)))))))

  Keeps-token_if :
      (m : Migration) (ref : Option SecretReference) → Keeps (Inv IsValid P) (token_if e m ref)
  unfolding token_if
  Keeps-token_if m none = Keeps-pure _
  Keeps-token_if m (some ref) = Keeps-get_git_hub_token e k m.namespace m.spec

  validate_with_token-Ends :
      (c : Client) (m : Migration) (token : Result String)
      → Ends (Inv IsValid P) (validate_with_token e c m token)
  unfolding validate_with_token
  validate_with_token-Ends c m (err error) = fail_migration-Ends e k _
  validate_with_token-Ends c m (ok token) = Ends-bind _ _ (Keeps-perform_validation c m) λ results.
      Ends-then _ _ (Keeps-modify e _ (with_results-IsValid results))
        (handle_validation_results-Ends _)

  validate_with_client-Ends :
      (m : Migration) (c : Result Client) → Ends (Inv IsValid P) (validate_with_client e m c)
  unfolding validate_with_client
  validate_with_client-Ends m (err error) = fail_migration-Ends e k _
  validate_with_client-Ends m (ok c) =
      Ends-bind _ _ (Keeps-token_if m m.spec.token_ref) (λ t. validate_with_token-Ends c m t)

  validate_unless_skipped-Ends :
      (m : Migration) (skip : Bool) → Ends (Inv IsValid P) (validate_unless_skipped e m skip)
  unfolding validate_unless_skipped skip_validation
  validate_unless_skipped-Ends m true = Ends-then _ _ (Keeps-phase _ (λ p. cc)) (
      Ends-then _ _ (Keeps-step _) (
        Ends-then _ _ (Keeps-send e _)
          (Ends-then _ _ (Keeps-event e _) (save_or_retry-Ends _ (λ p. cc)))))
  validate_unless_skipped-Ends m false =
      Ends-bind _ _ (Keeps-get_git_hub_client e k m.namespace m.spec)
        (λ c. validate_with_client-Ends m c)

  pub process_validating-Ends : Ends (Inv IsValid P) (process_validating e)
  unfolding process_validating
  process_validating-Ends =
      Ends-bind _ _ (Keeps-gets _) (λ m. validate_unless_skipped-Ends m m.spec.skip_validation)

  after_sync_error-Ends :
      (interval : ℕ) (error : Option String)
      → Ends (Inv IsValid P) (after_sync_error e interval error)
  unfolding after_sync_error
  after_sync_error-Ends interval (some error) = Ends-pure _ (λ p. cc)
  after_sync_error-Ends interval none = Ends-then _ _ (Keeps-event e _) (Ends-pure _ (λ p. cc))

  handle_sync_error-Ends :
      (error : String) (interval : ℕ) → Ends (Inv IsValid P) (handle_sync_error e error interval)
  unfolding handle_sync_error
  handle_sync_error-Ends error interval = Ends-bind _ _ (Keeps-now e k) λ t.
      Ends-then _ _ (Keeps-modify e _ (λ b v. sync_status-IsValid _ b v))
        (Ends-bind _ _ (Keeps-status_update e k) (λ x. after_sync_error-Ends interval x))

  Keeps-sync_one :
      (b : Bool) (m : Migration) (r : MigrationResource) (ado token : String) (g : Gathered)
      → Keeps (Inv IsValid P) (sync_one e b m r ado token g)
  unfolding sync_one
  Keeps-sync_one false m r ado token g = Keeps-pure _
  Keeps-sync_one true m r ado token g =
      Keeps-bind _ _ (Keeps-ask e k (sync_repository _ _ _ _)) (λ a. Keeps-pure _)

  Keeps-sync_all :
      (m : Migration) (l : List MigrationResource) (ado token : String) (g : Gathered)
      → Keeps (Inv IsValid P) (sync_all e m l ado token g)
  unfolding sync_all
  Keeps-sync_all m [] ado token g = Keeps-pure _
  Keeps-sync_all m (r ∷ rest) ado token g =
      Keeps-bind _ _ (Keeps-sync_one _ m r ado token g) (λ h. Keeps-sync_all m rest ado token h)

  finish_sync-Ends :
      (t interval : ℕ) (g : Gathered) → Ends (Inv IsValid P) (finish_sync e t interval g)
  unfolding finish_sync
  finish_sync-Ends t interval g =
      Ends-then _ _ (Keeps-modify e _ (λ b v. sync_status-IsValid _ b v)) (
        Ends-then _ _ (Keeps-event e _)
          (Ends-bind _ _ (Keeps-status_update e k) (λ x. Ends-pure _ (λ p. cc))))

  sync_with-Ends :
      (t interval : ℕ) (m : Migration) (ado : String) (token : Result String)
      → Ends (Inv IsValid P) (sync_with e t interval m ado token)
  unfolding sync_with
  sync_with-Ends t interval m ado (err error) = handle_sync_error-Ends error interval
  sync_with-Ends t interval m ado (ok token) =
      Ends-bind _ _ (Keeps-sync_all m _ ado token _) (λ g. finish_sync-Ends t interval g)

  sync_with_ado-Ends :
      (t interval : ℕ) (m : Migration) (ado : Result String)
      → Ends (Inv IsValid P) (sync_with_ado e t interval m ado)
  unfolding sync_with_ado
  sync_with_ado-Ends t interval m (err error) = handle_sync_error-Ends error interval
  sync_with_ado-Ends t interval m (ok ado) =
      Ends-bind _ _ (Keeps-get_git_hub_token e k m.namespace m.spec)
        (λ token. sync_with-Ends t interval m ado token)

  sync_now-Ends : (t interval : ℕ) (m : Migration) → Ends (Inv IsValid P) (sync_now e t interval m)
  unfolding sync_now
  sync_now-Ends t interval m =
      Ends-bind _ _ (Keeps-get_azure_dev_ops_token e k m.namespace m.spec)
        (λ ado. sync_with_ado-Ends t interval m ado)

  sync_if_due-Ends :
      (t interval : ℕ) (m : Migration) (next : Option ℕ)
      → Ends (Inv IsValid P) (sync_if_due e t interval m next)
  unfolding sync_if_due
  sync_if_due-Ends t interval m none = sync_now-Ends t interval m
  sync_if_due-Ends t interval m (some next) = elim (Bool-cases (ltb t next)) [
    | inl later ↦ rw later (Ends-pure _ (λ p. cc))
    | inr due ↦ rw due (sync_now-Ends t interval m)
  ]

  sync_if_enabled-Ends :
      (m : Migration) (sync : Option SyncSettings) → Ends (Inv IsValid P) (sync_if_enabled e m sync)
  unfolding sync_if_enabled
  sync_if_enabled-Ends m none =
      Ends-then _ _ (Keeps-phase _ (λ p. cc)) (save_and-Ends e k _ (λ p. cc))
  sync_if_enabled-Ends m (some sync) =
      Ends-bind _ _ (Keeps-now e k) (λ t. sync_if_due-Ends t (sync_interval sync) m _)

  pub process_syncing-Ends : Ends (Inv IsValid P) (process_syncing e)
  unfolding process_syncing
  process_syncing-Ends = Ends-bind _ _ (Keeps-gets _) (λ m. sync_if_enabled-Ends m _)
