-- ===== src/Batch/Safety.antt =====
-- Where the status of a batch satisfies a closed property and the world one that the environment
-- keeps, the work on the resources preserves both.
pub mod Handlers
pub mod Claims
pub mod Phases
use reposhift.Common.{
  ℕ, ◌≡◌, refl, Bool, true, false, String, Option, none, some, List, [], ◌∷◌, arith, Bool-cases,
  inl, inr, ◌∙◌,
}
use reposhift.Common.Result.{Result, ok, err}
use reposhift.Batch.Types.{Phase, MigrationResource, Spec, Status}
use reposhift.Batch.Env.{Env, St}
use reposhift.Batch.Resources.{
  is_resource_processed, update_progress, mark_resource_failed, mark_resource_completed,
  with_tokens, process_by_type, process_resource, mark, process_one, process_all,
}
use reposhift.Batch.Closed.{Closed}

-- A property of the world that the environment keeps, if every status sent satisfies `V`.
pub record Keeps (e : Env) (spec : Spec) (V : Status → Type 0) (P : e.World → Type 0) : Type 0 where
  pub now : (w : e.World) → P w → P (e.now w).1
  pub rand : (w : e.World) → P w → P (e.rand w).1
  pub migrate_repository :
      (w : e.World) (r : MigrationResource) (ado github : String)
      → P w
      → P (e.migrate_repository w spec r ado github).1
  pub status_update : (w : e.World) (b : Status) → V b → P w → P (e.status_update w b).1

-- A state between two statements, one in the phase `p`, and one in the middle of the processing.
pub record Inv (e : Env) (V : Status → Type 0) (P : e.World → Type 0) (s : St e.World)
    : Type 0 where
  pub world : P s.world
  pub valid : V s.status

pub record At (p : Phase) (e : Env) (V : Status → Type 0) (P : e.World → Type 0) (s : St e.World)
    : Type 0 where
  pub world : P s.world
  pub valid : V s.status
  pub phase : s.status.phase ≡ p

abbrev pub Works : (e : Env) (V : Status → Type 0) (P : e.World → Type 0) → St e.World → Type 0
Works = At Phase.processing

module _ (e : Env) (spec : Spec) (V : Status → Type 0) (c : Closed spec V) (P : e.World → Type 0)
    (k : Keeps e spec V P) where
  process_by_type_keeps :
      (r : MigrationResource) (ado github : String) (w : e.World)
      → P w
      → P (process_by_type e spec r ado github w).1
  unfolding process_by_type
  process_by_type_keeps r ado github w p = ground (arith, k.migrate_repository w r ado github p)

  with_tokens_keeps :
      (r : MigrationResource) (ado github : Result String) (w : e.World)
      → P w
      → P (with_tokens e spec r ado github w).1
  unfolding with_tokens
  with_tokens_keeps r (err a) github w p = p
  with_tokens_keeps r (ok a) (err g) w p = p
  with_tokens_keeps r (ok a) (ok g) w p = process_by_type_keeps r a g w p

  mark-Works :
      (r : MigrationResource) (error : Option String) (s : St e.World)
      → Works e V P s
      → is_resource_processed s.status r ≡ false
      → Works e V P (mark e r error s).1
  unfolding mark mark_resource_completed mark_resource_failed
  mark-Works r none s i h = record {
    world = k.now s.world i.world;
    valid = c.mark_resource_completed _ r s.status i.valid i.phase h;
    phase = i.phase;
  }
  mark-Works r (some error) s i h = record {
    world = k.now s.world i.world;
    valid = c.mark_resource_failed _ r error s.status i.valid i.phase h;
    phase = i.phase;
  }

  phase-update_progress : (b : Status) → (update_progress b).phase ≡ b.phase
  unfolding update_progress
  phase-update_progress b = ground arith

  process_one-Works :
      (r : MigrationResource) (s : St e.World)
      → Works e V P s
      → Works e V P (process_one e spec r s).1
  unfolding process_one process_resource
  process_one-Works r s i = elim (Bool-cases (is_resource_processed s.status r)) [
    | inl done ↦ rw done i
    | inr new ↦ rw new (
        let tried : Works e V P (process_resource e spec r s).1 = record {
          world = with_tokens_keeps r _ _ s.world i.world;
          valid = i.valid;
          phase = i.phase;
        } in
        let m =
          mark-Works r (process_resource e spec r s).0 (process_resource e spec r s).1 tried new in
        let v = c.update_progress _ m.valid m.phase in
        record {
          world = k.status_update _ _ v m.world;
          valid = v;
          phase = phase-update_progress _ ∙ m.phase;
        })
  ]

  pub process_all-Works :
      (rs : List MigrationResource) (s : St e.World)
      → Works e V P s
      → Works e V P (process_all e spec rs s).1
  unfolding process_all
  process_all-Works [] s i = i
  process_all-Works (r ∷ rs) s i =
      process_all-Works rs (process_one e spec r s).1 (process_one-Works r s i)
