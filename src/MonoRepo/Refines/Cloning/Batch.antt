-- ===== src/MonoRepo/Refines/Cloning/Batch.antt =====
-- processCloning as a whole: the batch, its clones, and their results.
use mathlib.Core.List.{Permᴰ}
use reposhift.Common.{
  ℕ, zero, suc, ◌≤◌, ◌≡◌, refl, sym, ap, ◌∙◌, subst, String, List, [], ◌∷◌, map, take, length,
  arith, if◌then◌else◌,
}
use reposhift.Common.Int.{ℤ, pos, negsuc, pos_part, ltb_ℤ}
use reposhift.Common.Result.{Result, ok, err}
use reposhift.Common.State.{◌>>=◌, ◌>>◌, pure}
use reposhift.Common.State.Leads.{Leads, Keeps, Leads-bind, Leads-bind_with, Leads-then, Leads-pure}
use reposhift.MonoRepo.Types.{
  MonoPhase, MonoStatus, MonoMigration, MonoSettings, get_parallel_clones,
}
use reposhift.MonoRepo.Env.{Env, St, Cloned, stat, clone_mono_repo_source}
use reposhift.MonoRepo.Action.{schedule}
use reposhift.MonoRepo.Cloning.{
  pending_repos, clean_before, clone_one, clone_each, clone_with, clone_pending, process_cloning,
}
use reposhift.MonoRepo.Machine.{phases, stays, Works}
use reposhift.MonoRepo.Saves.{Server, At, Saved, At-ask, At-schedule, At-reads, At-get_workspace}
use reposhift.MonoRepo.Steady.{Keeps-get_azure_dev_ops_token}
use reposhift.MonoRepo.Steady.Git.{Keeps-remove_if}
use reposhift.MonoRepo.Refines.{fail_migration-saves, go_on-saves}
use reposhift.MonoRepo.Refines.Ready.{
  waits_at, Ready, Ready-perm, Ready-take, pending_repos-Ready, none_pending,
}
use reposhift.MonoRepo.Refines.Cloning.{Reorders, Moved}
use reposhift.MonoRepo.Refines.Cloning.Results.{collect_results-saves}

-- at least one clone at a time
get_parallel_clones_pos : (s : MonoSettings) → 1 ≤ pos_part (get_parallel_clones s)
unfolding get_parallel_clones
get_parallel_clones_pos s = by_sign s.parallel_clones
  where
    by_sign :
        (z : ℤ)
        → 1 ≤ pos_part (if ltb_ℤ z (pos 1) then pos 3 else if ltb_ℤ (pos 10) z then pos 10 else z)
    by_sign (pos n) = ground arith
    by_sign (negsuc n) = ground arith

perm-length : {l k : List ℕ} → Permᴰ l k → length l ≡ length k
perm-length Permᴰ.nil = refl
perm-length (Permᴰ.cons e p) = ap suc (perm-length p)
perm-length (Permᴰ.swap e f) = refl
perm-length (Permᴰ.trans p q) = perm-length p ∙ perm-length q

length-take_pos : (n i : ℕ) (l : List ℕ) → 1 ≤ n → 1 ≤ length (take n (i ∷ l))
length-take_pos zero i l h = absurd (omega arith)
length-take_pos (suc n) i l h = omega arith

-- the results are those of the places, in their order
clone_each-places :
    (e : Env) (token dir : String) (m : MonoMigration) (l : List ℕ) (s : St e.World)
    → map (λ (r : ℕ × Result Cloned). r.0) (clone_each e token dir m l s).0 ≡ l
unfolding clone_each clone_one pure ◌>>=◌ ◌>>◌
clone_each-places e token dir m [] s = refl
clone_each-places e token dir m (i ∷ l) s =
    ap (λ (x : List ℕ). i ∷ x) (clone_each-places e token dir m l _)

Moved-start :
    (b : MonoStatus) (results : List (ℕ × Result Cloned)) (l : List ℕ)
    → map (λ (r : ℕ × Result Cloned). r.0) results ≡ l
    → 1 ≤ length l
    → Moved b b results
Moved-start b [] l p h = absurd (omega (arith, ap (λ (x : List ℕ). length x) p))
Moved-start b (r ∷ rest) l p h = tt

module _ (e : Env) (server : Server e) {b : MonoStatus} where
  Keeps-clean_before : (dir : String) → Keeps (At e server b b) (clean_before e dir)
  unfolding clean_before
  Keeps-clean_before dir =
      Leads-bind _ _ (At-ask e server (stat dir))
        λ exists. At-reads e server _ _ λ m same. Keeps-remove_if e (At-ask e server) _ dir

  Keeps-clone_one :
      (token dir : String) (m : MonoMigration) (i : ℕ)
      → Keeps (At e server b b) (clone_one e token dir m i)
  unfolding clone_one
  Keeps-clone_one token dir m i = Leads-bind _ _ (At-ask e server (stat _)) λ stale.
      Leads-then _ _ (Keeps-remove_if e (At-ask e server) stale _)
        (Leads-bind _ _ (At-ask e server (clone_mono_repo_source _ _ _ _ _ _)) λ r. Leads-pure _)

  Keeps-clone_each :
      (token dir : String) (m : MonoMigration) (l : List ℕ)
      → Keeps (At e server b b) (clone_each e token dir m l)
  unfolding clone_each
  Keeps-clone_each token dir m [] = Leads-pure _
  Keeps-clone_each token dir m (i ∷ l) =
      Leads-bind _ _ (Keeps-clone_one token dir m i)
        λ r. Leads-bind _ _ (Keeps-clone_each token dir m l) λ rs. Leads-pure _

  module _ (reorders : Reorders e) (cloning : b.phase ≡ MonoPhase.cloning) where
    clone_with-saves :
        (dir : String) (batch : List ℕ) (token : Result String)
        → Ready (phases b.repo_statuses) batch
        → 1 ≤ length batch
        → Leads (At e server b b) (Saved e server b (Works b)) (clone_with e dir batch token)
    unfolding clone_with schedule
    clone_with-saves dir batch (err error) ready some_clone =
        fail_migration-saves e server _ (rw cloning refl) stays
    clone_with-saves dir batch (ok token) ready some_clone = At-reads e server _ _ λ m same.
        Leads-bind_with (λ order. Permᴰ batch order) _ _ (λ s. reorders s.world batch)
          (At-schedule e server batch)
          λ order perm.
            Leads-bind_with (λ results. map (λ (r : ℕ × Result Cloned). r.0) results ≡ order) _ _
              (clone_each-places e token dir m order) (Keeps-clone_each token dir m order)
              λ results same_places.
                collect_results-saves e server b cloning _ results b
                  (record { phase_lem = refl; advanced = stays })
                  (subst (λ (x : List ℕ). Ready (phases b.repo_statuses) x) (sym same_places)
                    (Ready-perm (phases b.repo_statuses) perm ready))
                  (Moved-start b results order same_places (omega (arith, perm-length perm)))

    clone_pending-saves :
        (dir : String) (l : List ℕ)
        → Ready (phases b.repo_statuses) l
        → pending_repos 0 b.repo_statuses ≡ l
        → Leads (At e server b b) (Saved e server b (Works b)) (clone_pending e dir l)
    unfolding clone_pending
    clone_pending-saves dir [] ready none_left =
        go_on-saves e server _ _ _ (rw cloning refl)
          (rw cloning (none_pending 0 b.repo_statuses none_left))
    clone_pending-saves dir (i ∷ l) ready some_left = At-reads e server _ _ λ m same.
        Leads-bind _ _ (Keeps-get_azure_dev_ops_token e (At-ask e server) m.namespace m.spec)
          λ token.
            let n = pos_part (get_parallel_clones m.spec.settings) in
            clone_with-saves dir (take n (i ∷ l)) token
              (Ready-take n (phases b.repo_statuses) (i ∷ l) ready)
              (length-take_pos n i l (get_parallel_clones_pos m.spec.settings))

    pub process_cloning-saves :
        Leads (At e server b b) (Saved e server b (Works b)) (process_cloning e)
    unfolding process_cloning
    process_cloning-saves = Leads-bind _ _ (At-get_workspace e server) λ dir.
        Leads-then _ _ (Keeps-clean_before dir) (
          At-reads e server _ _ λ m same.
            clone_pending-saves dir (pending_repos 0 m.status.repo_statuses)
              (subst
                (λ (x : MonoStatus).
                  Ready (phases b.repo_statuses) (pending_repos 0 x.repo_statuses))
                (sym same)
                (pending_repos-Ready (phases b.repo_statuses) 0 b.repo_statuses
                  (λ j. ap (λ (x : ℕ). waits_at x (phases b.repo_statuses)) (omega arith))))
              (sym (ap (λ (x : MonoStatus). pending_repos 0 x.repo_statuses) same)))
