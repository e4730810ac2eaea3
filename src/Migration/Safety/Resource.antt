-- ===== src/Migration/Safety/Resource.antt =====
-- One resource that is processed: its status is at the index where it is written.
use reposhift.Common.{ℕ, ◌≡◌, ◌≢◌, refl, subst, String, Bool, true, false, Option, none, some, List}
use reposhift.Migration.Types.{
  MigrationPhase, MigrationResource, ResourceMigrationStatus, Migration, MigrationStatus,
}
use reposhift.Migration.Env.{Env}
use reposhift.Migration.Action.{◌>>◌, pure, modify}
use reposhift.Migration.Code.{Processed}
use reposhift.Migration.Resource.{
  create_resource_status, index_in, shown_as_processing, placed, settled, has_index, settle,
  process_at, process_resource, update_resource_status_after_processing,
}
use reposhift.Migration.Valid.{
  IsValid, IsOpen, IsOpenAt, placed-IsValid, settled-IsValid, place-IsOpenAt,
  create_resource_status-is_done,
}
use reposhift.Migration.Keeps.{
  Leads, Leads-keeps, Inv, Stable, Stable-weaken, Keeps-event, Keeps-send, Keeps-modify, Keeps-now,
  Keeps-status_update,
}
use reposhift.Migration.Keeps.Code.{IgnoresRepositories, Keeps-process_resource_by_type}
use reposhift.Migration.Keeps.Returns.{
  Returns, Returns-bind, Returns-then, Returns-after, Returns-read,
}
use reposhift.Migration.Safety.{same_counts}

-- valid, and past the initialisation
pub record IsStarted (b : MigrationStatus) : Type 0 where
  pub valid : IsValid b
  pub phase_lem : b.phase ≢ MigrationPhase.unset

-- ready for a resource, whose status has the index if it has one
pub record IsReady (index : Option ℕ) (b : MigrationStatus) : Type 0 where
  pub started : IsStarted b
  pub open_lem : IsOpen index b.resource_statuses

-- while the resource is processed, its status is at the index
record IsPlaced (i : ℕ) (b : MigrationStatus) : Type 0 where
  pub started : IsStarted b
  pub open_lem : IsOpenAt i b.resource_statuses

IsPlaced-IgnoresRepositories : (i : ℕ) → IgnoresRepositories (IsPlaced i)
IsPlaced-IgnoresRepositories i = record {
  branch = λ b info p. record {
    started = record {
      valid = same_counts b _ refl refl refl (λ h. h) refl (λ h. h) p.started.valid;
      phase_lem = p.started.phase_lem;
    };
    open_lem = p.open_lem;
  };
  states = λ b l p. record {
    started = record {
      valid = same_counts b _ refl refl refl (λ h. h) refl (λ h. h) p.started.valid;
      phase_lem = p.started.phase_lem;
    };
    open_lem = p.open_lem;
  };
}

shown_as_processing-IsReady :
    (r : MigrationResource) (index : Option ℕ) (b : MigrationStatus)
    → IsReady index b
    → IsReady index (shown_as_processing r b)
unfolding shown_as_processing
shown_as_processing-IsReady r index b v = record {
  started = record {
    valid = same_counts b _ refl refl refl (λ h. h) refl (λ h. h) v.started.valid;
    phase_lem = v.started.phase_lem;
  };
  open_lem = v.open_lem;
}

placed-IsPlaced :
    (t : ℕ) (r : MigrationResource) (index : Option ℕ) (b : MigrationStatus)
    → IsReady index b
    → IsPlaced (index_in index b.resource_statuses) (placed index (create_resource_status t r) b)
unfolding placed
placed-IsPlaced t r index b v = record {
  started = record {
    valid = placed-IsValid b v.started.valid index t r v.started.phase_lem v.open_lem;
    phase_lem = v.started.phase_lem;
  };
  open_lem =
      place-IsOpenAt b.resource_statuses index (create_resource_status t r) v.open_lem
        (create_resource_status-is_done t r);
}

settled-phase :
    (t : ℕ) (error : Option String) (i : ℕ) (r : MigrationResource) (st : ResourceMigrationStatus)
    (b : MigrationStatus)
    → IsStarted b
    → (settled t error i r st b).phase ≢ MigrationPhase.unset
unfolding settled
settled-phase t error i r st b v = v.phase_lem

has_index-IsOpen :
    (index : Option ℕ) (l : List ResourceMigrationStatus)
    → IsOpen index l
    → has_index index l ≡ true
unfolding has_index
has_index-IsOpen none l o = refl
has_index-IsOpen (some i) l (old, at, n) = rw (has_index, at) refl

module _ (e : Env) {P : e.World → Type 0} (k : Stable e IsValid P) where
  settle-Returns :
      (b : Bool) (t i : ℕ) (r : MigrationResource) (p : Processed)
      → b ≡ true
      → Returns (Inv (IsPlaced i) P) (Inv IsStarted P) (settle e b t i r p)
  unfolding settle ◌>>◌ modify pure
  settle-Returns false t i r p h = absurd (cc h)
  settle-Returns true t i r (error, st) h = record {
    at = λ s v. (
      λ q. cc,
      record {
        world = v.world;
        valid = record {
          valid =
              settled-IsValid s.migration.status v.valid.started.valid t error i r st
                v.valid.started.phase_lem v.valid.open_lem;
          phase_lem = settled-phase t error i r st s.migration.status v.valid.started;
        };
      },
    );
  }

  update_resource_status_after_processing-Returns :
      (i : ℕ) (r : MigrationResource) (p : Processed)
      → Returns
          (Inv (IsPlaced i) P)
          (Inv IsStarted P)
          (update_resource_status_after_processing e i r p)
  unfolding update_resource_status_after_processing
  update_resource_status_after_processing-Returns i r (error, st) =
      let placed : Stable e (IsPlaced i) P = Stable-weaken e _ _ _ (λ b x. x.started.valid) k in
      Returns-bind _ _ (Leads-keeps (Keeps-now e placed)) λ t. Returns-after _ _ (Keeps-send e _) (
        Returns-after _ _ (Keeps-event e _) (
          Returns-read _ _ λ m. record {
            at = λ s (v, same).
                (settle-Returns _ t i r (error, st)
                    (subst (λ (x : Migration). has_index (some i) x.status.resource_statuses ≡ true)
                      same (has_index-IsOpen (some i) _ v.valid.open_lem))).at
                  s v;
          }))

  placed-Leads :
      (t : ℕ) (r : MigrationResource) (index : Option ℕ) (m : Migration)
      → Leads {W = e.World}
          (λ s. Inv (IsReady index) P s × (s.migration ≡ m))
          (Inv (IsPlaced (index_in index m.status.resource_statuses)) P)
          (modify (placed index (create_resource_status t r)))
  unfolding modify
  placed-Leads t r index m = record {
    at = λ s (i, same). record {
      world = i.world;
      valid =
          subst
            (λ (x : Migration).
              IsPlaced (index_in index x.status.resource_statuses)
                (placed index (create_resource_status t r) s.migration.status))
            same (placed-IsPlaced t r index s.migration.status i.valid);
    };
  }

  process_at-Returns :
      (b : Bool) (token : String) (r : MigrationResource) (t : ℕ) (index : Option ℕ) (m : Migration)
      → b ≡ true
      → Returns
          (λ s. Inv (IsReady index) P s × (s.migration ≡ m))
          (Inv IsStarted P)
          (process_at e b token m.spec r t index m.status.resource_statuses)
  unfolding process_at
  process_at-Returns false token r t index m h = absurd (cc h)
  process_at-Returns true token r t index m h =
      let placed : (i : ℕ) → Stable e (IsPlaced i) P =
        λ i. Stable-weaken e _ _ _ (λ b x. x.started.valid) k in
      Returns-then _ _ (placed-Leads t r index m) (
        Returns-bind _ _
          (Leads-keeps (
            Keeps-process_resource_by_type e (placed _) (IsPlaced-IgnoresRepositories _) token
              m.spec r _))
          (λ p. update_resource_status_after_processing-Returns _ r p))

  -- the whole of one resource
  pub process_resource-Returns :
      (token : String) (r : MigrationResource) (index : Option ℕ)
      → Returns (Inv (IsReady index) P) (Inv IsStarted P) (process_resource e token r index)
  unfolding process_resource
  process_resource-Returns token r index =
      let ready : Stable e (IsReady index) P = Stable-weaken e _ _ _ (λ b x. x.started.valid) k in
      Returns-after _ _ (Keeps-modify e _ (shown_as_processing-IsReady r index)) (
        Returns-after _ _ (Keeps-send e _) (
          Returns-after _ _ (Keeps-status_update e ready) (
            Returns-bind _ _ (Leads-keeps (Keeps-now e ready)) λ t. Returns-read _ _ λ m. record {
              at = λ s (i, same).
                  (process_at-Returns _ token r t index m (
                      subst (λ (x : Migration). has_index index x.status.resource_statuses ≡ true)
                        same (has_index-IsOpen index _ i.valid.open_lem))).at
                    s (i, same);
            })))
