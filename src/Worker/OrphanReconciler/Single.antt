-- ===== src/Worker/OrphanReconciler/Single.antt =====
-- What the start of the worker kills, leaves and reports.
use phyai_saas_train_vla.Prelude.{
  ◌≡◌, ◌≢◌, refl, sym, ◌∙◌, ap, ap₂, All-imp, String, Bool, true, not, ◌&&◌, some, List, [], ◌∷◌,
  contains, filter, All, All-and, Result, ok, ◌==◌, arith, eq_iff, text_eq,
}
use phyai_saas_train_vla.Dict.Keyed.{Stored, IsDistinct}
use phyai_saas_train_vla.Common.Models.{Job}
use phyai_saas_train_vla.Common.Errors.{Error}
use phyai_saas_train_vla.Repository.Jobs
use phyai_saas_train_vla.Repository.Jobs.{job_id, has_status, list_by_statuses-Listing}
use phyai_saas_train_vla.Repository.Invariant.{IsSound}
use phyai_saas_train_vla.Worker.Ports.{Host}
use phyai_saas_train_vla.Worker.OrphanReconciler.{
  Docker, ReconciliationResult, tracked_container_ids, is_resumed, sorted_texts, orphan_ids,
  kill_each, reconcile, reconciled_statuses,
}
use phyai_saas_train_vla.Worker.OrphanReconciler.Sets.{
  contains-sorted_texts, contains-tracked, one_tracked, contains-orphan_ids, followed_length,
  orphan_ids-IsDistinct, All-contains,
}

-- An order in which the members of a set are visited, each once.
pub record IsSetOrder (order : List String → List String) : Type 0 where
  pub same : (ids : List String) (x : String) → contains (order ids) x ≡ contains ids x
  pub once : (ids : List String) → IsDistinct (λ id. id) ids → IsDistinct (λ id. id) (order ids)

and_true : (b : Bool) → (b && true) ≡ b
and_true b = ground arith

killed_or_later :
    (b : Bool) (id : String) (ids : List String) (x : String)
    → ((b && not (x == id)) && not (contains ids x)) ≡ (b && not (contains (id ∷ ids) x))
killed_or_later b id ids x = ground (arith, eq_iff id x, eq_iff x id)

module _ {W : Type 0} (docker : Docker W) (running : W → List String) where
  -- What the worker relies on in the two calls: where they do not raise, the list is of the containers that
  -- run, and a kill of one that runs stops this one and no other.
  pub record IsDocker : Type 0 where
    pub lists :
        (w : W) (ids : List String)
        → (docker.list_running_container_ids w).0 ≡ ok ids
        → (ids ≡ running w) × ((docker.list_running_container_ids w).1 ≡ w)
    pub kills :
        (id : String) (w : W)
        → contains (running w) id ≡ true
        → (docker.kill id w).0 ≡ ok tt
        → (x : String)
        → contains (running (docker.kill id w).1) x ≡ (contains (running w) x && not (x == id))

  -- A host on which neither call raises.
  pub record NoneRaises : Type 0 where
    pub listed : (w : W) → (ids : List String) × ((docker.list_running_container_ids w).0 ≡ ok ids)
    pub stops :
        (id : String) (w : W) → contains (running w) id ≡ true → (docker.kill id w).0 ≡ ok tt

  -- The containers of the jobs that are initializing or training.
  abbrev followed_ids : Host W → List String
  followed_ids h = tracked_container_ids (Jobs.list_by_statuses h.db.jobs reconciled_statuses)

  -- What is left where no call raises: which containers run, and whether their jobs are known.
  pub record After (h : Host W) (result : ReconciliationResult) (left : Host W) : Type 0 where
    pub same_db : left.db ≡ h.db
    pub runs :
        (x : String)
        → contains (running left.world) x
          ≡ (contains (running h.world) x && contains (followed_ids h) x)
    pub tracked :
        (x : String)
        → contains (running left.world) x ≡ true
        → (job : Job) × Stored job_id h.db.jobs job
          × (has_status reconciled_statuses job ≡ true)
          × (job.container_id ≡ some x)
    pub single :
        (x y : String)
        → contains (running left.world) x ≡ true
        → contains (running left.world) y ≡ true
        → x ≡ y
    pub killed :
        (x : String)
        → contains result.killed_orphan_container_ids x
          ≡ (contains (running h.world) x && not (contains (running left.world) x))
    pub resumed :
        result.resumed_jobs
        ≡ filter
            (is_resumed (running h.world))
            (Jobs.list_by_statuses h.db.jobs reconciled_statuses)

  module _ (documented : IsDocker) (none_raises : NoneRaises) where
    still_run :
        (id : String) (ids : List String) (w : W)
        → contains (running w) id ≡ true
        → All (λ y. id ≢ y) ids
        → All (λ y. contains (running w) y ≡ true) ids
        → All (λ y. contains (running (docker.kill id w).1) y ≡ true) ids
    still_run id ids w runs apart all =
        All-imp (λ y. (id ≢ y) × (contains (running w) y ≡ true)) _
          (λ y h.
            documented.kills id w runs (none_raises.stops id w runs) y
            ∙ spared (contains (running w) y) id y h.0 h.1)
          ids (All-and (λ y. id ≢ y) (λ y. contains (running w) y ≡ true) ids apart all)
      where
        spared : (b : Bool) (id y : String) → id ≢ y → b ≡ true → (b && not (y == id)) ≡ true
        spared b id y n e = ground (arith, eq_iff y id)

    kill_each-kills :
        (ids : List String) (w : W)
        → IsDistinct (λ id. id) ids
        → All (λ id. contains (running w) id ≡ true) ids
        → (left : W) × (kill_each docker ids w ≡ (ok tt, left))
          × ((x : String)
              → contains (running left) x ≡ (contains (running w) x && not (contains ids x)))
    unfolding kill_each
    kill_each-kills [] w d h = (w, refl, λ x. sym (and_true (contains (running w) x)))
    kill_each-kills (id ∷ ids) w d h =
        let stopped = none_raises.stops id w h.0 in
        let (left, e, gone) =
          kill_each-kills ids (docker.kill id w).1 d.1 (still_run id ids w h.0 d.0 h.1) in
        (
          left,
          rw stopped e,
          λ x.
              gone x
              ∙ ap (λ b. b && not (contains ids x)) (documented.kills id w h.0 stopped x)
              ∙ killed_or_later (contains (running w) x) id ids x,
        )

    -- Where the invariant of the stored jobs holds, no call raises, and the Docker client does what the
    -- worker relies on, the reconciliation at the worker's start returns, in whatever order it visits
    -- the orphans. It has written nothing to the database, and of the containers that ran it leaves
    -- exactly those of jobs that are initializing or training; the others are stopped and reported. So
    -- at most one is left, and it is a stored job's that is initializing or training. The jobs
    -- reported as resumed are those of the followed jobs whose container ran.
    pub reconcile-After :
        (in_set_order : List String → List String)
        → IsSetOrder in_set_order
        → (h : Host W) → IsSound h.db.jobs
        → (result : ReconciliationResult) × (left : Host W) × (reconcile docker in_set_order h
            ≡ (ok result, left))
          × After h result left
    unfolding reconcile orphan_ids
    reconcile-After in_set_order visits h sound =
        let followed = Jobs.list_by_statuses h.db.jobs reconciled_statuses in
        let ran = running h.world in
        let orphans = orphan_ids ran followed in
        let (ids, listed) = none_raises.listed h.world in
        let (ids_eq, world_eq) = documented.lists h.world ids listed in
        let among = λ (x : String) (there : contains (in_set_order orphans) x ≡ true).
          first_of (contains ran x) (contains (tracked_container_ids followed) x)
            (sym (visits.same orphans x ∙ contains-orphan_ids ran followed x) ∙ there) in
        let (left, e, gone) =
          kill_each-kills (in_set_order orphans) h.world
            (visits.once orphans (orphan_ids-IsDistinct ran followed))
            (All-contains (λ id. contains ran id ≡ true) (in_set_order orphans) among) in
        let kept = λ (x : String).
          gone x
          ∙ ap (λ b. contains ran x && not b)
              (visits.same orphans x ∙ contains-orphan_ids ran followed x)
          ∙ kept_if (contains ran x) (contains (tracked_container_ids followed) x) in
        let is_tracked = λ (x : String) (runs : contains (running left) x ≡ true).
          (both (contains ran x) (contains (tracked_container_ids followed) x)
            (sym (kept x) ∙ runs)) in
        let listing = list_by_statuses-Listing h.db.jobs reconciled_statuses sound.keyed in
        (
          record {
            resumed_jobs = filter (is_resumed ran) followed;
            killed_orphan_container_ids = sorted_texts orphans;
          },
          record { db = h.db; world = left },
          rw
              (
                ap₂ {C = Result Error (List String) × W} (λ r w. (r, w)) (listed ∙ ap ok ids_eq)
                    world_eq,
                e,
              )
              refl,
          record {
            same_db = refl;
            runs = kept;
            tracked = λ x runs.
                let (job, (there, active), its) =
                  contains-tracked
                    (λ job.
                      Stored job_id h.db.jobs job × (has_status reconciled_statuses job ≡ true))
                    followed x
                    (All-and (Stored job_id h.db.jobs)
                      (λ job. has_status reconciled_statuses job ≡ true) followed listing.stored
                      listing.in_statuses)
                    (is_tracked x runs) in
                (job, there, active, its);
            single = λ x y runs runs'.
                one_tracked followed x y (followed_length h.db.jobs sound) (is_tracked x runs)
                  (is_tracked y runs');
            killed = λ x.
                contains-sorted_texts orphans x
                ∙ contains-orphan_ids ran followed x
                ∙ rw (kept x)
                    (gone_if (contains ran x) (contains (tracked_container_ids followed) x));
            resumed = refl;
          },
        )
      where
        first_of : (a b : Bool) → (a && not b) ≡ true → a ≡ true
        first_of a b e = ground arith

        kept_if : (a b : Bool) → (a && not (a && not b)) ≡ (a && b)
        kept_if a b = ground arith

        gone_if : (a b : Bool) → (a && not b) ≡ (a && not (a && b))
        gone_if a b = ground arith

        both : (a b : Bool) → (a && b) ≡ true → b ≡ true
        both a b e = ground arith
