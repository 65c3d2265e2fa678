-- ===== src/Worker/CancelWatcher/Round.antt =====
-- A whole round of cancellations.
use mathlib.Core.Option
use phyai_saas_train_vla.Prelude.{
  ◌≡◌, refl, ◌∙◌, ap, sym, String, true, false, Option, none, some, List, [], ◌∷◌, map, filter,
  arith, ok, if◌then◌else◌, inl, inr, Bool-cases, Result,
}
use phyai_saas_train_vla.Dict
use phyai_saas_train_vla.Dict.{Dict}
use phyai_saas_train_vla.Dict.Keyed.{IsKeyed}
use phyai_saas_train_vla.Common.Models.{text_or_empty, DateTime, Job}
use phyai_saas_train_vla.Common.Errors.{Error}
use phyai_saas_train_vla.Common.Quota.{is_active}
use phyai_saas_train_vla.Repository.Database.{Database}
use phyai_saas_train_vla.Repository.Jobs.{
  job_id, has_status, list_by_statuses, list_by_statuses-Listing,
}
use phyai_saas_train_vla.Repository.Sweep.{changed, update_each, sweep_pointwise}
use phyai_saas_train_vla.Repository.Invariant.{IsSound}
use phyai_saas_train_vla.Worker.Ports.{Ports, Host}
use phyai_saas_train_vla.Worker.CancelWatcher.{
  cancellable_statuses, stop, cancel_all, process_cancellations,
}
use phyai_saas_train_vla.Worker.CancelWatcher.Exact.{
  cancelled_at, is_asked, asked, asked-KeepsId, Pending, Pending-skip, Pending-next,
  cancel_all-skip, cancel_all-next, written, written-jobs, unasked, stop-db, cancel_all-IsSound,
}

-- The listing that the round visits.
abbrev pub candidates : Dict Job → List Job
candidates jobs = list_by_statuses jobs cancellable_statuses

candidates-Pending : (jobs : Dict Job) → IsKeyed job_id jobs → Pending (candidates jobs) jobs
candidates-Pending jobs k =
    let listing = list_by_statuses-Listing jobs cancellable_statuses k in
    record { active = listing.in_statuses; stored = listing.stored; distinct = listing.distinct }

module _ {W : Type 0} (ports : Ports W) (workdir : String) where
  -- A round keeps the invariant of the stored jobs, also where a call to Docker raises midway.
  pub process_cancellations-IsSound :
      (h : Host W) → IsSound h.db.jobs → IsSound (process_cancellations ports workdir h).1.db.jobs
  unfolding process_cancellations
  process_cancellations-IsSound h s =
      let (now, w) = ports.now h.world in
      cancel_all-IsSound ports workdir now (candidates h.db.jobs) (record h { world = w })
        (candidates-Pending h.db.jobs s.keyed) s

  module _ (kills : (id : String) (w : W) → (ports.kill id w).0 ≡ ok tt) where
    stop-ok : (job : Job) (h : Host W) → (stop ports workdir job h).0 ≡ ok tt
    unfolding stop
    stop-ok job h = ground (arith, kills (text_or_empty job.container_id) h.world)

    abbrev found : DateTime → List Job → List Job
    found now listed = map (cancelled_at now) (filter is_asked listed)

    found_skip :
        (now : DateTime) (job : Job) (rest : List Job)
        → job.cancel_requested ≡ false
        → ◌≡◌ {A = Result Error (List Job)} (ok (found now rest)) (ok (found now (job ∷ rest)))
    found_skip now job rest n = ground arith

    found_next :
        (now : DateTime) (job : Job) (rest : List Job)
        → job.cancel_requested ≡ true
        → is_active job ≡ true
        → ◌≡◌ {A = Result Error (List Job)}
            (ok (cancelled_at now job ∷ found now rest))
            (ok (found now (job ∷ rest)))
    found_next now job rest y a = ground arith

    -- The loop returns the cancelled jobs and writes each of them.
    record Done (now : DateTime) (listed : List Job) (h : Host W)
        (r : Result Error (List Job) × Host W) : Type 0 where
      returned : r.0 ≡ ok (found now listed)
      users : r.1.db.users ≡ h.db.users
      jobs : r.1.db.jobs ≡ update_each (asked now) listed h.db.jobs

    cancel_all-Done :
        (now : DateTime) (listed : List Job) (h : Host W)
        → Pending listed h.db.jobs
        → Done now listed h (cancel_all ports workdir now listed h)
    unfolding cancel_all
    cancel_all-Done now [] h p = record { returned = refl; users = refl; jobs = refl }
    cancel_all-Done now (job ∷ rest) h p = elim (Bool-cases job.cancel_requested) [
      | inr no_request ↦
          let d = cancel_all-Done now rest h (Pending-skip job rest h.db.jobs p) in
          rw (cancel_all-skip ports workdir now job rest h no_request) (record {
            returned = d.returned ∙ found_skip now job rest no_request;
            users = d.users;
            jobs =
                d.jobs
                ∙ ap (update_each (asked now) rest)
                    (sym (unasked ports workdir now job rest h no_request));
          })
      | inl request ↦
          let w = written ports workdir now job (stop ports workdir job h).1 in
          let jobs_eq = written-jobs ports workdir now job rest h request p.active.0 in
          let d = cancel_all-Done now rest w (rw jobs_eq (Pending-next now job rest h.db.jobs p)) in
          rw (cancel_all-next ports workdir now job rest h tt request p.active.0 (stop-ok job h)) (
            rw d.returned (record {
              returned = found_next now job rest request p.active.0;
              users = d.users ∙ ap (λ (db : Database). db.users) (stop-db ports workdir job h);
              jobs = d.jobs ∙ ap (update_each (asked now) rest) jobs_eq;
            }))
    ]

    -- The time that the round reads, and what it makes of a job.
    abbrev time : Host W → DateTime
    time h = (ports.now h.world).0

    abbrev after : DateTime → Job → Job
    after now job = if is_asked job then cancelled_at now job else job

    map-asked :
        (now : DateTime) (o : Option Job)
        → Option.map (changed (asked now)) o ≡ Option.map (after now) o
    map-asked now none = refl
    map-asked now (some job) = ground arith

    asked-ordinary :
        (now : DateTime) (job : Job)
        → has_status cancellable_statuses job ≡ false
        → asked now job ≡ none
    asked-ordinary now job h = ground arith

    -- Where every job is stored under its own id and killing a container does not raise, a round of
    -- cancellations returns the jobs that it cancelled, oldest first; each stored job that is active
    -- and has a request is now cancelled at the time read, every other job and all users, their
    -- quotas included, are as they were.
    pub process_cancellations_exact :
        (h : Host W) (id : String)
        → IsKeyed job_id h.db.jobs
        → ((process_cancellations ports workdir h).0
            ≡ ok (map (cancelled_at (time h)) (filter is_asked (candidates h.db.jobs))))
          × ((process_cancellations ports workdir h).1.db.users ≡ h.db.users)
          × (Dict.get (process_cancellations ports workdir h).1.db.jobs id
              ≡ Option.map (after (time h)) (Dict.get h.db.jobs id))
    unfolding process_cancellations
    process_cancellations_exact h id k =
        let (now, w) = ports.now h.world in
        let d =
          cancel_all-Done now (candidates h.db.jobs) (record h { world = w })
            (candidates-Pending h.db.jobs k) in
        (
          d.returned,
          d.users,
          ap (λ (jobs : Dict Job). Dict.get jobs id) d.jobs
              ∙ sweep_pointwise (asked now) cancellable_statuses h.db.jobs id (asked-KeepsId now)
                  (asked-ordinary now) k
              ∙ map-asked now (Dict.get h.db.jobs id),
        )
