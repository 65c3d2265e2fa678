-- ===== src/Worker/StartTests.antt =====
-- The theorems on the worker's start and on the fetch of datasets at concrete inputs.
use phyai_saas_train_vla.Worker.DockerRunner.{Sdk, Lookup, found, not_found, raised, runner}
use phyai_saas_train_vla.Worker.DockerRunner.Contract.{IsSdk, IsUp, reconcile-runner}
use phyai_saas_train_vla.Prelude.{
  ◌&&◌, Result, ◌∙◌, map, ap, pos, Bool, true, false, ◌≡◌, ◌≢◌, refl, String, true, not, List, [],
  ◌∷◌, ok, arith, eq_iff, contains, filter, ◌==◌, text_eq, nat_eq,
}
use phyai_saas_train_vla.Samples.{db, jobs-IsSound}
use phyai_saas_train_vla.Common.Errors.{Error}
use phyai_saas_train_vla.Worker.Ports.{Host}
use phyai_saas_train_vla.Worker.OrphanReconciler.{Docker, ReconciliationResult, reconcile}
use phyai_saas_train_vla.Worker.OrphanReconciler.Single.{
  IsDocker, NoneRaises, IsSetOrder, After, reconcile-After,
}

-- The host's state is the list of the containers that run.
abbrev daemon : Docker (List String)
daemon = record {
  list_running_container_ids = λ w. (ok w, w);
  kill = λ id w. (ok tt, filter (λ other. not (other == id)) w);
}

left_after :
    (id : String) (w : List String) (x : String)
    → contains (filter (λ other. not (other == id)) w) x ≡ (contains w x && not (x == id))
left_after id [] x = refl
left_after id (y ∷ w) x =
    ground (arith, left_after id w x, eq_iff y x, eq_iff x y, eq_iff y id, eq_iff x id)

same_list : {a b : List String} → ◌≡◌ {A = Result Error (List String)} (ok a) (ok b) → b ≡ a
same_list e = cc

daemon-IsDocker : IsDocker daemon (λ w. w)
daemon-IsDocker = record {
  lists = λ w ids e. (same_list e, refl);
  kills = λ id w _ _ x. left_after id w x;
}

daemon-NoneRaises : NoneRaises daemon (λ w. w)
daemon-NoneRaises = record { listed = λ w. (w, refl); stops = λ id w _. refl }

given-IsSetOrder : IsSetOrder (λ ids. ids)
given-IsSetOrder = record { same = λ ids x. refl; once = λ ids d. d }

abbrev host : Host (List String)
host = record { db = db; world = "c2" ∷ "c7" ∷ [] }

reconcile-After_example :
    (result : ReconciliationResult) × (left : Host (List String)) × (reconcile daemon
        (λ ids. ids)
        host
      ≡ (ok result, left))
    × After daemon (λ w. w) host result left
reconcile-After_example =
    reconcile-After daemon (λ w. w) daemon-IsDocker daemon-NoneRaises (λ ids. ids) given-IsSetOrder
      host jobs-IsSound

-- docker-py, where a container is its id.
abbrev named : Bool → String → Lookup String
named true id = found id
named false id = not_found

abbrev sdk : Sdk (List String) String
sdk = record {
  run = λ call w. (ok call.name, call.name ∷ w);
  get = λ id w. (named (contains w id) id, w);
  list = λ status label w. (ok w, w);
  kill = λ id w. (ok tt, filter (λ other. not (other == id)) w);
  reload = λ id w. (ok id, w);
  logs = λ id n w. (ok "", w);
  id = λ id. id;
  status = λ id. "running";
  exit_code = λ id. pos 0;
  labels = λ id. [];
  mkdir = λ dir w. (ok tt, w);
  getuid = 1000;
  getgid = 1000;
}

sdk-IsSdk : IsSdk sdk (λ w. w)
sdk-IsSdk = record {
  lists = λ w containers e. (same containers ∙ same_list e, refl);
  looks = λ id w. refl;
  absent = λ id w e. not_there (contains w id) id e;
  gets = λ id w c _ e. its_name (contains w id) id c e;
  kills = λ c w _ _ x. left_after c w x;
}
  where
    same : (w : List String) → map (λ (id : String). id) w ≡ w
    same [] = refl
    same (id ∷ w) = ap (λ ids. id ∷ ids) (same w)

    not_there : (b : Bool) (id : String) → named b id ≡ not_found → b ≡ false
    not_there true id e = cc
    not_there false id e = refl

    its_name : (b : Bool) (id c : String) → named b id ≡ found c → c ≡ id
    its_name true id c e = cc
    its_name false id c e = cc

sdk-IsUp : IsUp sdk (λ w. w)
sdk-IsUp = record {
  listed = λ w. (w, refl);
  looked = λ id w e _. never (contains w id) id e;
  stops = λ c w _. refl;
}
  where
    never : (b : Bool) (id : String) (e : Error) → named b id ≢ raised e
    never true id e p = cc
    never false id e p = cc

reconcile-runner_example :
    (result : ReconciliationResult) × (left : Host (List String)) × (reconcile
        (runner sdk)
        (λ ids. ids)
        host
      ≡ (ok result, left))
    × After (runner sdk) (λ w. w) host result left
reconcile-runner_example =
    reconcile-runner sdk (λ w. w) sdk-IsSdk sdk-IsUp (λ ids. ids) given-IsSetOrder host jobs-IsSound
