-- ===== src/Repository/Database.antt =====
-- The two repositories together, as backend and worker share them.
use phyai_saas_train_vla.Dict.{Dict}
use phyai_saas_train_vla.Common.Models.{User, Job}

pub record Database : Type 0 where
  pub users : Dict User
  pub jobs : Dict Job
