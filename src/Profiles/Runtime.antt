-- ===== src/Profiles/Runtime.antt =====
-- profiles/runtime.py: `ReconcileResult`.
use ez_open_pn.Prelude.{Bool, Option, List, Text}

pub record ReconcileResult : Type 0 where
  pub added : List Text
  pub removed : List Text
  pub restarted : Bool
  pub error_code : Option Text
