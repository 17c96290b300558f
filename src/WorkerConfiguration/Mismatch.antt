-- ===== src/WorkerConfiguration/Mismatch.antt =====
-- src/internal/worker-configuration.ts: `configurationMismatch` and the tools of a Worker that passes it.
use pions.Prelude.{◌≡◌, String, Bool, true, false, List, [], ◌∷◌, any, eq_iff, arith}
use pions.WorkerConfiguration.{includes}

-- What holds of no element does not hold of one that is in the list.
pub any_excludes :
    (test : String → Bool) (tools : List String) (tool : String)
    → any test tools ≡ false
    → includes tools tool ≡ true
    → test tool ≡ false
unfolding includes
any_excludes test [] tool h i = cc
any_excludes test (x ∷ tools) tool h i = ground (arith, eq_iff tool x, any_excludes test tools tool)
