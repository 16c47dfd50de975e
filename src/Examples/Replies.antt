-- ===== src/Examples/Replies.antt =====
-- Requests that are served, and the loops that accept them.
use os_study.Prelude.{◌≢◌, refl, arith, [], ◌∷◌}
use os_study.Server.World.{ok}
use os_study.Server.Worker.{fresh_locals, do_call}
use os_study.Server.Serving.{do_call_stops}
use os_study.Examples.Data.{visitor, quiet}

do_call_stops_example : do_call (visitor ∷ visitor ∷ []) quiet ≢ ok fresh_locals quiet
do_call_stops_example =
    do_call_stops (visitor ∷ visitor ∷ []) quiet refl (omega arith) fresh_locals quiet
