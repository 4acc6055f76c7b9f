-- ===== src/Quorum/Examples.antt =====
-- The refinement of the files by a map at a concrete sequence of calls.
use hollow_agent_os.Base.{◌≡◌, true, some, none, List, [], ◌∷◌}
use hollow_agent_os.Dict
use hollow_agent_os.Event.{object_of}
use hollow_agent_os.Quorum.Store.{Quorum}
use hollow_agent_os.Quorum.{new_proposal, get_proposal}
use hollow_agent_os.Quorum.Rows.{IsIndexed}
use hollow_agent_os.Quorum.Calls.{Op, proposes, votes, finalizes, withdraws, run, replay}
use hollow_agent_os.Quorum.Refinement.{run_refines}

abbrev empty : Quorum
empty = record { percentage = 66; proposals = none; index = none; history = none }

abbrev calls : List Op
calls =
    proposes (new_proposal "prop-1" 1000 "scout" "capability" "read more" (object_of []))
    ∷ proposes (new_proposal "prop-2" 1010 "analyst" "policy" "write less" (object_of []))
    ∷ votes "prop-1" "analyst" true 1020
    ∷ withdraws "prop-2" "scout"
    ∷ finalizes "prop-1" 1030
    ∷ []

empty-IsIndexed : IsIndexed empty
unfolding Dict.get
empty-IsIndexed j n e = cc

run_refines_example :
    (q' : Quorum) × (run empty calls ≡ some q')
    × IsIndexed q'
    × (get_proposal q' ≡ replay 66 (get_proposal empty) calls)
run_refines_example = run_refines empty calls empty-IsIndexed
