-- ===== src/SharedLog/Examples.antt =====
-- The theorem on the size of the log at a concrete file.
use hollow_agent_os.Base.{◌*◌, ◌≤◌, ◌≡◌, none, some, List, [], ◌∷◌, ◌++◌, arith, length}
use hollow_agent_os.SharedLog.{SharedLog, LogEntry, broken, lines_of, write, read}
use hollow_agent_os.SharedLog.Size.{write-Bounded}

abbrev log : SharedLog
log = record { max_entries = 2; file = some (broken "{" ∷ []) }

write-Bounded_example :
    let l' = write (λ s. s) log "scout" "three" [] 30 in
    (length (lines_of l'.file) * 10 ≤ 2 * 11)
    × (es : List LogEntry) × (read l' 5 none none none
        ≡ es ++ record { ts = 30; agent_id = "scout"; message = "three"; tags = [] } ∷ [])
write-Bounded_example = write-Bounded (λ s. s) log "scout" "three" [] 30 5 (omega arith)
