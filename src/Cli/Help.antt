-- ===== src/Cli/Help.antt =====
-- `cmd_help` of src/cli/cli.c.
use tcp_dpdk.Base.{ℕ, List, [], ◌∷◌, ◌&&◌, codes, is, snprintf, if◌then◌else◌}

abbrev mempool_help : List ℕ
mempool_help =
    codes
      "\nmempool <mempool_name>\n   buffer <buffer_size>\n   pool <pool_size>\n   cache <cache_size>\n   cpu <cpu_id>\n\n"

abbrev meter_profile_add_help : List ℕ
meter_profile_add_help =
    codes
      "\npipeline <pipeline_name> table <table_id> meter profile <meter_profile_id>\n   add srtcm cir <cir> cbs <cbs> ebs <ebs>\n   | trtcm cir <cir> pir <pir> cbs <cbs> pbs <pbs>\n\n"

abbrev meter_profile_delete_help : List ℕ
meter_profile_delete_help =
    codes
      "\npipeline <pipeline_name> table <table_id>\n   meter profile <meter_profile_id> delete\n\n"

abbrev rule_meter_read_help : List ℕ
rule_meter_read_help =
    codes
      "\npipeline <pipeline_name> table <table_id> rule read meter [clear]\n     match <match>\n\n"

abbrev rule_ttl_read_help : List ℕ
rule_ttl_read_help =
    codes
      "\npipeline <pipeline_name> table <table_id> rule read ttl [clear]\n     match <match>\n\n"

abbrev rule_time_read_help : List ℕ
rule_time_read_help =
    codes "\npipeline <pipeline_name> table <table_id> rule read time\n     match <match>\n\n"

abbrev commands_help : List ℕ
commands_help =
    codes
      "Type 'help <command>' for details on each command.\n\nList of commands:\n\tddio\n\tddio-disable\n\n"

-- The text for five tokens behind "help", `a` and `b` and `e` being the last three of them.
abbrev pub topic_help : List ℕ → List ℕ → List ℕ → List ℕ → ℕ → List ℕ
topic_help out a b e out_size =
    if is a "meter" && is b "profile" && is e "add"
    then snprintf out_size meter_profile_add_help
    else if is a "meter" && is b "profile" && is e "delete"
    then snprintf out_size meter_profile_delete_help
    else if is a "rule" && is b "meter" && is e "read"
    then snprintf out_size rule_meter_read_help
    else if is a "rule" && is b "ttl" && is e "read"
    then snprintf out_size rule_ttl_read_help
    else if is a "rule" && is b "time" && is e "read"
    then snprintf out_size rule_time_read_help
    else out

abbrev pub long_help : List ℕ → List (List ℕ) → ℕ → List ℕ
long_help out (t ∷ u ∷ a ∷ b ∷ e ∷ []) out_size = topic_help out a b e out_size
long_help out _ out_size = out

-- What `out` holds after the command; a topic that is not known leaves it as it was.
unfoldable pub cmd_help : List ℕ → List (List ℕ) → ℕ → List ℕ
cmd_help out [] out_size = snprintf out_size commands_help
cmd_help out (t ∷ ts) out_size =
    if is t "mempool" then snprintf out_size mempool_help else long_help out (t ∷ ts) out_size
