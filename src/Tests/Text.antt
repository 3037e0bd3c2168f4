-- ===== src/Tests/Text.antt =====
-- Paths and names of codes.
use hq_platform.Base.{◌≡◌}
use hq_platform.Osal.Status.{queue_timeout, code, get_status_name}
use hq_platform.Osal.Status.Names.{get_status_name-code, ident}

get_status_name-code_example : get_status_name (code queue_timeout) ≡ ident queue_timeout
get_status_name-code_example = get_status_name-code queue_timeout
