-- ===== src/Waits.antt =====
-- server.go: the default waits of the transport.
use kupool.Common.{pos, Duration, second, minute, ◌*◌}

abbrev pub default_read_wait : Duration
default_read_wait = pos (3 * minute)

abbrev pub default_write_wait : Duration
default_write_wait = pos (10 * second)

abbrev pub default_login_wait : Duration
default_login_wait = pos (10 * second)

abbrev pub default_heartbeat : Duration
default_heartbeat = pos (55 * second)
