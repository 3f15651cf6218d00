-- ===== src/Random/Tests.antt =====
-- Random bytes from a sample state.
use spl.Random.{random_get_pseudo_bytes}
use spl.Random.Filled.{Filled, random_get_pseudo_bytes-Filled}

random_get_pseudo_bytes-Filled_example : Filled 11 (1, 2) (random_get_pseudo_bytes 11 (1, 2))
random_get_pseudo_bytes-Filled_example = random_get_pseudo_bytes-Filled 11 (1, 2)
