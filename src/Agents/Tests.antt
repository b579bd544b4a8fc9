-- ===== src/Agents/Tests.antt =====
-- When an agent counts as gone.
use vaul_tls.Base.{◌≡◌, refl, true, false}
use vaul_tls.Agents.{agent_online}

-- An interval of five minutes: a quarter of an hour.
in_time : agent_online 1000000 300 1900000 ≡ true
unfolding agent_online
in_time = refl

too_late : agent_online 1000000 300 1900001 ≡ false
unfolding agent_online
too_late = refl

from_the_future : agent_online 1060000 300 1000000 ≡ true
unfolding agent_online
from_the_future = refl

-- The longest interval that the server stores: the threshold wraps below zero.
wrapped : agent_online 1000000 (9223372036854775807) 1000000 ≡ false
unfolding agent_online
wrapped = refl
