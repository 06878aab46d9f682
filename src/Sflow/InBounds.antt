-- ===== src/Sflow/InBounds.antt =====
-- internal/sflow's decoder never reads outside the datagram.
use mathlib.Core.Option
use flowspec_vpp_agent.Prelude.{Option}
use flowspec_vpp_agent.Data.Result.{Result}
use flowspec_vpp_agent.Detector.Sample.{Sample}
