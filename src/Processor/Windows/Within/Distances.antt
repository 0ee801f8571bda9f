-- ===== src/Processor/Windows/Within/Distances.antt =====
-- Which times the join takes for near.
use stream_flow.Prelude.{if◌then◌else◌}
use stream_flow.Prelude.Int.{ltb_ℤ}
use stream_flow.Processor.Windows.{max_duration, min_duration}
use stream_flow.Time.{Duration}

abbrev clamp : Duration → Duration
clamp d =
    if ltb_ℤ max_duration d then max_duration else if ltb_ℤ d min_duration then min_duration else d
