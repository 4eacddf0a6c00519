-- ===== src/Plan/Tests.antt =====
-- Runs of the plan: bytes 300 to 899 of two volumes, in chunks of 250.
use hydraria.Prelude.{◌+◌, refl, max, List, [], ◌∷◌, Option, some, arith}
use hydraria.Schedule.State.{VolumeMeta}
use hydraria.Plan.{plan_chunks, slice_span_by_volumes, Tiles, AllWithin, sizes}
use hydraria.Plan.Slicing.{slice_span_by_volumes-Tiles}
use hydraria.Plan.Tiling.{Holds, plan_chunks-Tiles}

abbrev volumes : Option (List VolumeMeta)
volumes = some (
    record { urls = []; offset = 0; size = 700 }
    ∷ record { urls = []; offset = 700; size = 300 }
    ∷ [])

volumes-Holds : Holds 899 volumes
unfolding sizes
volumes-Holds = ((refl, omega arith, (refl, omega arith, tt)), omega arith)

plan_chunks-Tiles_example :
    Tiles 300 (899 + 1) (plan_chunks 300 899 250 volumes)
    × AllWithin (max 250 1) (plan_chunks 300 899 250 volumes)
plan_chunks-Tiles_example =
    plan_chunks-Tiles 300 899 250 volumes (omega arith) (omega arith) volumes-Holds

slice_span_by_volumes-Tiles_example : Tiles 300 (899 + 1) (slice_span_by_volumes volumes 300 899)
slice_span_by_volumes-Tiles_example =
    slice_span_by_volumes-Tiles volumes 300 899 (omega arith) (omega arith) volumes-Holds
