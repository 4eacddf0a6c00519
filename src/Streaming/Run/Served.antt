-- ===== src/Streaming/Run/Served.antt =====
-- src/engine.rs, `stream_range`: the serializer does not wait in vain, and the fetchers are bounded.
use hydraria.Prelude.{◌+◌, ◌≤◌, ◌≡◌, false, length, arith}
use hydraria.Streaming.{Request, warmup_next_vols}
use hydraria.Streaming.Run.{Stream, Steps}
use hydraria.Streaming.Run.Fed.{Steps-Fed}

-- After any steps, while the stream has not ended, the fetchers at work are no more than the
-- threads, and those that the warm-up of the next volumes may add: one for an open-ended request,
-- else one for each volume.
pub Steps-IsBounded :
    (r : Request) {s : Stream}
    → Steps r s
    → s.ended ≡ false
    → length s.window.fetchers ≤ r.max_threads + warmup_next_vols r
Steps-IsBounded r steps on =
    let (tried, v) = Steps-Fed steps on in omega (arith, v.sound.counted, v.room)
