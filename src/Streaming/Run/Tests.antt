-- ===== src/Streaming/Run/Tests.antt =====
-- Requests for a few chunks.
use hydraria.Prelude.{◌≤◌, ◌<◌, ◌≡◌, refl, false, [], ◌∷◌, ◌++◌, length, replicate, arith}
use hydraria.Streaming.{
  Request, update, vol_at, spawn_fetch, first, overflowing, pick, take_sender, spawn_loop, limit_at,
  try_spawn_more, covers, warm, warm_loop, warm_up, new_window, first_window, count_down,
  count_down_all,
}
use hydraria.Streaming.Run.{
  bytes, Stream, stream_range, deliver, delivers, passes, serves, sends, drops, releases, Steps,
  starts, goes_on,
}
use hydraria.Streaming.Run.Served.{Steps-IsBounded}
use hydraria.Streaming.Run.InOrder.{up_to, any_err, Steps-InOrder}

-- Ten chunks of one volume, which takes four fetchers: the other threads are used all the same.
abbrev one_volume : Request
one_volume = record {
  max_threads = 8;
  max_per_volume = 4;
  total_chunks = 10;
  vol_count = 1;
  vol_of = replicate 10 0;
  open_ended = false;
}

overflows : (try_spawn_more one_volume 0 new_window).fetchers ≡ 0 ∷ 1 ∷ 2 ∷ 3 ∷ 4 ∷ 5 ∷ 6 ∷ 7 ∷ []
unfolding try_spawn_more spawn_loop pick overflowing take_sender spawn_fetch limit_at first vol_at
overflows = refl

-- Two threads, and three volumes of two chunks.
abbrev volumes : Request
volumes = record {
  max_threads = 2;
  max_per_volume = 4;
  total_chunks = 6;
  vol_count = 3;
  vol_of = 0 ∷ 0 ∷ 1 ∷ 1 ∷ 2 ∷ 2 ∷ [];
  open_ended = false;
}

warmed : (first_window volumes).fetchers ≡ 0 ∷ 1 ∷ 2 ∷ 4 ∷ []
unfolding first_window warm_up warm_loop covers warm try_spawn_more spawn_loop pick overflowing
    take_sender spawn_fetch limit_at first vol_at
warmed = refl

-- The second chunk is there first.
abbrev later_first : Stream
later_first = record (stream_range volumes) {
  sent = update (λ idx. []) 1 (bytes (8 ∷ []) ∷ []);
  queue = update (λ idx. []) 1 (bytes (8 ∷ []) ∷ []);
}

abbrev both : Stream
both = record later_first {
  sent = update later_first.sent 0 (bytes (7 ∷ []) ∷ []);
  queue = update later_first.queue 0 (bytes (7 ∷ []) ∷ []);
}

abbrev passed_on : Stream
passed_on = deliver volumes (bytes (7 ∷ [])) [] both

both_sent : Steps volumes both
unfolding first_window warm_up warm_loop covers warm try_spawn_more spawn_loop pick overflowing
    take_sender spawn_fetch limit_at first vol_at
both_sent =
    goes_on (goes_on starts (sends 1 (bytes (8 ∷ [])) refl refl refl))
      (sends 0 (bytes (7 ∷ [])) refl refl refl)

steps : Steps volumes passed_on
steps = goes_on both_sent (serves (delivers (bytes (7 ∷ [])) [] refl (omega arith) refl))

Steps-InOrder_example :
    (passed_on.out ++ passed_on.queue passed_on.head
      ≡ up_to passed_on.sent passed_on.head ++ passed_on.sent passed_on.head)
    × (passed_on.head ≡ 6 → passed_on.out ≡ up_to passed_on.sent 6)
    × (passed_on.ended ≡ false → any_err passed_on.out ≡ false)
Steps-InOrder_example = Steps-InOrder steps

Steps-IsBounded_example : length both.window.fetchers ≤ 5
Steps-IsBounded_example = Steps-IsBounded volumes both_sent refl

-- With one thread, the fetcher of the second chunk sends nothing, and is done before the last item
-- of the first chunk is received. Nothing is at work then, and nothing is left to receive: the
-- client waits for the third chunk, which nobody fetches.
abbrev one_thread : Request
one_thread = record {
  max_threads = 1;
  max_per_volume = 1;
  total_chunks = 3;
  vol_count = 1;
  vol_of = replicate 3 0;
  open_ended = false;
}

waits_in_vain :
    (s : Stream) × Steps one_thread s
    × (s.ended ≡ false)
    × (s.head ≡ 2)
    × (s.queue 2 ≡ [])
    × (s.closed 2 ≡ false)
    × (s.releases ≡ [])
    × (s.window.fetchers ≡ [])
unfolding first_window warm_up warm_loop covers warm try_spawn_more spawn_loop pick overflowing
    take_sender spawn_fetch limit_at first vol_at deliver count_down count_down_all
waits_in_vain =
    let item = bytes (7 ∷ []) in
    let at_first : 0 < 3 = omega arith in
    let at_second : 1 < 3 = omega arith in
    let s0 = goes_on (goes_on starts (sends 0 item refl refl refl)) (sends 0 item refl refl refl) in
    let s1 = goes_on (goes_on s0 (drops 0 refl refl refl)) (releases 0 [] [] refl refl refl) in
    let s2 = goes_on s1 (serves (delivers item (item ∷ []) refl at_first refl)) in
    let s3 = goes_on (goes_on s2 (drops 1 refl refl refl)) (releases 1 [] [] refl refl refl) in
    let s4 = goes_on s3 (serves (delivers item [] refl at_first refl)) in
    let s5 = goes_on s4 (serves (passes refl at_first refl refl)) in
    (_, goes_on s5 (serves (passes refl at_second refl refl)), refl, refl, refl, refl, refl, refl)
