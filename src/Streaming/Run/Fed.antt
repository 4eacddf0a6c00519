-- ===== src/Streaming/Run/Fed.antt =====
-- src/engine.rs, `stream_range`: what holds whenever the serializer looks for something to do.
use hydraria.Prelude.{
  ℕ, ◌+◌, ◌≤◌, ◌<◌, ◌≡◌, refl, sym, ◌∙◌, ap, ◌⊎◌, inl, inr, true, false, List, [], ◌∷◌, ◌++◌,
  length, length-append, ==_iff, arith,
}
use mathlib.Core.Path.{subst}
use hydraria.Streaming.{
  Request, Window, vol_at, limit_at, try_spawn_more, count_down, count_down_all, warmup_next_vols,
  new_window, first_window,
}
use hydraria.Streaming.Windows.{IsSound, is_in-append, count_down-IsSound, count_down_all-IsSound}
use hydraria.Streaming.Spawning.{
  IsFull, try_spawn_more-IsSound, try_spawn_more-IsFull, try_spawn_more_bounds,
}
use hydraria.Streaming.Warming.{warm_up-Keeps}
use hydraria.Streaming.Run.{
  bytes, error, Stream, stream_range, is_in, deliver, take_release, Serve, delivers, takes, passes,
  Step, serves, sends, drops, releases, leaves, Steps, starts, goes_on,
}

-- Each fetcher that has dropped its sender has sent an item.
abbrev pub Filled : Stream → Type 0
Filled s = (idx : ℕ) → s.closed idx ≡ true → 0 < length (s.sent idx)

-- `tried` is where the serializer was when it last tried to spawn: at its chunk, or at the one
-- before, and then nothing of the chunk has been received.
pub record IsFed (r : Request) (s : Stream) (tried : ℕ) : Type 0 where
  pub sound : IsSound r s.closed (length s.releases) s.window
  pub room : s.window.total_in_flight ≤ r.max_threads + warmup_next_vols r
  pub full : IsFull r (limit_at r tried) s.window
  pub recent :
      Filled s → (tried ≡ s.head) ⊎ ((tried + 1 ≡ s.head) × (s.queue s.head ≡ s.sent s.head))
  ahead : (idx : ℕ) → s.head < idx → s.queue idx ≡ s.sent idx

abbrev pub Fed : Request → Stream → Type 0
Fed r s = (tried : ℕ) × IsFed r s tried

count_down_bounds :
    (r : Request) (vis : List ℕ) (w : Window) (cap : ℕ)
    → w.total_in_flight ≤ cap
    → (count_down_all r vis w).total_in_flight ≤ cap
unfolding count_down_all count_down
count_down_bounds r [] w cap h = h
count_down_bounds r (vi ∷ vis) w cap h =
    count_down_bounds r vis (count_down r vi w) cap (omega arith)

starts-IsFed : (r : Request) → IsFed r (stream_range r) 0
unfolding first_window
starts-IsFed r =
    let w = try_spawn_more r 0 new_window in
    let empty : IsSound r (λ idx. false) 0 new_window = record {
      counted = refl;
      ready = λ idx e. refl;
      alive = λ idx e f. cc;
      placed = λ idx e. cc;
    } in
    let few = try_spawn_more_bounds r 0 0 new_window (omega arith) in
    let k =
      warm_up-Keeps r (λ idx. false) 0 (limit_at r 0) (r.max_threads + warmup_next_vols r) w
        (try_spawn_more-IsSound r 0 new_window empty) (try_spawn_more-IsFull r 0 new_window)
        (omega (arith, few)) in
    record {
      sound = k.0;
      room = k.2;
      full = k.1;
      recent = λ filled. inl refl;
      ahead = λ idx h. refl;
    }

pub was_on : {r : Request} {s t : Stream} → Step r s t → s.ended ≡ false
was_on (serves (delivers item rest on inside e)) = on
was_on (serves (takes vi rest on inside e f g)) = on
was_on (serves (passes on inside e f)) = on
was_on (sends idx item on at live) = on
was_on (drops idx on at live) = on
was_on (releases idx front back on e over) = on
was_on (leaves on) = on

-- What was sent before a sender was dropped is what was sent on it.
Step-Filled : {r : Request} {s t : Stream} → Step r s t → Filled t → Filled s
unfolding deliver take_release
Step-Filled (serves (delivers (error e) rest on inside q)) filled = filled
Step-Filled (serves (delivers (bytes b) rest on inside q)) filled = filled
Step-Filled (serves (takes vi rest on inside e f g)) filled = filled
Step-Filled (serves (passes on inside e f)) filled = filled
Step-Filled (sends idx item on at live) filled = λ j e. ground (arith, filled j e, ==_iff j idx)
Step-Filled (drops idx on at live) filled = λ j e. ground (arith, filled j, ==_iff j idx)
Step-Filled (releases idx front back on e over) filled = filled
Step-Filled (leaves on) filled = filled

module _ (r : Request) (s : Stream) where
  Serve-Fed : {t : Stream} → Serve r s t → t.ended ≡ false → Fed r s → Fed r t
  unfolding deliver take_release
  Serve-Fed (delivers (error e) rest on inside q) still d = cc
  Serve-Fed (delivers (bytes b) rest on inside q) still (tried, v) =
      let w = count_down_all r s.releases s.window in
      (
        s.head,
        record {
          sound =
              try_spawn_more-IsSound r s.head w
                (count_down_all-IsSound r s.releases s.window v.sound);
          room =
              try_spawn_more_bounds r (warmup_next_vols r) s.head w (
                count_down_bounds r s.releases s.window (r.max_threads + warmup_next_vols r)
                  v.room);
          full = try_spawn_more-IsFull r s.head w;
          recent = λ filled. inl refl;
          ahead = λ idx h. ground (arith, v.ahead idx, ==_iff idx s.head);
        },
      )
  Serve-Fed (takes vi rest on inside e f g) still (tried, v) =
      let sound =
        count_down-IsSound r vi s.window
          (subst (λ l. IsSound r s.closed (length l) s.window) g v.sound) in
      let w = count_down r vi s.window in
      (
        s.head,
        record {
          sound = try_spawn_more-IsSound r s.head w sound;
          room =
              try_spawn_more_bounds r (warmup_next_vols r) s.head w
                (unfold count_down in omega (arith, v.room));
          full = try_spawn_more-IsFull r s.head w;
          recent = λ filled. inl refl;
          ahead = λ idx h. ground (arith, v.ahead idx, ==_iff idx s.head);
        },
      )
  Serve-Fed (passes on inside e f) still (tried, v) = (
    tried,
    record {
      sound = v.sound;
      room = v.room;
      full = v.full;
      recent = λ filled.
          let here : tried ≡ s.head = elim (v.recent filled) [
            | inl same ↦ same
            | inr (next, none_yet) ↦
                absurd (omega (arith, ap length (sym none_yet ∙ e), filled s.head f))
          ] in
          inr (omega (arith, here), v.ahead (s.head + 1) (omega arith));
      ahead = λ idx h. v.ahead idx (omega arith);
    },
  )

  Step-Fed : {t : Stream} → Step r s t → t.ended ≡ false → Fed r s → Fed r t
  Step-Fed (serves step) still d = Serve-Fed step still d
  Step-Fed (sends idx item on at live) still (tried, v) = (
    tried,
    record {
      sound = v.sound;
      room = v.room;
      full = v.full;
      recent = λ filled.
          elim (v.recent (Step-Filled {r = r} {s = s} (sends idx item on at live) filled)) [
            | inl same ↦ inl same
            | inr (next, none_yet) ↦ inr (next, ground (arith, none_yet))
          ];
      ahead = λ j h. ground (arith, v.ahead j h);
    },
  )
  Step-Fed (drops idx on at live) still (tried, v) = (
    tried,
    record {
      sound = record {
        counted = v.sound.counted;
        ready = v.sound.ready;
        alive = λ j e f. ground (arith, v.sound.alive j e);
        placed = v.sound.placed;
      };
      room = v.room;
      full = v.full;
      recent = λ filled. v.recent (Step-Filled {r = r} {s = s} (drops idx on at live) filled);
      ahead = v.ahead;
    },
  )
  Step-Fed (releases idx front back on e over) still (tried, v) = (
    tried,
    record {
      sound = record {
        counted = omega (
          arith,
          v.sound.counted,
          ap length e,
          length-append front (idx ∷ back),
          length-append front back,
          length-append s.releases (vol_at r idx ∷ []),
        );
        ready = v.sound.ready;
        alive = λ j f g.
            let was : is_in j (front ++ idx ∷ back) ≡ true =
              subst (λ l. is_in j l ≡ true) e (v.sound.alive j f g) in
            ground (
              arith,
              was,
              is_in-append j front (idx ∷ back),
              is_in-append j front back,
              ==_iff j idx,
            );
        placed = λ j f.
            let was : is_in j (front ++ idx ∷ back) ≡ true =
              ground (arith, is_in-append j front (idx ∷ back), is_in-append j front back) in
            v.sound.placed j (subst (λ l. is_in j l ≡ true) (sym e) was);
      };
      room = v.room;
      full = v.full;
      recent = v.recent;
      ahead = v.ahead;
    },
  )
  Step-Fed (leaves on) still d = cc

pub Steps-Fed : {r : Request} {s : Stream} → Steps r s → s.ended ≡ false → Fed r s
Steps-Fed {r} starts on = (0, starts-IsFed r)
Steps-Fed {r} (goes_on {s} before step) on = Step-Fed r s step on (Steps-Fed before (was_on step))
