-- ===== src/Streaming/Run.antt =====
-- src/engine.rs, `stream_range`: the steps of the fetchers and of the serializer, in any order.
pub mod Fed
pub mod Served
pub mod InOrder
pub mod Tests
use hydraria.Prelude.{
  ℕ, ◌+◌, ◌<◌, ◌≡◌, Bool, true, false, ◌||◌, List, [], ◌∷◌, ◌++◌, length, ◌==◌, if◌then◌else◌,
}
use hydraria.Fetch.Stream.Attempts.{ProxyError}
use hydraria.Streaming.{
  Request, Window, update, vol_at, try_spawn_more, count_down, count_down_all, first_window,
}

pub data Item : Type 0 where
  bytes : List ℕ → Item
  error : ProxyError → Item

abbrev pub is_err : Item → Bool
is_err (bytes b) = false
is_err (error e) = true

-- The channel of each chunk: all that was sent on it, what of that has not been received, and
-- whether its sender is dropped. `ended` means that the task has returned.
pub record Stream : Type 0 where
  pub window : Window
  pub sent : ℕ → List Item
  pub queue : ℕ → List Item
  pub closed : ℕ → Bool
  pub releases : List ℕ
  pub head : ℕ
  pub out : List Item
  pub ended : Bool

abbrev pub stream_range : Request → Stream
stream_range r = record {
  window = first_window r;
  sent = λ idx. [];
  queue = λ idx. [];
  closed = λ idx. false;
  releases = [];
  head = 0;
  out = [];
  ended = false;
}

abbrev pub is_in : ℕ → List ℕ → Bool
is_in i [] = false
is_in i (j ∷ js) = let later = is_in i js in i == j || later

-- The serializer receives an item of its chunk, and the client takes it.
pub deliver : Request → Item → List Item → Stream → Stream
deliver r item rest s =
    let passed = record s {
      queue = update s.queue s.head rest;
      out = s.out ++ item ∷ [];
      ended = is_err item;
    } in
    if is_err item then passed else record passed {
      window = try_spawn_more r s.head (count_down_all r s.releases s.window);
      releases = [];
    }

-- It receives a release.
pub take_release : Request → ℕ → List ℕ → Stream → Stream
take_release r vi rest s = record s {
  window = try_spawn_more r s.head (count_down r vi s.window);
  releases = rest;
}

-- What the serializer does next: `select!` asks the channel of its chunk first.
pub data Serve (r : Request) (s : Stream) : Stream → Type 0 where
  delivers :
      (item : Item) (rest : List Item)
      → s.ended ≡ false
      → s.head < r.total_chunks
      → s.queue s.head ≡ item ∷ rest
      → Serve r s (deliver r item rest s)
  takes :
      (vi : ℕ) (rest : List ℕ)
      → s.ended ≡ false
      → s.head < r.total_chunks
      → s.queue s.head ≡ []
      → s.closed s.head ≡ false
      → s.releases ≡ vi ∷ rest
      → Serve r s (take_release r vi rest s)
  passes :
      s.ended ≡ false
      → s.head < r.total_chunks
      → s.queue s.head ≡ []
      → s.closed s.head ≡ true
      → Serve r s (record s { head = s.head + 1 })

-- A fetcher sends items, drops its sender, and sends its release.
pub data Step (r : Request) (s : Stream) : Stream → Type 0 where
  serves : {t : Stream} → Serve r s t → Step r s t
  sends :
      (idx : ℕ) (item : Item)
      → s.ended ≡ false
      → is_in idx s.window.fetchers ≡ true
      → s.closed idx ≡ false
      → Step r s (record s {
        sent = update s.sent idx (s.sent idx ++ item ∷ []);
        queue = update s.queue idx (s.queue idx ++ item ∷ []);
      })
  drops :
      (idx : ℕ)
      → s.ended ≡ false
      → is_in idx s.window.fetchers ≡ true
      → s.closed idx ≡ false
      → Step r s (record s { closed = update s.closed idx true })
  releases :
      (idx : ℕ) (front back : List ℕ)
      → s.ended ≡ false
      → s.window.fetchers ≡ front ++ idx ∷ back
      → s.closed idx ≡ true
      → Step r s (record s {
        window = record s.window { fetchers = front ++ back };
        releases = s.releases ++ vol_at r idx ∷ [];
      })
  -- The client is gone.
  leaves : s.ended ≡ false → Step r s (record s { ended = true })

pub data Steps (r : Request) : Stream → Type 0 where
  starts : Steps r (stream_range r)
  goes_on : {s t : Stream} → Steps r s → Step r s t → Steps r t
