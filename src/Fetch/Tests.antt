-- ===== src/Fetch/Tests.antt =====
-- Runs of a fetch: a file of ten bytes, as one volume on two mirrors.
use Prim.Native.String.{String}
use hydraria.Prelude.{
  ℕ, zero, suc, ◌+◌, ◌≤◌, ◌≡◌, ◌⊎◌, refl, true, List, [], ◌∷◌, map, length, none, some, arith, ap,
}
use hydraria.Schedule.State.{VolumeMeta}
use hydraria.Cache.Tests.{write_disk, keep_disk, new_entry, new_entry-IsValid}
use hydraria.Fetch.Pipeline.{ByteTransform}
use hydraria.Fetch.Target.{Health, volume_at}
use hydraria.Fetch.Stream.{Round, received, failed, going, stopped, respond}
use hydraria.Fetch.Stream.Complete.{supplied, respond-completes}
use hydraria.Fetch.Stream.Attempts.{Attempt, io_error, fetch_claim}
use hydraria.Fetch.Stream.Attempts.Resuming.{EndsInside, IsKept, fetch_claim-IsKept}

abbrev flip : ℕ → ℕ
flip zero = 1
flip (suc zero) = 0
flip (suc (suc n)) = suc (suc n)

flip-flip : (bytes : List ℕ) → map flip (map flip bytes) ≡ bytes
flip-flip [] = refl
flip-flip (zero ∷ bs) = ap (λ xs. zero ∷ xs) (flip-flip bs)
flip-flip (suc zero ∷ bs) = ap (λ xs. suc zero ∷ xs) (flip-flip bs)
flip-flip (suc (suc n) ∷ bs) = ap (λ xs. suc (suc n) ∷ xs) (flip-flip bs)

length-flip : (bytes : List ℕ) → length (map flip bytes) ≡ length bytes
length-flip [] = refl
length-flip (b ∷ bs) = omega (arith, length-flip bs)

abbrev flipping : ByteTransform
flipping = record { transform = λ o bytes. map flip bytes; in_place = λ o bytes. length-flip bytes }

abbrev mirrors : List String
mirrors = "https://a.example/file" ∷ "https://b.example/file" ∷ []

abbrev busy_mirror : Health
busy_mirror = record {
  url = "https://a.example/file";
  current_speed_bps = 4096;
  failed_requests = 1;
  successful_requests = 3;
}

abbrev file_volume : VolumeMeta
file_volume = record { offset = 0; size = 10; urls = mirrors }

at_volume : volume_at (file_volume ∷ []) 2 ≡ some file_volume
unfolding volume_at
at_volume = refl

-- Two items; a reader waits for the first.
abbrev body : List Round
body =
    record { item = received (7 ∷ 8 ∷ []); live_end = 6; write_through_below = 4 }
    ∷ record { item = received (9 ∷ 5 ∷ 6 ∷ []); live_end = 6; write_through_below = 4 }
    ∷ []

abbrev cut_body : List Round
cut_body =
    record { item = received (7 ∷ 8 ∷ []); live_end = 6; write_through_below = 4 }
    ∷ record { item = failed; live_end = 6; write_through_below = 4 }
    ∷ []

supplies : 6 + 1 ≤ 3 + supplied body
unfolding supplied
supplies = omega arith

respond-completes_example :
    ((respond write_disk keep_disk none true 3 3 new_entry body).0.published ≡ 6 + 1)
    × (((respond write_disk keep_disk none true 3 3 new_entry body).1 ≡ going)
        ⊎ ((respond write_disk keep_disk none true 3 3 new_entry body).1 ≡ stopped))
respond-completes_example =
    respond-completes write_disk keep_disk none true 6 (omega arith) (λ d b a. refl) (λ d b. refl) 3
      3 new_entry body (refl, (7 ∷ 8 ∷ [], refl), (refl, (9 ∷ 5 ∷ 6 ∷ [], refl), tt)) (omega arith)
      supplies

-- The first attempt breaks off after two bytes, the second brings the rest.
abbrev met : ℕ → Attempt
met zero = record {
  claim_end = 6;
  headers = true;
  health = [];
  response = some (record { status = 206; same_etag = true; rounds = cut_body });
}
met (suc n) = record {
  claim_end = 6;
  headers = true;
  health = [];
  response = some (record { status = 206; same_etag = true; rounds = body });
}

met-inside : (attempt : ℕ) → EndsInside 10 (met attempt).response
unfolding EndsInside
met-inside zero = (omega arith, (omega arith, tt))
met-inside (suc n) = (omega arith, (omega arith, tt))

fetch_claim-IsKept_example :
    ((fetch_claim write_disk keep_disk none true mirrors none 0 3 met
        (record { cursor = 3; reserved = 3; sink = new_entry })).1
      ≡ some io_error)
    ⊎ IsKept 10 3 new_entry
        (fetch_claim write_disk keep_disk none true mirrors none 0 3 met
          (record { cursor = 3; reserved = 3; sink = new_entry })).0
fetch_claim-IsKept_example =
    fetch_claim-IsKept write_disk keep_disk none true 10 (omega arith) 3 new_entry mirrors none 0 3
      (omega arith) met met-inside 3 new_entry-IsValid refl (omega arith) (omega arith)
