-- ===== src/Download/Run/Kept.antt =====
-- What reserving, writing, advancing and finishing leave of the bytes that are on disk or owned.
use hydraria.Prelude.{
  ℕ, ◌+◌, ◌≤◌, ◌<◌, ◌≡◌, refl, ◌∙◌, ap, Bool, true, false, not, ◌&&◌, List, none, some, length,
  get_elem?, ltb, leb, arith, Bool-cases, inl, inr,
}
use hydraria.Cache.Entry.{write_range, present}
use hydraria.Cache.Entry.Written.{write_range-IsValid, write_range-present}
use hydraria.Cache.Entry.Accepted.{write_range-meta}
use hydraria.Schedule.State.{Scheduler, Live, IsLayout, reserve, advance_to}
use hydraria.Schedule.Create.{new}
use hydraria.Schedule.Release.{split_off, finish, release, release_found}
use hydraria.Schedule.Owners.{owes, one_if, owners, IsPlaced, IsSound}
use hydraria.Schedule.Owners.Counting.{owners_in-set, All-set, All-get}
use hydraria.Schedule.Owners.Taking.{Keeps}
use hydraria.Schedule.Owners.Removing.{split_off-Parts}
use hydraria.Schedule.Owners.Finishing.{finish-Keeps, not_owed}
use hydraria.Schedule.Owners.Winning.{Wins, finish-Wins}
use hydraria.Download.{Engine}
use hydraria.Download.Run.{System, put_claim, IsDue, gone, stops, gives_up, wins}
use hydraria.Download.Run.Invariant.{IsAnswered, Keeps-IsAnswered}

-- A claim that owes no more than the one whose place it takes.
module _ (s : Scheduler) (v : IsSound s) (pos : ℕ) (l l' : Live)
    (there : get_elem? s.live pos ≡ some l) where
  put_claim-IsSound :
      l'.start ≡ l.start
      → l'.end ≡ l.end
      → l.cursor ≤ l'.cursor
      → l'.hedge_of ≡ l.hedge_of
      → IsSound (put_claim s pos l')
  put_claim-IsSound begin stop forward hedge =
      let old = All-get (IsPlaced s.volumes s.req_end) s.live pos v.placed there in
      record {
        word = v.word;
        sorted = v.sorted;
        placed = All-set (IsPlaced s.volumes s.req_end) s.live pos l' v.placed (record {
          begun = omega (arith, old.begun);
          bounded = omega (arith, old.bounded);
          one_volume = λ p x q r e.
              rw stop (old.one_volume (rw hedge at p) x (rw begin at q) (rw stop at r) e);
        });
      }

  owners-put_claim :
      (x : ℕ) → owners (put_claim s pos l') x + one_if (owes l x) ≡ owners s x + one_if (owes l' x)
  owners-put_claim x = omega (arith, owners_in-set s.live pos l l' x there)

reserve-owes : (l : Live) (next x : ℕ) → next ≤ l.end + 1 → owes (reserve l next) x ≡ owes l x
unfolding reserve
reserve-owes l next x h = ground arith

advance_to-owes :
    (l : Live) (next x : ℕ)
    → l.cursor ≤ next
    → one_if (owes (advance_to l next) x) ≡ one_if (not (leb l.cursor x && ltb x next) && owes l x)
unfolding advance_to
advance_to-owes l next x h = ground arith

-- A hedge that stops short of its end owed nothing, and gives nothing back.
gives_up-Keeps :
    (s : Scheduler) (worker : ℕ) (l : Live) (others : List Live) (primary : ℕ)
    → IsSound s
    → split_off s.live worker ≡ some (l, others)
    → l.hedge_of ≡ some primary
    → l.cursor ≤ l.end
    → Keeps s (finish s worker l.cursor)
unfolding finish release_found release
gives_up-Keeps s worker l others primary v at hedge short =
    let parts = split_off-Parts (IsPlaced s.volumes s.req_end) s.live worker at in
    let going : ltb l.end l.cursor ≡ false = ground arith in
    rw (at, hedge, going)
      (record {
        owned = λ x.
            (let nothing : one_if (owes l x) ≡ 0 = not_owed l x (rw hedge refl) in
              omega (arith, parts.owned x));
        sound = record { word = v.word; sorted = v.sorted; placed = (parts.all v.placed).1 };
        volumes = refl;
      })

-- A worker without a claim has nothing to give back.
gone-finish :
    (s : Scheduler) (worker reached : ℕ)
    → split_off s.live worker ≡ none
    → finish s worker reached ≡ s
unfolding finish release_found
gone-finish s worker reached none_left = rw none_left refl

module _ {Disk : Type 0} (engine : Engine) (layout : IsLayout engine.volumes) (total : ℕ)
    (some_bytes : 0 < total) where
  pub reserves-IsAnswered :
      {y : System Disk} (pos to : ℕ) (l : Live)
      → IsAnswered engine total y
      → get_elem? y.scheduler.live pos ≡ some l
      → to ≤ l.end + 1
      → IsAnswered engine total (record y { scheduler = put_claim y.scheduler pos (reserve l to) })
  reserves-IsAnswered {y} pos to l a there inside = Keeps-IsAnswered a (record {
    owned = λ x.
        let same = reserve-owes l to x inside in
        let moved =
          rw same at (owners-put_claim y.scheduler a.sound pos l (reserve l to) there x) in
        omega arith;
    sound =
        put_claim-IsSound y.scheduler a.sound pos l (reserve l to) there (unfold reserve in refl)
          (unfold reserve in refl) (unfold reserve in omega arith) (unfold reserve in refl);
    volumes = refl;
  })

  pub advances-IsAnswered :
      {y : System Disk} (pos to : ℕ) (l : Live)
      → IsAnswered engine total y
      → get_elem? y.scheduler.live pos ≡ some l
      → l.cursor ≤ to
      → ((x : ℕ) → l.cursor ≤ x → x < to → present y.entry x ≡ true)
      → IsAnswered engine total
          (record y { scheduler = put_claim y.scheduler pos (advance_to l to) })
  advances-IsAnswered {y} pos to l a there forward landed =
      let moved = owners-put_claim y.scheduler a.sound pos l (advance_to l to) there in
      let less = λ (x : ℕ). advance_to-owes l to x forward in
      record {
        valid = a.valid;
        size = a.size;
        sound =
            put_claim-IsSound y.scheduler a.sound pos l (advance_to l to) there
              (unfold advance_to in refl) (unfold advance_to in refl) (unfold advance_to in forward)
              (unfold advance_to in refl);
        volumes = a.volumes;
        exclusive = λ x.
            let fewer : one_if (not (leb l.cursor x && ltb x to) && owes l x) ≤ one_if (owes l x) =
              ground arith in
            omega (arith, moved x, less x, a.exclusive x);
        answered = λ x h. elim (a.answered x h) [
          | inl here ↦ inl here
          | inr owned ↦ elim (Bool-cases (leb l.cursor x && ltb x to)) [
            | inl new ↦ inl (landed x (ground arith) (ground arith))
            | inr old ↦ inr (let same = rw old at (less x) in omega (arith, moved x))
          ]
        ];
      }

  Wins-IsAnswered :
      {y : System Disk} {t : Scheduler} (l : Live)
      → IsAnswered engine total y
      → Wins l y.scheduler t
      → ((x : ℕ) → l.start ≤ x → x ≤ l.end → present y.entry x ≡ true)
      → IsAnswered engine total (record y { scheduler = t })
  Wins-IsAnswered l a w landed = record {
    valid = a.valid;
    size = a.size;
    sound = w.sound;
    volumes = w.volumes ∙ a.volumes;
    exclusive = λ x. omega (arith, w.fewer x, a.exclusive x);
    answered = λ x h. elim (a.answered x h) [
      | inl there ↦ inl there
      | inr owned ↦ elim (Bool-cases (leb l.start x && leb x l.end)) [
        | inl inside ↦ inl (landed x (ground arith) (ground arith))
        | inr out ↦ inr (w.kept x out ∙ owned)
      ]
    ];
  }

  pub writes-IsAnswered :
      (pwrite_all : Disk → List ℕ → ℕ → Disk × Bool) (replace_bitmap : Disk → List ℕ → Disk × Bool)
      {y : System Disk} (at : ℕ) (content : List ℕ)
      → IsAnswered engine total y
      → at + length content ≤ y.entry.meta.total_size
      → IsAnswered engine total
          (record y { entry = (write_range pwrite_all replace_bitmap y.entry at content).0 })
  writes-IsAnswered pwrite_all replace_bitmap {y} at content a inside = record {
    valid = write_range-IsValid pwrite_all replace_bitmap y.entry at content inside a.valid;
    size =
        ap (λ m. m.total_size) (write_range-meta pwrite_all replace_bitmap y.entry at content)
        ∙ a.size;
    sound = a.sound;
    volumes = a.volumes;
    exclusive = a.exclusive;
    answered = λ x h. elim (a.answered x h) [
      | inr owned ↦ inr owned
      | inl there ↦ inl (
          write_range-present pwrite_all replace_bitmap y.entry at content x inside a.valid
            (omega (arith, a.size))
          ∙ rw there (ground arith))
    ];
  }

  pub finishes-IsAnswered :
      {y : System Disk} (worker reached : ℕ)
      → IsAnswered engine total y
      → IsDue y worker reached
      → IsAnswered engine total (record y { scheduler = finish y.scheduler worker reached })
  finishes-IsAnswered {y} worker reached a (gone none_left) =
      rw (gone-finish y.scheduler worker reached none_left) a
  finishes-IsAnswered {y} worker reached a (stops l others at here primary settled) = rw here (
      Keeps-IsAnswered a
        (finish-Keeps y.scheduler worker l others a.sound a.exclusive at primary settled))
  finishes-IsAnswered {y} worker reached a (gives_up l others primary at here hedge short) =
      rw here (
        Keeps-IsAnswered a
          (gives_up-Keeps y.scheduler worker l others primary a.sound at hedge short))
  finishes-IsAnswered {y} worker reached a
        (wins l others primary at here hedge over landed covers) =
      rw here (
        Wins-IsAnswered l a
          (finish-Wins y.scheduler worker primary l others a.sound at hedge covers over) landed)
