-- ===== src/Streaming/Run/InOrder.antt =====
-- src/engine.rs, `stream_range`: the client gets the chunks in the order of the plan.
use hydraria.Prelude.{
  ℕ, zero, suc, ◌+◌, ◌≤◌, ◌<◌, ◌≡◌, refl, sym, ap, ◌∙◌, Bool, true, false, ◌||◌, List, [], ◌∷◌,
  ◌++◌, ◌==◌, ==_iff, arith, Bool-cases, inl, inr,
}
use mathlib.Core.List.{append_assoc, append-nil}
use mathlib.Core.Path.{subst}
use hydraria.Streaming.{Request, update}
use hydraria.Streaming.Run.{
  Item, bytes, error, is_err, Stream, deliver, take_release, Serve, delivers, takes, passes, Step,
  serves, sends, drops, releases, leaves, Steps, starts, goes_on, is_in,
}
use hydraria.Streaming.Run.Fed.{Steps-Fed, was_on}

-- What the fetchers of the first `n` chunks have sent, chunk by chunk.
pub up_to : (ℕ → List Item) → ℕ → List Item
up_to sent zero = []
up_to sent (suc n) = up_to sent n ++ sent n

abbrev pub any_err : List Item → Bool
any_err [] = false
any_err (item ∷ items) = is_err item || any_err items

record IsOrdered (r : Request) (s : Stream) : Type 0 where
  passed : s.out ++ s.queue s.head ≡ up_to s.sent (suc s.head)
  ahead : (idx : ℕ) → s.head < idx → s.queue idx ≡ s.sent idx
  behind : (idx : ℕ) → idx < s.head → s.closed idx ≡ true
  beyond : (idx : ℕ) → r.total_chunks ≤ idx → (s.queue idx ≡ []) × (s.sent idx ≡ [])
  clean : s.ended ≡ false → any_err s.out ≡ false

up_to-update :
    (sent : ℕ → List Item) (idx : ℕ) (items : List Item) (n : ℕ)
    → n ≤ idx
    → up_to (update sent idx items) n ≡ up_to sent n
unfolding up_to
up_to-update sent idx items zero h = refl
up_to-update sent idx items (suc n) h =
    let other : (n == idx) ≡ false = ground (arith, ==_iff n idx) in
    rw (other, up_to-update sent idx items n (omega arith)) refl

any_err-append : (xs ys : List Item) → any_err (xs ++ ys) ≡ (any_err xs || any_err ys)
any_err-append [] ys = refl
any_err-append (x ∷ xs) ys = ground (arith, any_err-append xs ys)

eq_self : (n : ℕ) → (n == n) ≡ true
eq_self n = (==_iff n n).1 refl

handed_on :
    (out : List Item) {rest q all : List Item} (item : Item)
    → q ≡ item ∷ rest
    → out ++ q ≡ all
    → (out ++ item ∷ []) ++ rest ≡ all
handed_on out {rest} item e p =
    append_assoc out (item ∷ []) rest ∙ ap (λ (l : List Item). out ++ l) (sym e) ∙ p

-- The serializer's chunk gets one more item.
sent_here :
    {r : Request} (s : Stream) (item : Item)
    → IsOrdered r s
    → s.out ++ (s.queue s.head ++ item ∷ [])
      ≡ up_to (update s.sent s.head (s.sent s.head ++ item ∷ [])) (suc s.head)
sent_here s item v =
    let items = s.sent s.head ++ item ∷ [] in
    let old : s.out ++ s.queue s.head ≡ up_to s.sent s.head ++ s.sent s.head =
      unfold up_to in v.passed in
    let grown : s.out ++ (s.queue s.head ++ item ∷ []) ≡ up_to s.sent s.head ++ items =
      sym (append_assoc s.out (s.queue s.head) (item ∷ []))
      ∙ ap (λ (l : List Item). l ++ item ∷ []) old
      ∙ append_assoc (up_to s.sent s.head) (s.sent s.head) (item ∷ []) in
    let before = up_to-update s.sent s.head items s.head (omega arith) in
    unfold up_to in rw (eq_self s.head, before) grown

Serve-IsOrdered : {r : Request} {s t : Stream} → Serve r s t → IsOrdered r s → IsOrdered r t
unfolding deliver take_release
Serve-IsOrdered {s} (delivers (error wrong) rest on inside e) v = record {
  passed = rw (eq_self s.head) (handed_on s.out (error wrong) e v.passed);
  ahead = λ idx h. ground (arith, v.ahead idx, ==_iff idx s.head);
  behind = v.behind;
  beyond = λ idx h. ground (arith, v.beyond idx h, ==_iff idx s.head);
  clean = λ still. cc;
}
Serve-IsOrdered {s} (delivers (bytes b) rest on inside e) v = record {
  passed = rw (eq_self s.head) (handed_on s.out (bytes b) e v.passed);
  ahead = λ idx h. ground (arith, v.ahead idx, ==_iff idx s.head);
  behind = v.behind;
  beyond = λ idx h. ground (arith, v.beyond idx h, ==_iff idx s.head);
  clean = λ still. any_err-append s.out (bytes b ∷ []) ∙ ground (arith, v.clean on);
}
Serve-IsOrdered (takes vi rest on inside e f g) v = record {
  passed = v.passed;
  ahead = v.ahead;
  behind = v.behind;
  beyond = v.beyond;
  clean = v.clean;
}
Serve-IsOrdered {s} (passes on inside e f) v = record {
  passed =
      let next : s.head + 1 ≡ suc s.head = omega arith in
      let done : s.out ≡ up_to s.sent (suc s.head) =
        sym (append-nil s.out) ∙ ap (λ (l : List Item). s.out ++ l) (sym e) ∙ v.passed in
      rw (next, v.ahead (suc s.head) (omega arith))
        (unfold up_to in ap (λ (l : List Item). l ++ s.sent (suc s.head)) done);
  ahead = λ idx h. v.ahead idx (omega arith);
  behind = λ idx h. ground (arith, v.behind idx, ==_iff idx s.head);
  beyond = v.beyond;
  clean = v.clean;
}

sent-passed :
    {r : Request} (s : Stream) (idx : ℕ) (item : Item)
    → s.closed idx ≡ false
    → IsOrdered r s
    → s.out ++ update s.queue idx (s.queue idx ++ item ∷ []) s.head
      ≡ up_to (update s.sent idx (s.sent idx ++ item ∷ [])) (suc s.head)
sent-passed s idx item live v = elim (Bool-cases (s.head == idx)) [
  | inl here ↦
      let same : s.head ≡ idx = (==_iff s.head idx).0 here in
      rw here (
        subst
          (λ (i : ℕ).
            s.out ++ (s.queue i ++ item ∷ [])
            ≡ up_to (update s.sent i (s.sent i ++ item ∷ [])) (suc s.head))
          same (sent_here s item v))
  | inr there ↦
      let later : suc s.head ≤ idx = ground (arith, v.behind idx, ==_iff s.head idx) in
      let kept = up_to-update s.sent idx (s.sent idx ++ item ∷ []) (suc s.head) later in
      rw (there, kept) v.passed
]

Step-IsOrdered :
    {r : Request} {s t : Stream}
    → Step r s t
    → ((idx : ℕ) → is_in idx s.window.fetchers ≡ true → idx < r.total_chunks)
    → IsOrdered r s
    → IsOrdered r t
Step-IsOrdered (serves step) placed v = Serve-IsOrdered step v
Step-IsOrdered {s} (sends idx item on at live) placed v = record {
  passed = sent-passed s idx item live v;
  ahead = λ j h. ground (arith, v.ahead j h);
  behind = v.behind;
  beyond = λ j h. ground (arith, v.beyond j h, ==_iff j idx, placed idx at);
  clean = v.clean;
}
Step-IsOrdered (drops idx on at live) placed v = record {
  passed = v.passed;
  ahead = v.ahead;
  behind = λ j h. ground (arith, v.behind j);
  beyond = v.beyond;
  clean = v.clean;
}
Step-IsOrdered (releases idx front back on e over) placed v = record {
  passed = v.passed;
  ahead = v.ahead;
  behind = v.behind;
  beyond = v.beyond;
  clean = v.clean;
}
Step-IsOrdered (leaves on) placed v = record {
  passed = v.passed;
  ahead = v.ahead;
  behind = v.behind;
  beyond = v.beyond;
  clean = λ e. cc;
}

Steps-IsOrdered : {r : Request} {s : Stream} → Steps r s → IsOrdered r s
unfolding up_to
Steps-IsOrdered starts = record {
  passed = refl;
  ahead = λ idx h. refl;
  behind = λ idx h. elim h [ ];
  beyond = λ idx h. (refl, refl);
  clean = λ e. refl;
}
Steps-IsOrdered (goes_on before step) =
    let (tried, v) = Steps-Fed before (was_on step) in
    Step-IsOrdered step v.sound.placed (Steps-IsOrdered before)

-- After any steps of fetchers and serializer, what the client has got, with what waits in the
-- channel of the present chunk, is what the fetchers of the chunks up to it have sent, chunk by
-- chunk in the order of the plan; behind the last chunk it has got all of that. While the stream
-- has not ended, no error is among what the client has got.
pub Steps-InOrder :
    {r : Request} {s : Stream}
    → Steps r s
    → (s.out ++ s.queue s.head ≡ up_to s.sent s.head ++ s.sent s.head)
      × (s.head ≡ r.total_chunks → s.out ≡ up_to s.sent r.total_chunks)
      × (s.ended ≡ false → any_err s.out ≡ false)
unfolding up_to
Steps-InOrder {r} {s} steps =
    let v = Steps-IsOrdered steps in
    (
      v.passed,
      λ over.
          let none_there = v.beyond s.head (omega (arith, over)) in
          let done : s.out ++ [] ≡ up_to s.sent s.head ++ [] =
            subst (λ (l : List Item). s.out ++ [] ≡ up_to s.sent s.head ++ l) none_there.1
              (subst (λ (l : List Item). s.out ++ l ≡ up_to s.sent s.head ++ s.sent s.head)
                none_there.0 v.passed) in
          sym (append-nil s.out) ∙ done ∙ append-nil (up_to s.sent s.head) ∙ ap (up_to s.sent) over,
      v.clean,
    )
