-- ===== src/Subscriptions/Valid.antt =====
-- The invariant of what a session follows and of what waits.
use mcpdial.Base.{
  true, false, List, [], ◌∷◌, Str, str_eq, str_eq_iff, ◌≡◌, inl, inr, arith, All, Bool-cases,
  is_some,
}
use mcpdial.Protocol.Version.{KnownVersion}
use mcpdial.Notify.{Body, progress, log, list_changed, resource_updated, acknowledged}
use mcpdial.Subscriptions.{
  Event, changed, updated, event_eq, event_lt, Sink, Subscriptions, put, drop, sink_of, add,
  without, opened, opening_a_stream, follow, forget, record_body,
}
use mcpdial.Subscriptions.Order.{event_lt_trans, event_lt_total}

abbrev pub Ascends : List Event → Type 0
Ascends [] = Unit
Ascends (e ∷ es) = All (λ f. event_lt e f ≡ true) es × Ascends es

-- An event that a subscription is about.
abbrev pub IsDue : List (Str × Sink) → Event → Type 0
IsDue following (changed what) = Unit
IsDue following (updated uri) = is_some (sink_of uri following) ≡ true

-- What waits stands in order, none of it twice, and is all about what is followed.
pub record IsValid (subs : Subscriptions) : Type 0 where
  pub ascending : Ascends subs.pending
  pub due : All (IsDue subs.following) subs.pending

module _ (P : Event → Type 0) where
  All-put : (e : Event) (es : List Event) → P e → All P es → All P (put e es)
  unfolding put
  All-put e [] he h = (he, tt)
  All-put e (f ∷ fs) he (hf, h) = elim (Bool-cases (event_eq e f)) [
    | inl same ↦ rw same (hf, h)
    | inr other ↦ elim (Bool-cases (event_lt e f)) [
      | inl before ↦ rw (other, before) (he, (hf, h))
      | inr after ↦ rw (other, after) (hf, All-put e fs he h)
    ]
  ]

  All-drop : (e : Event) (es : List Event) → All P es → All P (drop e es)
  unfolding drop
  All-drop e [] h = tt
  All-drop e (f ∷ fs) (hf, h) = elim (Bool-cases (event_eq e f)) [
    | inl same ↦ rw same (All-drop e fs h)
    | inr other ↦ rw other (hf, All-drop e fs h)
  ]

pub All-map :
    (P Q : Event → Type 0) → ((e : Event) → P e → Q e) → (es : List Event) → All P es → All Q es
All-map P Q f [] h = tt
All-map P Q f (e ∷ es) (he, h) = (f e he, All-map P Q f es h)

Ascends-put : (e : Event) (es : List Event) → Ascends es → Ascends (put e es)
unfolding put
Ascends-put e [] h = (tt, tt)
Ascends-put e (f ∷ fs) (hf, h) = elim (Bool-cases (event_eq e f)) [
  | inl same ↦ rw same (hf, h)
  | inr other ↦ elim (Bool-cases (event_lt e f)) [
    | inl before ↦
        rw (other, before)
          (
            (
              before,
              All-map (λ g. event_lt f g ≡ true) (λ g. event_lt e g ≡ true)
                  (λ g. event_lt_trans e f g before) fs hf,
            ),
            (hf, h),
          )
    | inr after ↦
        rw (other, after)
          (
            All-put (λ g. event_lt f g ≡ true) e fs (event_lt_total e f other after) hf,
            Ascends-put e fs h,
          )
  ]
]

Ascends-drop : (e : Event) (es : List Event) → Ascends es → Ascends (drop e es)
unfolding drop
Ascends-drop e [] h = tt
Ascends-drop e (f ∷ fs) (hf, h) = elim (Bool-cases (event_eq e f)) [
  | inl same ↦ rw same (Ascends-drop e fs h)
  | inr other ↦ rw other (All-drop (λ g. event_lt f g ≡ true) e fs hf, Ascends-drop e fs h)
]

sink_of-add :
    (u uri : Str) (sink : Sink) (fs : List (Str × Sink))
    → is_some (sink_of u fs) ≡ true
    → is_some (sink_of u (add uri sink fs)) ≡ true
unfolding sink_of add
sink_of-add u uri sink [] h = cc
sink_of-add u uri sink (f ∷ fs) h =
    ground
      (arith, sink_of-add u uri sink fs, str_eq_iff f.0 u, str_eq_iff uri u, str_eq_iff f.0 uri)

sink_of-without :
    (u uri : Str) (fs : List (Str × Sink))
    → str_eq uri u ≡ false
    → is_some (sink_of u fs) ≡ true
    → is_some (sink_of u (without uri fs)) ≡ true
unfolding sink_of without
sink_of-without u uri [] e h = cc
sink_of-without u uri (f ∷ fs) e h =
    ground (arith, sink_of-without u uri fs, str_eq_iff f.0 u, str_eq_iff uri u, str_eq_iff f.0 uri)

IsDue-add :
    (uri : Str) (sink : Sink) (fs : List (Str × Sink)) (e : Event)
    → IsDue fs e
    → IsDue (add uri sink fs) e
IsDue-add uri sink fs (changed what) h = tt
IsDue-add uri sink fs (updated u) h = sink_of-add u uri sink fs h

-- What is left once the update of `uri` is dropped is due without it.
IsDue-without :
    (uri : Str) (fs : List (Str × Sink)) (es : List Event)
    → All (IsDue fs) es
    → All (IsDue (without uri fs)) (drop (updated uri) es)
unfolding drop event_eq
IsDue-without uri fs [] h = tt
IsDue-without uri fs (changed what ∷ es) (he, h) = (tt, IsDue-without uri fs es h)
IsDue-without uri fs (updated u ∷ es) (he, h) = elim (Bool-cases (str_eq uri u)) [
  | inl same ↦ rw same (IsDue-without uri fs es h)
  | inr other ↦ rw other (sink_of-without u uri fs other he, IsDue-without uri fs es h)
]

-- One thing that happens to what a session follows. What is returned beside the state is left out;
-- `apply` takes all that waits.
pub data Happening : Type 0 where
  opening : Happening
  following : Str → Sink → Happening
  forgetting : Str → Happening
  told : Body → Happening
  acting : Happening

abbrev pub after : Subscriptions → Happening → Subscriptions
after subs opening = opening_a_stream subs
after subs (following uri sink) = (follow subs uri sink).0
after subs (forgetting uri) = (forget subs uri).0
after subs (told body) = (record_body subs body).0
after subs acting = record subs { pending = [] }

abbrev pub after_all : Subscriptions → List Happening → Subscriptions
after_all subs [] = subs
after_all subs (h ∷ hs) = after_all (after subs h) hs

told-IsValid :
    (subs : Subscriptions) (body : Body) → IsValid subs → IsValid (after subs (told body))
unfolding record_body
told-IsValid subs (progress done total said) valid = valid
told-IsValid subs (log level logger text) valid = valid
told-IsValid subs (list_changed what) valid = record {
  ascending = Ascends-put (changed what) subs.pending valid.ascending;
  due = All-put (IsDue subs.following) (changed what) subs.pending tt valid.due;
}
told-IsValid subs (acknowledged notifications) valid = record {
  ascending = valid.ascending;
  due = valid.due;
}
told-IsValid subs (resource_updated uri) valid =
    elim (Bool-cases (is_some (sink_of uri subs.following))) [
      | inl known ↦ rw known (record {
        ascending = Ascends-put (updated uri) subs.pending valid.ascending;
        due = All-put (IsDue subs.following) (updated uri) subs.pending known valid.due;
      })
      | inr unknown ↦ rw unknown valid
    ]

after-IsValid : (subs : Subscriptions) (h : Happening) → IsValid subs → IsValid (after subs h)
unfolding follow forget
after-IsValid subs opening valid = record { ascending = valid.ascending; due = valid.due }
after-IsValid subs (following uri sink) valid = record {
  ascending = valid.ascending;
  due =
      All-map (IsDue subs.following) (IsDue (add uri sink subs.following))
        (IsDue-add uri sink subs.following) subs.pending valid.due;
}
after-IsValid subs (forgetting uri) valid = record {
  ascending = Ascends-drop (updated uri) subs.pending valid.ascending;
  due = IsDue-without uri subs.following subs.pending valid.due;
}
after-IsValid subs (told body) valid = told-IsValid subs body valid
after-IsValid subs acting valid = record { ascending = tt; due = tt }

after_all-from :
    (subs : Subscriptions) (hs : List Happening) → IsValid subs → IsValid (after_all subs hs)
after_all-from subs [] valid = valid
after_all-from subs (h ∷ hs) valid = after_all-from (after subs h) hs (after-IsValid subs h valid)

opened-IsValid : (version : KnownVersion) → IsValid (opened version)
unfolding opened
opened-IsValid version = record { ascending = tt; due = tt }

-- Whatever a session follows, forgets and is told, in whatever order: no event waits twice, and an
-- update that waits is of a resource that is followed.
pub after_all-IsValid :
    (version : KnownVersion) (hs : List Happening) → IsValid (after_all (opened version) hs)
after_all-IsValid version hs = after_all-from (opened version) hs (opened-IsValid version)
