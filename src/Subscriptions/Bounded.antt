-- ===== src/Subscriptions/Bounded.antt =====
-- What a flood of notifications can cost: what waits is bounded by what is followed.
use mcpdial.Base.{
  suc, ◌+◌, ◌≤◌, true, List, [], ◌∷◌, Str, str_eq_iff, ◌≡◌, refl, arith, All, length, any, is_some,
  if◌then◌else◌,
}
use mcpdial.Protocol.Version.{KnownVersion}
use mcpdial.Notify.{tools, resources, prompts}
use mcpdial.Subscriptions.{Event, changed, updated, event_eq, event_lt, Sink, sink_of, opened}
use mcpdial.Subscriptions.Valid.{Ascends, IsDue, All-map, Happening, after_all, after_all-IsValid}
use mcpdial.Subscriptions.Order.{event_eq_iff, event_lt_irrefl}

-- All that can wait.
abbrev updates : List (Str × Sink) → List Event
updates [] = []
updates (f ∷ fs) = updated f.0 ∷ updates fs

abbrev possible : List (Str × Sink) → List Event
possible fs = changed tools ∷ changed resources ∷ changed prompts ∷ updates fs

length-updates : (fs : List (Str × Sink)) → length (updates fs) ≡ length fs
length-updates [] = refl
length-updates (f ∷ fs) = omega (arith, length-updates fs)

-- One occurrence taken out.
take_out : Event → List Event → List Event
take_out e [] = []
take_out e (f ∷ fs) = let rest = f ∷ take_out e fs in if event_eq e f then fs else rest

length-take_out :
    (e : Event) (ys : List Event)
    → any (event_eq e) ys ≡ true
    → suc (length (take_out e ys)) ≡ length ys
unfolding take_out
length-take_out e [] h = cc
length-take_out e (f ∷ fs) h = ground (arith, length-take_out e fs)

any-take_out :
    (e g : Event) (ys : List Event)
    → event_lt e g ≡ true
    → any (event_eq g) ys ≡ true
    → any (event_eq g) (take_out e ys) ≡ true
unfolding take_out
any-take_out e g [] lt h = cc
any-take_out e g (f ∷ fs) lt h =
    ground (arith, any-take_out e g fs lt, event_eq_iff e f, event_eq_iff g f, event_lt_irrefl g)

Among : List Event → Event → Type 0
Among ys e = any (event_eq e) ys ≡ true

pigeonhole : (xs ys : List Event) → Ascends xs → All (Among ys) xs → length xs ≤ length ys
unfolding Among
pigeonhole [] ys h among = omega arith
pigeonhole (e ∷ es) ys (first, h) (here, among) =
    let fewer = pigeonhole es (take_out e ys) h (rest es first among) in
    omega (arith, fewer, length-take_out e ys here)
  where
    rest :
        (fs : List Event)
        → All (λ f. event_lt e f ≡ true) fs
        → All (Among ys) fs
        → All (Among (take_out e ys)) fs
    rest [] a b = tt
    rest (f ∷ fs) (lt, a) (among_f, b) = (any-take_out e f ys lt among_f, rest fs a b)

update-Among :
    (u : Str) (fs : List (Str × Sink))
    → is_some (sink_of u fs) ≡ true
    → Among (updates fs) (updated u)
unfolding sink_of Among event_eq
update-Among u [] h = cc
update-Among u (f ∷ fs) h = ground (arith, update-Among u fs, str_eq_iff f.0 u, str_eq_iff u f.0)

due-Among : (fs : List (Str × Sink)) (e : Event) → IsDue fs e → Among (possible fs) e
unfolding Among event_eq
due-Among fs (changed tools) h = refl
due-Among fs (changed resources) h = refl
due-Among fs (changed prompts) h = refl
due-Among fs (updated u) h = update-Among u fs h

-- However many notifications arrive, what waits for the next prompt is at most one event for each of
-- the three lists and one for each resource followed.
pub pending_le :
    (version : KnownVersion) (hs : List Happening)
    → length (after_all (opened version) hs).pending
      ≤ 3 + length (after_all (opened version) hs).following
pending_le version hs =
    let subs = after_all (opened version) hs in
    let valid = after_all-IsValid version hs in
    omega (
      arith,
      length-updates subs.following,
      pigeonhole subs.pending (possible subs.following) valid.ascending (
          All-map (IsDue subs.following) (Among (possible subs.following))
            (due-Among subs.following) subs.pending valid.due),
    )
