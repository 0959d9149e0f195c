-- ===== src/Background/Watching/Ends.antt =====
-- How watching a task ends.
use mcpdial.Base.{
  Str, Bool, some, none, ◌∷◌, [], ℕ, zero, suc, ◌≤◌, ◌≡◌, refl, subst, ◌∙◌, ap, arith, ◌↔◌, codes,
}
use mcpdial.Json.{Value, obj, str, field, end, Fields, lookup}
use mcpdial.Protocol.Errors.{Error, Result, ok, err}
use mcpdial.Session.{Transport, Session, ask}
use mcpdial.Config.Files.{File}
use mcpdial.Config.Notes.{Tasks, forget_tasks, tasks, tasks_of, unexpired}
use mcpdial.Config.Notes.Forgotten.{without, tasks-forget_own}
use mcpdial.Background.Watching.{
  Look, over, asking, running, look, Watched, ended, wants_input, lost, still, seen, get_task,
  task_result, watch, turn, polled, seen_through, after_watching, fetched_result,
}
use mcpdial.Background.Watching.States.{HasEnded, WantsInput, GoesOn, Says, look-Says, Says-look}
use mcpdial.Background.Watching.Marked.{ended_field, ended_result-seen}

module _ {S : Type 0} (T : Transport S) (id : Str) where
  -- The request of a poll.
  abbrev pub poll_of : Session S → Session S × Result Value
  poll_of s = ask T s (codes "tasks/get") (some (obj (field (codes "taskId") (str id) end)))

  -- A run of the loop: the polls that it makes, the session and the state it starts with, the session
  -- it leaves and how it ends.
  pub data Run : ℕ → Session S → Value → Session S → Watched → Type 0 where
    at_end : {s : Session S} {state : Value} → HasEnded state → Run 0 s state s (ended state)
    at_input : {s : Session S} {state : Value} → WantsInput state → Run 0 s state s wants_input
    no_answer :
        {s t : Session S} {state : Value} {e : Error}
        → GoesOn state
        → poll_of s ≡ (t, err e)
        → Run 1 s state t (lost e)
    poll :
        {n : ℕ} {s t u : Session S} {state next : Value} {w : Watched}
        → GoesOn state
        → poll_of s ≡ (t, ok next)
        → Run n t next u w
        → Run (suc n) s state u w

  -- A run of the loop is what the loop does, with as many polls as the run makes or more.
  pub watch-Run :
      (fuel : ℕ) {n : ℕ} {s u : Session S} {state : Value} {w : Watched}
      → Run n s state u w
      → n ≤ fuel
      → watch T id fuel s state ≡ (u, w)
  unfolding watch get_task
  watch-Run zero (at_end e) h = ap (turn _ _ _) (Says-look _ over e)
  watch-Run (suc fuel) (at_end e) h = ap (turn _ _ _) (Says-look _ over e)
  watch-Run zero (at_input e) h = ap (turn _ _ _) (Says-look _ asking e)
  watch-Run (suc fuel) (at_input e) h = ap (turn _ _ _) (Says-look _ asking e)
  watch-Run zero (no_answer e g) h = absurd (omega (arith, h))
  watch-Run (suc fuel) (no_answer e g) h =
      ap (turn _ _ _) (Says-look _ running e) ∙ ap (polled (λ t next. watch T id fuel t next)) g
  watch-Run zero (poll e g r) h = absurd (omega (arith, h))
  watch-Run (suc fuel) (poll e g r) h =
      ap (turn _ _ _) (Says-look _ running e)
      ∙ ap (polled (λ t next. watch T id fuel t next)) g
      ∙ watch-Run fuel r (omega (arith, h))

  -- What the loop ends in, where the polls suffice, is the end of a run that makes no more.
  abbrev pub IsRun : ℕ → Session S → Value → Session S × Watched → Type 0
  IsRun fuel s state (u, still last) = Unit
  IsRun fuel s state (u, w) = (n : ℕ) × (n ≤ fuel) × Run n s state u w

  lifted :
      (fuel : ℕ) (s t : Session S) (state next : Value) (p : Session S × Watched)
      → GoesOn state
      → poll_of s ≡ (t, ok next)
      → IsRun fuel t next p
      → IsRun (suc fuel) s state p
  lifted fuel s t state next (u, still last) e g r = tt
  lifted fuel s t state next (u, ended last) e g (n, h, r) = (suc n, omega (arith, h), poll e g r)
  lifted fuel s t state next (u, wants_input) e g (n, h, r) = (suc n, omega (arith, h), poll e g r)
  lifted fuel s t state next (u, lost x) e g (n, h, r) = (suc n, omega (arith, h), poll e g r)

  no_polls :
      (s : Session S) (state : Value) (l : Look)
      → Says state l
      → IsRun 0 s state (turn (s, still state) s state l)
  no_polls s state over e = (0, omega arith, at_end e)
  no_polls s state asking e = (0, omega arith, at_input e)
  no_polls s state running e = tt

  one_poll :
      (fuel : ℕ) (s : Session S) (state : Value) (p : Session S × Result Value) (l : Look)
      → Says state l
      → poll_of s ≡ p
      → ((t : Session S) (next : Value) → IsRun fuel t next (watch T id fuel t next))
      → IsRun (suc fuel) s state (turn (polled (λ t next. watch T id fuel t next) p) s state l)
  one_poll fuel s state p over e g rest = (0, omega arith, at_end e)
  one_poll fuel s state p asking e g rest = (0, omega arith, at_input e)
  one_poll fuel s state (t, err x) running e g rest = (1, omega arith, no_answer e g)
  one_poll fuel s state (t, ok next) running e g rest =
      lifted fuel s t state next (watch T id fuel t next) e g (rest t next)

  pub watch-IsRun :
      (fuel : ℕ) (s : Session S) (state : Value) → IsRun fuel s state (watch T id fuel s state)
  unfolding watch get_task
  watch-IsRun zero s state = no_polls s state (look state) (look-Says state)
  watch-IsRun (suc fuel) s state =
      one_poll fuel s state (poll_of s) (look state) (look-Says state) refl
        (λ t next. watch-IsRun fuel t next)

  -- The loop stopped by itself.
  abbrev pub IsStop : Watched → Type 0
  IsStop (still state) = ⊥
  IsStop w = Unit

  Run-IsStop :
      {n : ℕ} {s u : Session S} {state : Value} {w : Watched} → Run n s state u w → IsStop w
  Run-IsStop (at_end e) = tt
  Run-IsStop (at_input e) = tt
  Run-IsStop (no_answer e g) = tt
  Run-IsStop (poll e g r) = Run-IsStop r

  stopped :
      (fuel : ℕ) (s u : Session S) (state : Value) (w : Watched)
      → IsStop w
      → IsRun fuel s state (u, w)
      → (n : ℕ) × (n ≤ fuel) × Run n s state u w
  stopped fuel s u state (ended last) h r = r
  stopped fuel s u state wants_input h r = r
  stopped fuel s u state (lost e) h r = r
  stopped fuel s u state (still last) h r = absurd h

  -- With so many polls at most, watching a task stops of itself, in some session and in some way, exactly
  -- where the answers of the server make it: a status of completed, failed or cancelled ends it, one of
  -- input_required and an error of a tasks/get for the task stop it, and any other is followed by a poll.
  pub watch-stops_iff :
      (fuel : ℕ) (s u : Session S) (state : Value) (w : Watched)
      → ((watch T id fuel s state ≡ (u, w)) × IsStop w) ↔ ((n : ℕ) × (n ≤ fuel) × Run n s state u w)
  watch-stops_iff fuel s u state w = (
    λ (e, stop).
        stopped fuel s u state w stop (subst (IsRun fuel s state) e (watch-IsRun fuel s state)),
    λ (n, h, r). (watch-Run fuel r h, Run-IsStop r),
  )

module _ {S : Type 0} (T : Transport S) (id : Str) where
  -- A task that ends, after however many polls, is seen through to its result: the tasks noted for the
  -- server are the unexpired ones noted before without this one, and the result is what the server gives for it,
  -- marked as an error and given some content where the task was not completed, and otherwise as it is.
  -- The polls allowed are as many as the run makes or more, the result that the server gives is an
  -- object, and the notes are in a file that can be read and written.
  pub seen_through-ended :
      (fuel : ℕ) (n : ℕ) (progress : Bool) (at_ : ℕ) (name : Str) (all : Tasks) (notes : File Tasks)
      (s u v : Session S) (started state : Value) (fs : Fields) (key : Str)
      → notes.content ≡ ok all
      → notes.refused ≡ none
      → Run T id n s started u (ended state)
      → n ≤ fuel
      → task_result T id progress u ≡ (v, ok (obj fs))
      → (left : File Tasks) × (gs : Fields) × (seen_through T id fuel progress at_ name notes s
            started
          ≡ ((v, left), seen (obj gs)))
        × (tasks at_ name left ≡ ok (without (id ∷ []) (unexpired at_ (tasks_of name all))))
        × (lookup key gs ≡ ended_field state fs key)
  unfolding seen_through
  seen_through-ended fuel n progress at_ name all notes s u v started state fs key readable writable
        run h r =
      let (gs, same_result, same_field) = ended_result-seen state fs key in
      (
        (forget_tasks at_ name (id ∷ []) notes).0,
        gs,
        ap (after_watching T id progress at_ name notes) (watch-Run T id fuel run h)
            ∙ ap (fetched_result T id at_ name notes state) r
            ∙ ap (λ x. ((v, (forget_tasks at_ name (id ∷ []) notes).0), x)) same_result,
        tasks-forget_own at_ name (id ∷ []) all notes readable writable,
        same_field,
      )
