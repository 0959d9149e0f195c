-- ===== src/Config/Notes/Forgotten.antt =====
-- What the notes on tasks say after some were forgotten.
use mcpdial.Base.{
  str_eq_refl, Str, Bool, true, false, Option, none, some, List, [], ◌∷◌, ℕ, if◌then◌else◌, Map,
  get_key, remove_key, not, any, str_eq, length, ◌-◌, ◌≤◌, retain, ◌≡◌, refl, arith, ◌∙◌, sym, ap,
  ltb, get_key-put_key, get_key-remove_key, Bool-cases, inl, inr, str_eq_iff, str_eq-sym, unwrap_or,
  ap_if,
}
use mcpdial.Protocol.Errors.{ok, ◌>>=◌}
use mcpdial.Config.Files.{File, rewrite-none, rewrite-some}
use mcpdial.Config.Notes.{
  TaskRecord, Tasks, task_expired, tasks_of, unexpired, tasks, remove_ids, put_back, forgetting,
  forget_tasks,
}

-- The notes whose ids are not listed.
abbrev pub without : List Str → Map TaskRecord → Map TaskRecord
without ids mine = retain (λ id t. not (any (str_eq id) ids)) mine

module _ {A : Type 0} where
  retain_le : (keep : Str → A → Bool) (m : Map A) → length (retain keep m) ≤ length m
  retain_le keep [] = omega arith
  retain_le keep ((k, a) ∷ m) = ground (arith, retain_le keep m)

  retain_same :
      (keep : Str → A → Bool) (m : Map A) → length m ≤ length (retain keep m) → retain keep m ≡ m
  retain_same keep [] h = refl
  retain_same keep ((k, a) ∷ m) h = elim (Bool-cases (keep k a)) [
    | inl e ↦ rw e (ap (λ r. (k, a) ∷ r) (retain_same keep m (ground arith)))
    | inr e ↦ absurd (ground (arith, retain_le keep m))
  ]

retain_true : (m : Map TaskRecord) → m ≡ without [] m
retain_true [] = refl
retain_true ((k, t) ∷ m) = ap (λ r. (k, t) ∷ r) (retain_true m)

drop_one :
    (now : ℕ) (id : Str) (ids : List Str) (m : Map TaskRecord)
    → without ids (unexpired now (remove_key id m)) ≡ without (id ∷ ids) (unexpired now m)
unfolding remove_key
drop_one now id ids [] = refl
drop_one now id ids ((k, t) ∷ m) = ground (arith, drop_one now id ids m)

unexpired-remove_ids :
    (now : ℕ) (ids : List Str) (mine : Map TaskRecord)
    → unexpired now (remove_ids ids mine) ≡ without ids (unexpired now mine)
unexpired-remove_ids now [] mine = retain_true (unexpired now mine)
unexpired-remove_ids now (id ∷ ids) mine =
    unexpired-remove_ids now ids (remove_key id mine) ∙ drop_one now id ids mine

remove_ids_le :
    (ids : List Str) (mine : Map TaskRecord) → length (remove_ids ids mine) ≤ length mine
unfolding remove_key
remove_ids_le [] mine = omega arith
remove_ids_le (id ∷ ids) mine =
    omega (arith, remove_ids_le ids (remove_key id mine), retain_le (λ j a. not (str_eq j id)) mine)

unexpired_twice : (now : ℕ) (m : Map TaskRecord) → unexpired now (unexpired now m) ≡ unexpired now m
unexpired_twice now [] = refl
unexpired_twice now ((k, t) ∷ m) = ground (arith, unexpired_twice now m)

tasks_of-put_back :
    (server s : Str) (left : Map TaskRecord) (all : Tasks)
    → tasks_of s (put_back server left all) ≡ (if str_eq server s then left else tasks_of s all)
tasks_of-put_back server s [] all =
    ap (unwrap_or []) (get_key-remove_key server s all)
    ∙ ap_if (unwrap_or []) (str_eq s server) none (get_key s all)
    ∙ ap (λ b. if b then [] else tasks_of s all) (str_eq-sym s server)
tasks_of-put_back server s (t ∷ left) all =
    ap (unwrap_or []) (get_key-put_key server s (t ∷ left) all)
    ∙ ap_if (unwrap_or []) (str_eq server s) (some (t ∷ left)) (get_key s all)

nothing_dropped :
    (now : ℕ) (ids : List Str) (mine : Map TaskRecord)
    → ltb 0 (length mine - length (unexpired now (remove_ids ids mine))) ≡ false
    → without ids (unexpired now mine) ≡ unexpired now mine
nothing_dropped now ids mine h =
    retain_same (λ id t. not (any (str_eq id) ids)) (unexpired now mine)
      (rw (sym (unexpired-remove_ids now ids mine))
        (ground (arith, retain_le (λ id t. not (task_expired now t)) mine)))

-- What is read of a file that says `all`.
pub tasks-read :
    (now : ℕ) (s : Str) (all : Tasks) (f : File Tasks)
    → f.content ≡ ok all
    → tasks now s f ≡ ok (unexpired now (tasks_of s all))
unfolding tasks
tasks-read now s all f e = ap (λ r. r >>= λ all. ok (unexpired now (tasks_of s all))) e

unexpired-put_back :
    (now : ℕ) (server s : Str) (ids : List Str) (mine : Map TaskRecord) (all : Tasks)
    → unexpired now (tasks_of s (put_back server (unexpired now (remove_ids ids mine)) all)) ≡ (
        if str_eq server s
        then without ids (unexpired now mine)
        else unexpired now (tasks_of s all))
unexpired-put_back now server s ids mine all =
    ap (unexpired now) (tasks_of-put_back server s (unexpired now (remove_ids ids mine)) all)
    ∙ ap_if (unexpired now) (str_eq server s) (unexpired now (remove_ids ids mine)) (tasks_of s all)
    ∙ ap (λ m. if str_eq server s then m else unexpired now (tasks_of s all))
        (unexpired_twice now (remove_ids ids mine) ∙ unexpired-remove_ids now ids mine)

unchanged_unless :
    (now : ℕ) (server s : Str) (ids : List Str) (all : Tasks)
    → without ids (unexpired now (tasks_of server all)) ≡ unexpired now (tasks_of server all)
    → unexpired now (tasks_of s all) ≡ (
        if str_eq server s
        then without ids (unexpired now (tasks_of server all))
        else unexpired now (tasks_of s all))
unchanged_unless now server s ids all e = elim (Bool-cases (str_eq server s)) [
  | inl h ↦ rw (h, e, (str_eq_iff server s).0 h) refl
  | inr h ↦ rw h refl
]

-- The change that `forget_tasks` makes.
abbrev change : ℕ → Str → List Str → Tasks → Option Tasks
change now server ids all = forgetting now server ids (get_key server all) all

left_as_it_was :
    (now : ℕ) (server s : Str) (ids : List Str) (all : Tasks) (f : File Tasks)
    → f.content ≡ ok all
    → change now server ids all ≡ none
    → without ids (unexpired now (tasks_of server all)) ≡ unexpired now (tasks_of server all)
    → tasks now s ((forget_tasks now server ids f).0)
      ≡ ok (
          if str_eq server s
          then without ids (unexpired now (tasks_of server all))
          else unexpired now (tasks_of s all))
unfolding forget_tasks
left_as_it_was now server s ids all f readable nothing e =
    ap (λ r. tasks now s (r.0)) (rewrite-none (change now server ids) f all readable nothing)
    ∙ tasks-read now s all f readable
    ∙ ap ok (unchanged_unless now server s ids all e)

dropping :
    (now : ℕ) (server : Str) (ids : List Str) (all : Tasks) (mine : Map TaskRecord) (b : Bool)
    → get_key server all ≡ some mine
    → ltb 0 (length mine - length (unexpired now (remove_ids ids mine))) ≡ b
    → change now server ids all
      ≡ (if b then some (put_back server (unexpired now (remove_ids ids mine)) all) else none)
dropping now server ids all mine b e h =
    ap (λ o. forgetting now server ids o all) e
    ∙ ap (λ c. if c then some (put_back server (unexpired now (remove_ids ids mine)) all) else none)
        h

rewritten :
    (now : ℕ) (server s : Str) (ids : List Str) (all : Tasks) (o : Option (Map TaskRecord))
    (f : File Tasks)
    → get_key server all ≡ o
    → f.content ≡ ok all
    → f.refused ≡ none
    → tasks now s ((forget_tasks now server ids f).0)
      ≡ ok (
          if str_eq server s
          then without ids (unexpired now (tasks_of server all))
          else unexpired now (tasks_of s all))
unfolding forget_tasks
rewritten now server s ids all none f e readable writable =
    left_as_it_was now server s ids all f readable (ap (λ o. forgetting now server ids o all) e)
      (rw e refl)
rewritten now server s ids all (some mine) f e readable writable =
    elim (Bool-cases (ltb 0 (length mine - length (unexpired now (remove_ids ids mine))))) [
      | inl h ↦
          ap (λ r. tasks now s (r.0))
            (rewrite-some (change now server ids) f all _ readable writable
              (dropping now server ids all mine true e h))
          ∙ tasks-read now s _ _ refl
          ∙ ap ok (rw e (unexpired-put_back now server s ids mine all))
      | inr h ↦
          left_as_it_was now server s ids all f readable
            (dropping now server ids all mine false e h) (rw e (nothing_dropped now ids mine h))
    ]

-- Once some tasks of a server are forgotten, in a file that can be read and written, the tasks that are
-- noted for it are the ones noted before whose ids are not listed, and other servers keep theirs.
pub tasks-forget_tasks :
    (now : ℕ) (server s : Str) (ids : List Str) (all : Tasks) (f : File Tasks)
    → f.content ≡ ok all
    → f.refused ≡ none
    → tasks now s ((forget_tasks now server ids f).0)
      ≡ ok (
          if str_eq server s
          then without ids (unexpired now (tasks_of server all))
          else unexpired now (tasks_of s all))
unfolding tasks forget_tasks
tasks-forget_tasks now server s ids all f readable writable =
    rewritten now server s ids all (get_key server all) f refl readable writable

-- The same for the server itself.
pub tasks-forget_own :
    (now : ℕ) (server : Str) (ids : List Str) (all : Tasks) (f : File Tasks)
    → f.content ≡ ok all
    → f.refused ≡ none
    → tasks now server ((forget_tasks now server ids f).0)
      ≡ ok (without ids (unexpired now (tasks_of server all)))
tasks-forget_own now server ids all f readable writable =
    tasks-forget_tasks now server server ids all f readable writable
    ∙ ap
        (λ b. ok (
          if b
          then without ids (unexpired now (tasks_of server all))
          else unexpired now (tasks_of server all)))
        (str_eq_refl server)
