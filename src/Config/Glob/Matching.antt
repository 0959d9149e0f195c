-- ===== src/Config/Glob/Matching.antt =====
-- The loop of `matches_glob` against what a pattern means.
use mcpdial.Base.{
  Str, Bool, true, false, Option, none, some, [], ◌∷◌, ℕ, suc, zero, all, ◌==◌, ◌&&◌, ◌||◌,
  if◌then◌else◌, length, ◌+◌, ◌*◌, ◌≤◌, ◌<◌, ◌≡◌, refl, ◌↔◌, ◌++◌, ◌∙◌, arith, inl, inr, Bool-cases,
  sym, ap, ==_iff,
}
use mcpdial.Config.Glob.{Turn, stop, go, backtrack, turn, match_loop, turns, answered, matches_glob}

-- The names that a pattern stands for: `*` for any run of characters, `?` for one character, any
-- other character for itself.
pub data Matches : Str → Str → Type 0 where
  nothing : Matches [] []
  run : {p n w : Str} (m : Str) → Matches p n → w ≡ m ++ n → Matches (b'*' ∷ p) w
  one : {p n : Str} (d : ℕ) → Matches p n → Matches (b'?' ∷ p) (d ∷ n)
  same : {p n : Str} (c : ℕ) → Matches p n → Matches (c ∷ p) (c ∷ n)

-- The same as a test.
unfoldable glob : Str → Str → Bool
glob [] [] = true
glob [] (d ∷ n) = false
glob (c ∷ p) [] = c == b'*' && glob p []
glob (c ∷ p) (d ∷ n) =
    let here = glob p (d ∷ n) in
    let rest = glob p n in
    let later = glob (c ∷ p) n in if c == b'*' then here || later else (c == b'?' || c == d) && rest

glob-star : (p n : Str) → glob p n ≡ true → glob (b'*' ∷ p) n ≡ true
unfolding glob
glob-star p [] h = ground arith
glob-star p (d ∷ n) h = ground arith

glob-run : (p m n : Str) → glob p n ≡ true → glob (b'*' ∷ p) (m ++ n) ≡ true
unfolding glob
glob-run p [] n h = glob-star p n h
glob-run p (d ∷ m) n h = rw (glob-run p m n h) (ground arith)

same-star : (c : ℕ) (p n : Str) → c ≡ b'*' → glob p n ≡ true → glob (c ∷ p) (c ∷ n) ≡ true
same-star c p n e h = rw e (glob-run p (b'*' ∷ []) n h)

glob_of_matches : {p n : Str} → Matches p n → glob p n ≡ true
unfolding glob
glob_of_matches nothing = refl
glob_of_matches (run {p} {n} {w} m h e) = rw e (glob-run p m n (glob_of_matches h))
glob_of_matches (one d h) = ground (arith, glob_of_matches h)
glob_of_matches (same {p} {n} c h) = elim (Bool-cases (c == b'*')) [
  | inl e ↦ same-star c p n ((==_iff c b'*').0 e) (glob_of_matches h)
  | inr e ↦ ground (arith, glob_of_matches h)
]

matches_star : (c : ℕ) (p n : Str) → (c == b'*') ≡ true → Matches p n → Matches (c ∷ p) n
matches_star c p n e h = rw ((==_iff c b'*').0 e) (run [] h refl)

run_more : {p n : Str} (d : ℕ) → Matches (b'*' ∷ p) n → Matches (b'*' ∷ p) (d ∷ n)
run_more d (run m h e) = run (d ∷ m) h (rw e refl)
run_more d (same _ h) = run (d ∷ b'*' ∷ []) h refl

matches_same : (c d : ℕ) (p n : Str) → (c == d) ≡ true → Matches p n → Matches (c ∷ p) (d ∷ n)
matches_same c d p n e h = rw ((==_iff c d).0 e) (same d h)

matches_of_glob : (p n : Str) → glob p n ≡ true → Matches p n
unfolding glob
matches_of_glob [] [] h = nothing
matches_of_glob [] (d ∷ n) h = absurd (cc h)
matches_of_glob (c ∷ p) [] h =
    matches_star c p [] (ground arith) (matches_of_glob p [] (ground arith))
matches_of_glob (c ∷ p) (d ∷ n) h = elim (Bool-cases (c == b'*')) [
  | inl e ↦ elim (Bool-cases (glob p (d ∷ n))) [
    | inl here ↦ matches_star c p (d ∷ n) e (matches_of_glob p (d ∷ n) here)
    | inr e2 ↦
        rw ((==_iff c b'*').0 e)
          (run_more d (rw (sym ((==_iff c b'*').0 e)) (matches_of_glob (c ∷ p) n (ground arith))))
  ]
  | inr e ↦ elim (Bool-cases (c == b'?')) [
    | inl q ↦ rw ((==_iff c b'?').0 q) (one d (matches_of_glob p n (ground arith)))
    | inr q ↦ matches_same c d p n (ground arith) (matches_of_glob p n (ground arith))
  ]
]

glob_iff : (p n : Str) → (glob p n ≡ true) ↔ Matches p n
glob_iff p n = (matches_of_glob p n, glob_of_matches)

-- What trying the last `*` again can still find.
abbrev later : Option (Str × Str) → Bool
later none = false
later (some (after, [])) = false
later (some (after, d ∷ reached)) = glob (b'*' ∷ after) reached

-- What a turn stands for.
abbrev value : Turn → Bool
value (stop b) = b
value (go p n retry) = glob p n || later retry

-- A match found from the last `*` leaves a suffix of the name that the rest of the pattern matches.
abbrev IsGreedy : Str → Str → Option (Str × Str) → Type 0
IsGreedy p n retry = later retry ≡ true → glob (b'*' ∷ p) n ≡ true

glob-suffix :
    (c d : ℕ) (p n : Str)
    → (c == b'*') ≡ false
    → glob (b'*' ∷ c ∷ p) (d ∷ n) ≡ true
    → glob (b'*' ∷ p) n ≡ true
unfolding glob
glob-suffix c d p [] e h = ground arith
glob-suffix c d p (x ∷ n) e h = ground (arith, glob-suffix c x p n e)

-- The room that is left: `q` restarts at most, each of fewer than `k` turns.
abbrev Fits : ℕ → ℕ → Str → Str → Option (Str × Str) → Type 0
Fits k q p n none = (length p + length n < k) × (length n ≤ q)
Fits k q p n (some (after, reached)) =
    (length p + length n < k)
    × (length n ≤ length reached)
    × (length reached ≤ q)
    × (length after + length reached < k)

glob-nil : (p : Str) → glob p [] ≡ all (λ c. c == b'*') p
unfolding glob
glob-nil [] = refl
glob-nil (c ∷ p) = rw (glob-nil p) refl

nothing_later :
    (p : Str) (retry : Option (Str × Str))
    → IsGreedy p [] retry
    → glob p [] || later retry ≡ glob p []
unfolding glob
nothing_later p retry h = ground arith

IsGreedy-here : (p n : Str) → IsGreedy p n (some (p, n))
unfolding glob
IsGreedy-here p [] h = ground arith
IsGreedy-here p (d ∷ n) h = ground arith

later-here : (p n : Str) → (glob p n || later (some (p, n))) ≡ glob (b'*' ∷ p) n
unfolding glob
later-here p [] = ground arith
later-here p (d ∷ n) = refl

mul_suc : (q k : ℕ) → suc q * k ≡ q * k + k
mul_suc q k = omega arith

-- A turn from which `fuel` turns are enough.
abbrev Ready : ℕ → ℕ → ℕ → Turn → Type 0
Ready k q fuel (stop b) = Unit
Ready k q fuel (go p n retry) =
    IsGreedy p n retry × Fits k q p n retry × (q * k + length p + length n < fuel)

-- The next turn is ready too, and stands for the same.
abbrev Next : ℕ → ℕ → Turn → Bool → Type 0
Next k fuel t b = (q : ℕ) × Ready k q fuel t × (value t ≡ b)

fewer : (q k a fuel : ℕ) → a < k → suc q * k < suc fuel → q * k + a < fuel
fewer q k a fuel h e = omega (arith, mul_suc q k)

backtracked :
    (k q fuel d : ℕ) (p n : Str) (retry : Option (Str × Str))
    → Fits k q p (d ∷ n) retry
    → q * k + length p + suc (length n) < suc fuel
    → Next k fuel (backtrack retry) (later retry)
unfolding backtrack glob
backtracked k q fuel d p n none fits room = (0, tt, refl)
backtracked k q fuel d p n (some (after, [])) fits room = absurd (ground arith)
backtracked k zero fuel d p n (some (after, e ∷ reached)) fits room = absurd (ground arith)
backtracked k (suc q) fuel d p n (some (after, e ∷ reached)) fits room = (
  q,
  (
    IsGreedy-here after reached,
    ground arith,
    ground (arith, fewer q k (length after + length reached) fuel),
  ),
  later-here after reached,
)

star-Fits :
    (k q c d : ℕ) (p n : Str) (retry : Option (Str × Str))
    → Fits k q (c ∷ p) (d ∷ n) retry
    → Fits k q p (d ∷ n) (some (p, d ∷ n))
star-Fits k q c d p n none fits = ground arith
star-Fits k q c d p n (some (after, reached)) fits = ground arith

step-Fits :
    (k q c d : ℕ) (p n : Str) (retry : Option (Str × Str))
    → Fits k q (c ∷ p) (d ∷ n) retry
    → Fits k q p n retry
step-Fits k q c d p n none fits = ground arith
step-Fits k q c d p n (some (after, reached)) fits = ground arith

glob-two_stars : (p n : Str) → glob (b'*' ∷ b'*' ∷ p) n ≡ true → glob (b'*' ∷ p) n ≡ true
unfolding glob
glob-two_stars p [] h = h
glob-two_stars p (d ∷ n) h = ground (arith, glob-two_stars p n)

-- At a `*`, what an earlier one could still find is found from here.
at_star :
    (c d : ℕ) (p n : Str) (retry : Option (Str × Str))
    → c ≡ b'*'
    → IsGreedy (c ∷ p) (d ∷ n) retry
    → (glob p (d ∷ n) || glob (b'*' ∷ p) n) ≡ ((glob p (d ∷ n) || glob (c ∷ p) n) || later retry)
unfolding glob
at_star c d p n retry e greedy = rw e (ground (arith, glob-two_stars p n, greedy))

turned :
    (k q fuel : ℕ) (p n : Str) (retry : Option (Str × Str))
    → Ready k q (suc fuel) (go p n retry)
    → Next k fuel (turn p n retry) (value (go p n retry))
unfolding turn glob
turned k q fuel p [] retry ready = (0, tt, rw (nothing_later p retry ready.0) (sym (glob-nil p)))
turned k q fuel [] (d ∷ n) retry (greedy, fits, room) = backtracked k q fuel d [] n retry fits room
turned k q fuel (c ∷ p) (d ∷ n) retry (greedy, fits, room) = elim (Bool-cases (c == b'*')) [
  | inl e ↦ rw e (
    q,
    (IsGreedy-here p (d ∷ n), star-Fits k q c d p n retry fits, omega arith),
    at_star c d p n retry ((==_iff c b'*').0 e) greedy,
  )
  | inr e ↦ elim (Bool-cases (c == b'?' || c == d)) [
    | inl h ↦
        rw (e, h)
          (
            q,
            (
              (λ l. glob-suffix c d p n e (greedy l)),
              step-Fits k q c d p n retry fits,
              omega arith,
            ),
            refl,
          )
    | inr h ↦ rw (e, h) (backtracked k q fuel d (c ∷ p) n retry fits room)
  ]
]

match_loop-some : (k q fuel : ℕ) (t : Turn) → Ready k q fuel t → match_loop t fuel ≡ some (value t)
unfolding match_loop
match_loop-some k q fuel (stop b) ready = refl
match_loop-some k q zero (go p n retry) ready = absurd (omega (arith, ready.2))
match_loop-some k q (suc fuel) (go p n retry) ready =
    let (r, later_ready, agrees) = turned k q fuel p n retry ready in
    match_loop-some k r fuel (turn p n retry) later_ready ∙ ap some agrees

enough : (p n fuel : ℕ) → turns p n ≤ fuel → n * (p + n + 1) + p + n < fuel
unfolding turns
enough p n fuel h = omega (arith, mul_suc n (p + n + 1), mul_suc (suc n) (p + n + 1))

match_loop-glob :
    (pattern name : Str) (fuel : ℕ)
    → turns (length pattern) (length name) ≤ fuel
    → match_loop (go pattern name none) fuel ≡ some (glob pattern name)
match_loop-glob pattern name fuel h =
    match_loop-some (length pattern + length name + 1) (length name) fuel (go pattern name none) (
      (λ e. absurd (cc e)),
      (omega arith, omega arith),
      enough (length pattern) (length name) fuel h,
    )
    ∙ ap some (ground arith)

matches_glob-glob : (pattern name : Str) → matches_glob pattern name ≡ glob pattern name
unfolding matches_glob
matches_glob-glob pattern name = ap answered (match_loop-glob pattern name _ (omega arith))

-- The loop ends within the turns that are allowed for it, with the answer of `matches_glob`; a
-- larger allowance changes nothing.
pub match_loop-returns :
    (pattern name : Str) (fuel : ℕ)
    → turns (length pattern) (length name) ≤ fuel
    → match_loop (go pattern name none) fuel ≡ some (matches_glob pattern name)
match_loop-returns pattern name fuel h =
    rw (matches_glob-glob pattern name) (match_loop-glob pattern name fuel h)

-- A pattern matches a name exactly when the name is the pattern with each `*` replaced by some run
-- of characters and each `?` by one character.
pub matches_glob_iff :
    (pattern name : Str) → (matches_glob pattern name ≡ true) ↔ Matches pattern name
matches_glob_iff pattern name = rw (matches_glob-glob pattern name) (glob_iff pattern name)
