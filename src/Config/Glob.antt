-- ===== src/Config/Glob.antt =====
-- src/config.rs: `matches_glob`, the patterns of allow and deny lists. The two indices of the source
-- are the rests of the pattern and of the name from there on; `retry` keeps the pattern behind the
-- last `*` and the name from where that `*` was tried last.
pub mod Matching
use mcpdial.Base.{
  Str, Bool, true, false, Option, none, some, [], ◌∷◌, ℕ, suc, zero, all, ◌==◌, ◌||◌, if◌then◌else◌,
  length, ◌+◌, ◌*◌,
}

-- Where the loop stands: it ends with an answer, or goes on.
pub data Turn : Type 0 where
  stop : Bool → Turn
  go : (p n : Str) (retry : Option (Str × Str)) → Turn

-- The last `*` takes one character more.
unfoldable pub backtrack : Option (Str × Str) → Turn
backtrack none = stop false
backtrack (some (after, [])) = go after [] (some (after, []))
backtrack (some (after, d ∷ reached)) = go after reached (some (after, reached))

-- One turn of the `while` loop.
unfoldable pub turn : Str → Str → Option (Str × Str) → Turn
unfolding backtrack
turn p [] retry = stop (all (λ c. c == b'*') p)
turn [] (d ∷ n) retry = backtrack retry
turn (c ∷ p) (d ∷ n) retry =
    if c == b'*'
    then go p (d ∷ n) (some (p, d ∷ n))
    else if c == b'?' || c == d
    then go p n retry
    else backtrack retry

unfoldable pub match_loop : Turn → ℕ → Option Bool
match_loop (stop b) k = some b
match_loop (go p n retry) zero = none
match_loop (go p n retry) (suc k) = match_loop (turn p n retry) k

-- Turns enough for a pattern of `p` characters and a name of `n`.
unfoldable pub turns : ℕ → ℕ → ℕ
turns p n = (n + 2) * (p + n + 1)

abbrev pub answered : Option Bool → Bool
answered none = false
answered (some b) = b

unfoldable pub matches_glob : Str → Str → Bool
unfolding match_loop turns
matches_glob pattern name =
    answered (match_loop (go pattern name none) (turns (length pattern) (length name)))
