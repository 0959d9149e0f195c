-- ===== src/Shell/History/Bounds.antt =====
-- The bounds of what a session holds.
use mathlib.Core.List.{tail-eq_of_cons-eq}
use mcpdial.Base.{
  ℕ, ◌+◌, ◌-◌, ◌≤◌, ◌<◌, true, false, ◌≡◌, ◌⊎◌, inl, inr, refl, ap, ◌≢◌, List, [], ◌∷◌, ◌++◌, Str,
  arith, length, length-append, Bool-cases, ltb, ◌||◌,
}
use mcpdial.Json.{Value}
use mcpdial.Shell.History.{
  most_results, most_bytes, most_calls, Origin, Recorded, History, fresh, evict, new_result, file,
  trim_calls, sending,
}

abbrev pub total : List Recorded → ℕ
total [] = 0
total (r ∷ rs) = r.weight + total rs

-- The results are numbered one after another behind `n`, up to `p`.
abbrev pub Runs : ℕ → List Recorded → ℕ → Type 0
Runs n [] p = n ≡ p
Runs n (r ∷ rs) p = (r.number ≡ n + 1) × Runs (n + 1) rs p

-- What holds of every session: the weight is that of the results kept, which are at most 50 and,
-- unless there is only one, at most 8 MiB; the first `dropped` results are gone and all later ones
-- are kept, in the order of their numbers; at most 50 calls are remembered.
pub record IsValid (h : History) : Type 0 where
  pub weighed : h.weight ≡ total h.kept
  pub few : length h.kept ≤ most_results
  pub light : (length h.kept ≤ 1) ⊎ (h.weight ≤ most_bytes)
  pub dropped : ℕ
  pub numbered : Runs dropped h.kept h.printed
  pub calls : length h.sent ≤ most_calls

total-append : (rs qs : List Recorded) → total (rs ++ qs) ≡ total rs + total qs
total-append [] qs = omega arith
total-append (r ∷ rs) qs = omega (arith, total-append rs qs)

Runs-snoc :
    (n p : ℕ) (rs : List Recorded) (r : Recorded)
    → Runs n rs p
    → r.number ≡ p + 1
    → Runs n (rs ++ r ∷ []) (p + 1)
Runs-snoc n p [] r h e = (omega arith, omega arith)
Runs-snoc n p (q ∷ rs) r (h, hs) e = (h, Runs-snoc (n + 1) p rs r hs e)

-- What the loop leaves of a weighed and numbered list.
record IsTrimmed (p : ℕ) (out : List Recorded × ℕ) : Type 0 where
  weighed : out.1 ≡ total out.0
  few : length out.0 ≤ most_results
  light : (length out.0 ≤ 1) ⊎ (out.1 ≤ most_bytes)
  dropped : ℕ
  numbered : Runs dropped out.0 p

within :
    (q s : Recorded) (rs : List Recorded) (w n p : ℕ)
    → w ≡ total (q ∷ s ∷ rs)
    → Runs n (q ∷ s ∷ rs) p
    → (ltb most_results (length (q ∷ s ∷ rs)) || ltb most_bytes w) ≡ false
    → IsTrimmed p (q ∷ s ∷ rs, w)
within q s rs w n p e r under = record {
  weighed = e;
  few = ground arith;
  light = inr (ground arith);
  dropped = n;
  numbered = r;
}

evict-IsTrimmed :
    (rs : List Recorded) (w n p : ℕ) → w ≡ total rs → Runs n rs p → IsTrimmed p (evict rs w)
unfolding evict
evict-IsTrimmed [] w n p e r = record {
  weighed = e;
  few = omega arith;
  light = inl (omega arith);
  dropped = n;
  numbered = r;
}
evict-IsTrimmed (q ∷ []) w n p e r = record {
  weighed = e;
  few = omega arith;
  light = inl (omega arith);
  dropped = n;
  numbered = r;
}
evict-IsTrimmed (q ∷ s ∷ rs) w n p e r =
    elim (Bool-cases (ltb most_results (length (q ∷ s ∷ rs)) || ltb most_bytes w)) [
      | inl over ↦ rw over (evict-IsTrimmed (s ∷ rs) (w - q.weight) (n + 1) p (omega arith) r.1)
      | inr under ↦ rw under (within q s rs w n p e r under)
    ]

pub fresh-IsValid : IsValid fresh
fresh-IsValid = record {
  weighed = refl;
  few = omega arith;
  light = inl (omega arith);
  dropped = 0;
  numbered = refl;
  calls = omega arith;
}

module _ (json_bytes : Value → ℕ) where
  pub file-IsValid :
      {h : History} (o : Origin) (v : Value) (t : Str)
      → IsValid h
      → IsValid (file json_bytes h o v t)
  unfolding file
  file-IsValid {h} o v t valid =
      let new = new_result json_bytes h o v t in
      let trimmed =
        evict-IsTrimmed (h.kept ++ new ∷ []) (h.weight + new.weight) valid.dropped (h.printed + 1)
          (omega (arith, valid.weighed, total-append h.kept (new ∷ [])))
          (Runs-snoc valid.dropped h.printed h.kept new valid.numbered refl) in
      record {
        weighed = trimmed.weighed;
        few = trimmed.few;
        light = trimmed.light;
        dropped = trimmed.dropped;
        numbered = trimmed.numbered;
        calls = valid.calls;
      }

length-trim_calls : (cs : List (Str × Value)) → length (trim_calls cs) ≤ most_calls
unfolding trim_calls
length-trim_calls [] = omega arith
length-trim_calls (c ∷ cs) = ground (arith, length-trim_calls cs)

pub sending-IsValid :
    {h : History} (tool : Str) (arguments : Value) → IsValid h → IsValid (sending h tool arguments)
unfolding sending
sending-IsValid {h} tool arguments valid = record {
  weighed = valid.weighed;
  few = valid.few;
  light = valid.light;
  dropped = valid.dropped;
  numbered = valid.numbered;
  calls = length-trim_calls (h.sent ++ (tool, arguments) ∷ []);
}

-- One thing that a session does to its history.
pub data Act : Type 0 where
  printing : Origin → Value → Str → Act
  calling : Str → Value → Act

module _ (json_bytes : Value → ℕ) where
  abbrev pub act : History → Act → History
  act h (printing o v t) = file json_bytes h o v t
  act h (calling tool arguments) = sending h tool arguments

  -- The history of a session that has done `acts`, in order, starting from `h`.
  abbrev pub session : History → List Act → History
  session h [] = h
  session h (a ∷ acts) = session (act h a) acts

  act-IsValid : {h : History} (a : Act) → IsValid h → IsValid (act h a)
  act-IsValid (printing o v t) valid = file-IsValid json_bytes o v t valid
  act-IsValid (calling tool arguments) valid = sending-IsValid tool arguments valid

  session_from : (acts : List Act) {h : History} → IsValid h → IsValid (session h acts)
  session_from [] valid = valid
  session_from (a ∷ acts) valid = session_from acts (act-IsValid a valid)

  -- Whatever a session prints and calls, in whatever order, its history keeps its bounds, its
  -- weight is the weight of what it keeps, and it keeps a run of the latest results.
  pub session-IsValid : (acts : List Act) → IsValid (session fresh acts)
  session-IsValid acts = session_from acts fresh-IsValid

cons-ne-longer : (pre : List Recorded) (q : Recorded) (rs : List Recorded) → rs ≢ pre ++ q ∷ rs
cons-ne-longer pre q rs h =
    let same : length rs ≡ length (pre ++ q ∷ rs) = ap length h in
    absurd (omega (arith, length-append pre (q ∷ rs)))

needed_over :
    (r : Recorded) (tail rest pre : List Recorded) (q : Recorded) (w : ℕ)
    → w ≡ total (r ∷ tail)
    → (ltb most_results (length (r ∷ tail)) || ltb most_bytes w) ≡ true
    → r ∷ tail ≡ pre ++ q ∷ rest
    → ((pre' : List Recorded)
        → tail ≡ pre' ++ q ∷ rest
        → (most_results < length (q ∷ rest)) ⊎ (most_bytes < total (q ∷ rest)))
    → (most_results < length (q ∷ rest)) ⊎ (most_bytes < total (q ∷ rest))
needed_over r tail rest [] q w e over split ih =
    let long : length (r ∷ tail) ≡ length (q ∷ rest) = ap length split in
    let heavy : total (r ∷ tail) ≡ total (q ∷ rest) = ap total split in
    rw (← heavy, ← long) (ground arith)
needed_over r tail rest (p ∷ pre) q w e over split ih = ih pre (tail-eq_of_cons-eq split)

-- Nothing is dropped in vain: with the last dropped result `q` kept too, the results would be more
-- than 50 or heavier than 8 MiB.
pub evict_needed :
    (rs pre : List Recorded) (q : Recorded) (w : ℕ)
    → w ≡ total rs
    → rs ≡ pre ++ q ∷ (evict rs w).0
    → (most_results < length (q ∷ (evict rs w).0)) ⊎ (most_bytes < total (q ∷ (evict rs w).0))
unfolding evict
evict_needed [] pre q w e split = absurd (cons-ne-longer pre q [] split)
evict_needed (r ∷ []) pre q w e split = absurd (cons-ne-longer pre q (r ∷ []) split)
evict_needed (r ∷ s ∷ rs) pre q w e split =
    elim (Bool-cases (ltb most_results (length (r ∷ s ∷ rs)) || ltb most_bytes w)) [
      | inl over ↦ rw over (
          needed_over r (s ∷ rs) (evict (s ∷ rs) (w - r.weight)).0 pre q w e over
            (rw (over, evict) at split)
            (λ pre' h. evict_needed (s ∷ rs) pre' q (w - r.weight) (omega arith) h))
      | inr under ↦ absurd (cons-ne-longer pre q (r ∷ s ∷ rs) (rw (under, evict) at split))
    ]
