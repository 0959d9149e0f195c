-- ===== src/Config/Servers/Allowed.antt =====
-- Which tools the lists of a server let through.
use mcpdial.Base.{
  Str, true, false, List, [], ◌∷◌, ◌≡◌, ◌↔◌, ◌⊎◌, arith, is_empty, not, ◌&&◌, Option, none, some,
}
use mcpdial.Protocol.Errors.{ok}
use mcpdial.Config.Glob.Matching.{Matches, matches_glob_iff}
use mcpdial.Config.Servers.{ServerConfig, Denial, hits, denial, refusal, refuse_denied}

-- One of some patterns stands for a name.
abbrev pub IsMatched : List Str → Str → Type 0
IsMatched [] tool = ⊥
IsMatched (p ∷ ps) tool = Matches p tool ⊎ IsMatched ps tool

hits_iff : (ps : List Str) (tool : Str) → (hits ps tool ≡ true) ↔ IsMatched ps tool
hits_iff [] tool = ground arith
hits_iff (p ∷ ps) tool = ground (arith, matches_glob_iff p tool, hits_iff ps tool)

listed_iff :
    (allow : List Str) (tool : Str)
    → ((not (is_empty allow) && not (hits allow tool)) ≡ false)
      ↔ ((allow ≡ []) ⊎ IsMatched allow tool)
listed_iff [] tool = ground arith
listed_iff (p ∷ ps) tool = ground (arith, hits_iff (p ∷ ps) tool)

denial-none_iff :
    (c : ServerConfig) (tool : Str)
    → (denial c tool ≡ none) ↔ (¬ IsMatched c.deny tool × ((c.allow ≡ []) ⊎ IsMatched c.allow tool))
unfolding denial
denial-none_iff c tool = ground (arith, hits_iff c.deny tool, listed_iff c.allow tool)

refused : (name tool : Str) (d : Option Denial) → (refusal name tool d ≡ ok tt) ↔ (d ≡ none)
refused name tool none = ground arith
refused name tool (some why) = ground arith

-- A tool is let through exactly when no pattern of the deny list stands for it and the allow list is
-- empty or has a pattern that does.
pub refuse_denied-ok_iff :
    (c : ServerConfig) (name tool : Str)
    → (refuse_denied c name tool ≡ ok tt)
      ↔ (¬ IsMatched c.deny tool × ((c.allow ≡ []) ⊎ IsMatched c.allow tool))
unfolding refuse_denied denial
refuse_denied-ok_iff c name tool =
    ground (arith, refused name tool (denial c tool), denial-none_iff c tool)
