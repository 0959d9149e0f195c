-- ===== src/Client/Eras.antt =====
-- src/client.rs: which era a server is opened in, and what is remembered of it for the next time.
use mcpdial.Base.{
  Str, Bool, true, false, Option, none, some, ℕ, ◌+◌, ◌-◌, ◌*◌, ◌<◌, ◌==◌, ltb, if◌then◌else◌, not,
  ◌&&◌, Map, get_key, and_then, ◌≡◌, ◌≢◌, ◌⊎◌, ◌↔◌, inl, inr, refl, ap, ◌∙◌, arith,
}
use mcpdial.Protocol.Version.{KnownVersion, Era, discovery, handshake, era_of}
use mcpdial.Protocol.Errors.{Result, ok, err, ◌>>=◌}
use mcpdial.Config.Notes.Eras.{get_key-remember_era}
use mcpdial.Config.Notes.{EraNote, ProbeRecord, Probes, remember_era}

-- How a session is opened.
pub data Opening : Type 0 where
  detect : Opening
  pinned : KnownVersion → Opening
  remembered : Era → Opening

-- Seven days, in seconds.
abbrev pub era_ttl : ℕ
era_ttl = 7 * 24 * 60 * 60

abbrev pub era_eq : Era → Era → Bool
era_eq discovery discovery = true
era_eq handshake handshake = true
era_eq _ _ = false

-- A note holds for the configuration that it was made of, for a while.
abbrev pub believed : ℕ → ℕ → EraNote → Option Era
believed now key note =
    if note.key == key && ltb (now - note.checked_at) era_ttl then some note.era else none

abbrev pub noted_era : ℕ → ℕ → Str → Result (Map ProbeRecord) → Option Era
noted_era now key name (err e) = none
noted_era now key name (ok probes) =
    and_then (and_then (get_key name probes) (λ probe. probe.era)) (believed now key)

-- `remembered_era`, at a time; `key` is the hash of the configuration as it is now.
unfoldable pub remembered_era : ℕ → ℕ → Bool → Str → Probes → Option Era
unfolding get_key
remembered_era now key false name f = none
remembered_era now key true name f = noted_era now key name f.content

-- `opening_for`, where the version that is pinned is known.
unfoldable pub opening_for : Option KnownVersion → Option Era → Opening
opening_for (some version) era = pinned version
opening_for none (some era) = remembered era
opening_for none none = detect

abbrev pub worth_writing : Bool → Opening → Era → Bool
worth_writing false opening settled = false
worth_writing true (pinned version) settled = false
worth_writing true detect settled = true
worth_writing true (remembered era) settled = not (era_eq era settled)

-- `note_era`: what the session settled on is noted, where it is news.
unfoldable pub note_era : ℕ → ℕ → Bool → Str → Opening → KnownVersion → Probes → Probes
unfolding remember_era era_of
note_era now key saved name opening version f =
    if worth_writing saved opening (era_of version)
    then (remember_era name (record { era = era_of version; key = key; checked_at = now }) f).0
    else f

-- By what is said of the server.
abbrev era_said : ℕ → ℕ → Result (Option ProbeRecord) → Option Era
era_said now key (err e) = none
era_said now key (ok o) = and_then (and_then o (λ probe. probe.era)) (believed now key)

noted_era-said :
    (now key : ℕ) (name : Str) (r : Result (Map ProbeRecord))
    → noted_era now key name r ≡ era_said now key (r >>= λ m. ok (get_key name m))
noted_era-said now key name (err e) = refl
noted_era-said now key name (ok m) = refl

believed-now :
    (later now key : ℕ) (era : Era)
    → later < now + era_ttl
    → believed later key (record { era = era; key = key; checked_at = now }) ≡ some era
believed-now later now key era h = ground arith

-- What is settled on is news where it was to be found out, or where another era was remembered.
abbrev pub IsNews : Opening → Era → Type 0
IsNews opening settled =
    (opening ≡ detect) ⊎ ((era : Era) × (opening ≡ remembered era) × (era ≢ settled))

era_eq_iff : (a b : Era) → (era_eq a b ≡ true) ↔ (a ≡ b)
era_eq_iff discovery discovery = ground arith
era_eq_iff discovery handshake = ground arith
era_eq_iff handshake discovery = ground arith
era_eq_iff handshake handshake = ground arith

worth_writing-news :
    (opening : Opening) (settled : Era)
    → IsNews opening settled
    → worth_writing true opening settled ≡ true
worth_writing-news opening settled (inl found_out) =
    ap (λ o. worth_writing true o settled) found_out
worth_writing-news opening settled (inr (era, was, other)) =
    ap (λ o. worth_writing true o settled) was ∙ ground (arith, other, era_eq_iff era settled)

-- What a session with a saved server settles on, where its era was to be found out or another one was
-- remembered, is remembered from then on for as long as a note is believed, while the configuration of
-- the server is the same; the notes are in a file that can be read and written.
pub remembered_era-note_era :
    (now later key : ℕ) (name : Str) (opening : Opening) (version : KnownVersion)
    (noted : Map ProbeRecord) (f : Probes)
    → f.content ≡ ok noted
    → f.refused ≡ none
    → IsNews opening (era_of version)
    → later < now + era_ttl
    → remembered_era later key true name (note_era now key true name opening version f)
      ≡ some (era_of version)
unfolding remembered_era note_era remember_era
remembered_era-note_era now later key name opening version noted f read writable worth soon =
    let note : EraNote = record { era = era_of version; key = key; checked_at = now } in
    ap (λ b. remembered_era later key true name (if b then (remember_era name note f).0 else f))
      (worth_writing-news opening (era_of version) worth)
    ∙ noted_era-said later key name (((remember_era name note f).0).content)
    ∙ ap (era_said later key) (get_key-remember_era name note noted f read writable)
    ∙ believed-now later now key (era_of version) soon
