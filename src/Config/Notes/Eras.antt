-- ===== src/Config/Notes/Eras.antt =====
-- What the notes on servers say after probes were saved.
use mcpdial.Base.{
  Str, false, Option, none, some, [], ◌∷◌, if◌then◌else◌, Map, get_key, put_key, has_key, Distinct,
  retain, ◌≡◌, refl, ◌∙◌, ap, subst, or_else, str_eq, str_eq_iff, Bool-cases, inl, inr, is_some,
  get_key-put_key, get_key-retain, str_eq_refl,
}
use mcpdial.Protocol.Errors.{ok, ◌>>=◌}
use mcpdial.Config.Servers.{ServerConfig}
use mcpdial.Config.Files.{rewrite-some}
use mcpdial.Config.Notes.{
  EraNote, with_era, remember_era, ProbeRecord, Probes, keep_era, take_in, save_probes,
}

-- The era of a probe, or the one of what was noted before.
abbrev pub era_of_both : Option EraNote → Option ProbeRecord → Option EraNote
era_of_both (some era) noted = some era
era_of_both none none = none
era_of_both none (some before) = before.era

-- A probe that was taken, with the era noted before where it has none, or else what was noted.
abbrev pub noted_after : Option ProbeRecord → Option ProbeRecord → Option ProbeRecord
noted_after none noted = noted
noted_after (some probe) noted = some (record probe { era = era_of_both probe.era noted })

era_alone :
    (probe : ProbeRecord) (era : Option EraNote)
    → probe.era ≡ era
    → probe ≡ record probe { era = era_of_both era none }
era_alone probe none e = ap (λ x. record probe { era = x }) e
era_alone probe (some era) e = ap (λ x. record probe { era = x }) e

era_or_before :
    (era : Option EraNote) (before : ProbeRecord)
    → or_else era before.era ≡ era_of_both era (some before)
era_or_before none before = refl
era_or_before (some era) before = refl

keep_era-both :
    (noted : Option ProbeRecord) (probe : ProbeRecord)
    → keep_era noted probe ≡ record probe { era = era_of_both probe.era noted }
keep_era-both none probe = era_alone probe probe.era refl
keep_era-both (some before) probe =
    ap (λ x. record probe { era = x }) (era_or_before probe.era before)

-- What the loop that takes a probe in makes of it.
abbrev kept_after : Option ProbeRecord → Option ProbeRecord → Option ProbeRecord
kept_after none noted = noted
kept_after (some probe) noted = some (keep_era noted probe)

kept_after-noted : (o noted : Option ProbeRecord) → kept_after o noted ≡ noted_after o noted
kept_after-noted none noted = refl
kept_after-noted (some probe) noted = ap some (keep_era-both noted probe)

absent : (name : Str) (o : Option ProbeRecord) → is_some o ≡ false → o ≡ none
absent name none h = refl
absent name (some p) h = absurd (cc h)

get_key-take_in :
    (name : Str) (taken probes : Map ProbeRecord)
    → Distinct taken
    → get_key name (take_in taken probes) ≡ kept_after (get_key name taken) (get_key name probes)
unfolding get_key
get_key-take_in name [] probes d = refl
get_key-take_in name ((n, p) ∷ taken) probes (fresh, d) =
    get_key-take_in name taken (put_key n (keep_era (get_key n probes) p) probes) d
    ∙ ap (kept_after (get_key name taken))
        (get_key-put_key n name (keep_era (get_key n probes) p) probes)
    ∙ elim (Bool-cases (str_eq n name)) [
      | inl same ↦
          rw
            (
              same,
              absent name (get_key name taken)
                  (subst (λ x. has_key x taken ≡ false) ((str_eq_iff n name).0 same) fresh),
              (str_eq_iff n name).0 same,
            )
            refl
      | inr other ↦ rw other refl
    ]

-- Once probes of distinct names are saved, in a file that can be read and written, a saved server has the probe taken of
-- it, which keeps the era noted before where it brings none, or else what was noted before; a server
-- that is not saved has none.
pub get_key-save_probes :
    (name : Str) (saved : Map ServerConfig) (taken noted : Map ProbeRecord) (f : Probes)
    → Distinct taken
    → f.content ≡ ok noted
    → f.refused ≡ none
    → ((save_probes (ok saved) taken f).0.content >>= λ m. ok (get_key name m))
      ≡ ok (
          if has_key name saved
          then noted_after (get_key name taken) (get_key name noted)
          else none)
unfolding save_probes
get_key-save_probes name saved taken noted f d read writable =
    ap (λ r. (r.0).content >>= λ m. ok (get_key name m))
      (rewrite-some (λ probes. some (retain (λ name p. has_key name saved) (take_in taken probes)))
        f noted _ read writable refl)
    ∙ ap ok (
        get_key-retain (λ n. has_key n saved) name (take_in taken noted)
        ∙ ap (λ o. if has_key name saved then o else none)
            (get_key-take_in name taken noted d
              ∙ kept_after-noted (get_key name taken) (get_key name noted)))

-- What a file says of a server once an era was noted of it.
pub get_key-remember_era :
    (name : Str) (note : EraNote) (noted : Map ProbeRecord) (f : Probes)
    → f.content ≡ ok noted
    → f.refused ≡ none
    → (((remember_era name note f).0).content >>= λ m. ok (get_key name m))
      ≡ ok (some (with_era note (get_key name noted)))
unfolding remember_era
get_key-remember_era name note noted f read writable =
    ap (λ r. (r.0).content >>= λ m. ok (get_key name m))
      (rewrite-some (λ probes. some (put_key name (with_era note (get_key name probes)) probes)) f
        noted (put_key name (with_era note (get_key name noted)) noted) read writable refl)
    ∙ ap ok (
        get_key-put_key name name (with_era note (get_key name noted)) noted
        ∙ ap (λ b. if b then some (with_era note (get_key name noted)) else get_key name noted)
            (str_eq_refl name))
