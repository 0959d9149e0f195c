-- ===== src/Tests/Client.antt =====
-- The theorems about src/client.rs at concrete inputs.
use mcpdial.Base.{inr, true, none, some, [], codes, ◌≡◌, refl, arith}
use mcpdial.Protocol.Version.{discovery, era_of, latest_legacy}
use mcpdial.Protocol.Errors.{ok}
use mcpdial.Config.Notes.{Probes}
use mcpdial.Client.Eras.{remembered, remembered_era, note_era, remembered_era-note_era}

abbrev nothing_noted : Probes
nothing_noted = record { content = ok []; refused = none }

-- A server that was remembered by the newer era and now opens with a handshake.
remembered_era-note_era_example :
    remembered_era 200 7 true
      (codes "s")
      (note_era 100 7 true (codes "s") (remembered discovery) latest_legacy nothing_noted)
    ≡ some (era_of latest_legacy)
unfolding era_of
remembered_era-note_era_example =
    remembered_era-note_era 100 200 7 (codes "s") (remembered discovery) latest_legacy []
      nothing_noted refl refl (inr (discovery, refl, λ e. absurd (cc e))) (omega arith)
